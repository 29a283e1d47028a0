-- ===== src/Uri/Between.antt =====
-- include/foxy/uri.hpp: the alternative of ip-v6-address that takes an address with two colons in it and
-- an IPv4 address at its end, or stops within that, by the number of groups between them.
use foxy.Base.{
  ℕ, suc, ◌≤◌, ◌≡◌, ◌≢◌, refl, ◌∙◌, none, some, List, [], ◌∷◌, ◌++◌, arith, Text, codes, length,
  All, ap,
}
use foxy.X3.Grammar.{Grammar, lit, ◌>>◌, exactly}
use foxy.X3.Run.{run}
use foxy.X3.Ascii.{IsAscii}
use foxy.X3.Library.{X3}
use foxy.Uri.Standard
use foxy.Uri.Literals.{IsGroup}
use foxy.Uri.Groups.{h16_colon, groups-few}
use foxy.Uri.Gaps.{
  gapped, alternatives, Meets, up_to, up_to-Meets, up_to-all, one_group, one_group-Meets,
  one_group-all, two_groups, two_groups-Meets, two_groups-all, two_groups-missed,
}
use foxy.Uri.Behind.{
  gap-IsEnd, gap-Meets, fixed-none, fixed-some, missed-none, then-none, then-some, gap-all,
}
use foxy.Uri.Dotted.{
  dotted, ls32-address, dotted-few, dotted-all, four, four-few, four-misread, three-none,
  three-some, three-misread,
}

abbrev gap : Grammar
gap = lit (codes "::")

dotted-none : (ms : List Text) (v : Text) → length ms ≡ 0 → dotted ms v ≡ v
dotted-none [] v l = refl
dotted-none (g ∷ ms) v l = absurd (omega arith)

module _ (x : X3) (ks ms : List Text) (o rest e : Text) (hk : All IsGroup ks) (hm : All IsGroup ms)
    (octet : IsGroup o)
    (v4 : run x.is_class Standard.ip_v4_address (o ++ (b'.' ∷ rest)) ≡ some (b']' ∷ e))
    (a : All IsAscii (dotted ms (o ++ (b'.' ∷ rest)))) where
  abbrev behind : Text
  behind = dotted ms (o ++ (b'.' ∷ rest))

  abbrev input : Text
  input = gapped ks behind

  no_eight : length ks ≤ 7 → run x.is_class (exactly 6 h16_colon >> Standard.ls32) input ≡ none
  unfolding run
  no_eight l = groups-few x 6 ks (codes "::" ++ behind) l hk (gap-IsEnd behind a)

  fixed_none :
      (g : Grammar) (n : ℕ)
      → suc (length ms) ≤ n
      → Meets (run x.is_class g input) behind
      → run x.is_class (g >> exactly n h16_colon >> Standard.ls32) input ≡ none
  fixed_none g n l m = fixed-none x g n input behind m (dotted-few x o rest e octet v4 n ms l hm)

  fixed_some :
      (g : Grammar) (n : ℕ)
      → length ms ≡ n
      → run x.is_class g input ≡ some behind
      → run x.is_class (g >> exactly n h16_colon >> Standard.ls32) input ≡ some (b']' ∷ e)
  fixed_some g n l m =
      fixed-some x g n input behind (b']' ∷ e) m (dotted-all x o rest e octet v4 n ms l hm)

  gap_met : Meets (run x.is_class gap input) behind
  unfolding run
  gap_met = gap-Meets ks behind hk

  gap_alone : length ks ≡ 0 → run x.is_class gap input ≡ some behind
  unfolding run
  gap_alone l = gap-all ks behind l

  no_seven :
      length ms ≤ 4 → run x.is_class (gap >> exactly 5 h16_colon >> Standard.ls32) input ≡ none
  no_seven l = fixed_none gap 5 (omega arith) gap_met

  no_six :
      length ms ≤ 3
      → run x.is_class (one_group x >> gap >> exactly 4 h16_colon >> Standard.ls32) input ≡ none
  no_six l = fixed_none (one_group x >> gap) 4 (omega arith) (one_group-Meets x ks behind hk)

  no_five :
      length ms ≤ 2
      → run x.is_class (two_groups x >> gap >> exactly 3 h16_colon >> Standard.ls32) input ≡ none
  no_five l = fixed_none (two_groups x >> gap) 3 (omega arith) (two_groups-Meets x ks behind hk)

  no_five_single :
      length ks ≡ 1
      → run x.is_class (two_groups x >> gap >> exactly 3 h16_colon >> Standard.ls32) input ≡ none
  no_five_single k =
      missed-none x (two_groups x >> gap) (exactly 3 h16_colon) Standard.ls32 input
        (two_groups-missed x ks behind hk k)

  no_four :
      length ms ≤ 2
      → run x.is_class
          (up_to x 2 >> gap >> (Standard.ls32 >> exactly 2 (lit (codes ":") >> Standard.h16)))
          input
        ≡ none
  no_four l =
      then-none x (up_to x 2 >> gap) (four x o rest e octet v4) input behind
        (up_to-Meets x 2 ks behind hk) (four-few x o rest e octet v4 ms l hm)

  pub five-taken :
      length ms ≡ 5 → length ks ≤ 0 → run x.is_class Standard.ip_v6_address input ≡ some (b']' ∷ e)
  five-taken l k =
      let taken = fixed_some gap 5 l (gap_alone (omega arith)) in
      alternatives x input ∙ rw (no_eight (omega arith)) (rw taken refl)

  pub four-taken :
      length ms ≡ 4 → length ks ≤ 1 → run x.is_class Standard.ip_v6_address input ≡ some (b']' ∷ e)
  four-taken l k =
      let taken = fixed_some (one_group x >> gap) 4 l (one_group-all x ks behind hk k) in
      alternatives x input ∙ rw (no_eight (omega arith), no_seven (omega arith)) (rw taken refl)

  pub three-taken :
      length ms ≡ 3
      → length ks ≤ 2
      → length ks ≢ 1
      → run x.is_class Standard.ip_v6_address input ≡ some (b']' ∷ e)
  three-taken l k n =
      let taken = fixed_some (two_groups x >> gap) 3 l (two_groups-all x ks behind hk k n) in
      alternatives x input
      ∙ rw (no_eight (omega arith), no_seven (omega arith), no_six (omega arith)) (rw taken refl)

  pub three-missed :
      length ms ≡ 3
      → length ks ≡ 1
      → run x.is_class Standard.ip_v6_address input ≡ some (b'.' ∷ rest)
  three-missed l k =
      let taken =
        then-some x (up_to x 2 >> gap) (four x o rest e octet v4) input behind (b'.' ∷ rest)
          (up_to-all x 2 ks behind hk (omega arith)) (four-misread x o rest e octet v4 ms l hm) in
      alternatives x input
      ∙ rw (no_eight (omega arith), no_seven (omega arith), no_six (omega arith), no_five_single k)
          (rw taken refl)

  pub two-missed :
      length ms ≡ 2
      → length ks ≤ 3
      → run x.is_class Standard.ip_v6_address input ≡ some (b'.' ∷ rest)
  two-missed l k =
      let taken =
        three-misread x o rest e octet v4 (up_to x 3 >> gap) input ms l hm
          (up_to-all x 3 ks behind hk (omega arith)) in
      alternatives x input
      ∙ rw
          (
            no_eight (omega arith),
            no_seven (omega arith),
            no_six (omega arith),
            no_five (omega arith),
            no_four (omega arith),
          )
          (rw taken refl)

  pub one-taken :
      length ms ≡ 1 → length ks ≤ 4 → run x.is_class Standard.ip_v6_address input ≡ some (b']' ∷ e)
  one-taken l k =
      let taken =
        three-some x o rest e octet v4 (up_to x 3 >> gap) input ms l hm
          (up_to-all x 3 ks behind hk (omega arith)) in
      alternatives x input
      ∙ rw
          (
            no_eight (omega arith),
            no_seven (omega arith),
            no_six (omega arith),
            no_five (omega arith),
            no_four (omega arith),
          )
          (rw taken refl)

  no_groups : length ms ≡ 0 → behind ≡ o ++ (b'.' ∷ rest)
  no_groups l = dotted-none ms (o ++ (b'.' ∷ rest)) l

  no_three :
      length ms ≡ 0
      → run x.is_class (up_to x 3 >> gap >> Standard.h16 >> lit (codes ":") >> Standard.ls32) input
        ≡ none
  no_three l =
      three-none x o rest e octet v4 (up_to x 3 >> gap) input ms l (up_to-Meets x 3 ks behind hk)

  pub zero-taken :
      length ms ≡ 0 → length ks ≤ 5 → run x.is_class Standard.ip_v6_address input ≡ some (b']' ∷ e)
  zero-taken l k =
      let taken =
        then-some x (up_to x 4 >> gap) Standard.ls32 input behind (b']' ∷ e)
          (up_to-all x 4 ks behind hk k)
          (ap (run x.is_class Standard.ls32) (no_groups l) ∙ ls32-address x o rest e octet v4) in
      alternatives x input
      ∙ rw
          (
            no_eight (omega arith),
            no_seven (omega arith),
            no_six (omega arith),
            no_five (omega arith),
            no_four (omega arith),
            no_three l,
          )
          (rw taken refl)
