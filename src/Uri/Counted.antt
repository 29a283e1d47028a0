-- ===== src/Uri/Counted.antt =====
-- include/foxy/uri.hpp: the alternative of ip-v6-address that takes an address with two colons in it,
-- by the number of groups behind them.
use foxy.Base.{
  ℕ, suc, ◌≤◌, ◌≡◌, ◌≢◌, refl, ◌∙◌, none, some, List, ◌∷◌, ◌++◌, arith, inr, Text, codes, length,
  drop, All, ap,
}
use foxy.X3.Grammar.{Grammar, lit, ◌>>◌, exactly}
use foxy.X3.Run.{rounds, run}
use foxy.X3.Ascii.{IsAscii}
use foxy.X3.Library.{X3}
use foxy.Uri.Standard
use foxy.Uri.Literals.{IsGroup}
use foxy.Uri.Groups.{
  more, between_colons, h16_colon, h16-mark, groups, groups-few, groups-all, between_colons-IsAscii,
}
use foxy.Uri.Gaps.{
  gapped, alternatives, Meets, up_to, up_to-Meets, up_to-all, one_group, one_group-Meets,
  one_group-all, two_groups, two_groups-Meets, two_groups-all, two_groups-missed, drop-all,
}
use foxy.Uri.Behind.{
  gap-IsEnd, bracket-IsEnd, gap-Meets, fixed-none, fixed-some, missed-none, then-none, then-some,
  four, four-few, four-some, ls32-few, three-none, three-some, one-some, none-left, gap-all,
}

abbrev gap : Grammar
gap = lit (codes "::")

module _ (x : X3) (ks ms : List Text) (r : Text) (hk : All IsGroup ks) (hm : All IsGroup ms)
    (a : All IsAscii r) where
  abbrev behind : Text
  behind = between_colons ms (b']' ∷ r)

  abbrev input : Text
  input = gapped ks behind

  behind-IsAscii : All IsAscii behind
  behind-IsAscii = between_colons-IsAscii ms (b']' ∷ r) hm (omega arith, a)

  behind-few : (n : ℕ) → length ms ≤ suc n → groups x n behind ≡ none
  behind-few n l = groups-few x n ms (b']' ∷ r) l hm (bracket-IsEnd r a)

  behind-all : (n : ℕ) → length ms ≡ suc (suc n) → groups x n behind ≡ some (b']' ∷ r)
  behind-all n l = groups-all x n ms (b']' ∷ r) l hm (inr refl)

  abbrev eight : Grammar
  eight = exactly 6 h16_colon >> Standard.ls32

  abbrev fixed : Grammar → ℕ → Grammar
  fixed g n = g >> exactly n h16_colon >> Standard.ls32

  abbrev three : Grammar
  three = up_to x 3 >> gap >> Standard.h16 >> lit (codes ":") >> Standard.ls32

  no_eight : length ks ≤ 7 → run x.is_class eight input ≡ none
  unfolding run
  no_eight l = groups-few x 6 ks (codes "::" ++ behind) l hk (gap-IsEnd behind behind-IsAscii)

  gap_met : Meets (run x.is_class gap input) behind
  unfolding run
  gap_met = gap-Meets ks behind hk

  no_seven : length ms ≤ 6 → run x.is_class (fixed gap 5) input ≡ none
  no_seven l = fixed-none x gap 5 input behind gap_met (behind-few 5 l)

  no_six : length ms ≤ 5 → run x.is_class (fixed (one_group x >> gap) 4) input ≡ none
  no_six l =
      fixed-none x (one_group x >> gap) 4 input behind (one_group-Meets x ks behind hk)
        (behind-few 4 l)

  no_five : length ms ≤ 4 → run x.is_class (fixed (two_groups x >> gap) 3) input ≡ none
  no_five l =
      fixed-none x (two_groups x >> gap) 3 input behind (two_groups-Meets x ks behind hk)
        (behind-few 3 l)

  no_four : length ms ≤ 3 → run x.is_class (up_to x 2 >> gap >> four x r a) input ≡ none
  no_four l =
      then-none x (up_to x 2 >> gap) (four x r a) input behind (up_to-Meets x 2 ks behind hk)
        (four-few x r a ms hm l)

  no_three : length ms ≤ 2 → run x.is_class three input ≡ none
  no_three l = three-none x r a (up_to x 3 >> gap) input ms hm l (up_to-Meets x 3 ks behind hk)

  no_two : length ms ≤ 1 → run x.is_class (up_to x 4 >> gap >> Standard.ls32) input ≡ none
  no_two l =
      then-none x (up_to x 4 >> gap) Standard.ls32 input behind (up_to-Meets x 4 ks behind hk)
        (ls32-few x r a ms hm l)

  gap_alone : length ks ≡ 0 → run x.is_class gap input ≡ some behind
  unfolding run
  gap_alone l = gap-all ks behind l

  two_alone : length ms ≡ 2 → run x.is_class Standard.ls32 behind ≡ some (b']' ∷ r)
  unfolding rounds
  two_alone l = groups-all x 0 ms (b']' ∷ r) l hm (inr refl)

  four_alone : length ms ≡ 4 → run x.is_class (four x r a) behind ≡ some (b']' ∷ r)
  four_alone l = four-some x r a ms hm (omega arith) ∙ rw (drop-all 4 ms (omega arith)) refl

  no_one : length ms ≡ 0 → run x.is_class (up_to x 5 >> gap >> Standard.h16) input ≡ none
  no_one l =
      then-none x (up_to x 5 >> gap) Standard.h16 input behind (up_to-Meets x 5 ks behind hk)
        (rw (none-left x r a ms l) (h16-mark x (b']' ∷ r) (inr refl)))

  pub seven-taken :
      length ms ≡ 7 → length ks ≤ 0 → run x.is_class Standard.ip_v6_address input ≡ some (b']' ∷ r)
  seven-taken l k =
      let taken =
        fixed-some x gap 5 input behind (b']' ∷ r) (gap_alone (omega arith)) (behind-all 5 l) in
      alternatives x input ∙ rw (no_eight (omega arith)) (rw taken refl)

  pub six-taken :
      length ms ≡ 6 → length ks ≤ 1 → run x.is_class Standard.ip_v6_address input ≡ some (b']' ∷ r)
  six-taken l k =
      let taken =
        fixed-some x (one_group x >> gap) 4 input behind (b']' ∷ r)
          (one_group-all x ks behind hk (omega arith)) (behind-all 4 l) in
      alternatives x input ∙ rw (no_eight (omega arith), no_seven (omega arith)) (rw taken refl)

  pub five-taken :
      length ms ≡ 5
      → length ks ≤ 2
      → length ks ≢ 1
      → run x.is_class Standard.ip_v6_address input ≡ some (b']' ∷ r)
  five-taken l k apart =
      let taken =
        fixed-some x (two_groups x >> gap) 3 input behind (b']' ∷ r)
          (two_groups-all x ks behind hk (omega arith) apart) (behind-all 3 l) in
      alternatives x input
      ∙ rw (no_eight (omega arith), no_seven (omega arith), no_six (omega arith)) (rw taken refl)

  pub four-taken :
      length ms ≡ 4 → length ks ≤ 3 → run x.is_class Standard.ip_v6_address input ≡ some (b']' ∷ r)
  four-taken l k =
      let taken =
        then-some x (up_to x 2 >> gap) (four x r a) input behind (b']' ∷ r)
          (up_to-all x 2 ks behind hk (omega arith)) (four_alone l) in
      alternatives x input
      ∙ rw
          (
            no_eight (omega arith),
            no_seven (omega arith),
            no_six (omega arith),
            no_five (omega arith),
          )
          (rw taken refl)

  pub three-taken :
      length ms ≡ 3 → length ks ≤ 4 → run x.is_class Standard.ip_v6_address input ≡ some (b']' ∷ r)
  three-taken l k =
      let taken =
        three-some x r a (up_to x 3 >> gap) input ms hm l
          (up_to-all x 3 ks behind hk (omega arith)) in
      alternatives x input
      ∙ rw
          (
            no_eight (omega arith),
            no_seven (omega arith),
            no_six (omega arith),
            no_five (omega arith),
            no_four (omega arith),
          )
          (rw taken refl)

  pub two-taken :
      length ms ≡ 2 → length ks ≤ 5 → run x.is_class Standard.ip_v6_address input ≡ some (b']' ∷ r)
  two-taken l k =
      let taken =
        then-some x (up_to x 4 >> gap) Standard.ls32 input behind (b']' ∷ r)
          (up_to-all x 4 ks behind hk (omega arith)) (two_alone l) in
      alternatives x input
      ∙ rw
          (
            no_eight (omega arith),
            no_seven (omega arith),
            no_six (omega arith),
            no_five (omega arith),
            no_four (omega arith),
            no_three (omega arith),
          )
          (rw taken refl)

  pub one-taken :
      length ms ≡ 1 → length ks ≤ 6 → run x.is_class Standard.ip_v6_address input ≡ some (b']' ∷ r)
  one-taken l k =
      let taken =
        then-some x (up_to x 5 >> gap) Standard.h16 input behind (b']' ∷ r)
          (up_to-all x 5 ks behind hk (omega arith)) (one-some x r a ms hm l) in
      alternatives x input
      ∙ rw
          (
            no_eight (omega arith),
            no_seven (omega arith),
            no_six (omega arith),
            no_five (omega arith),
            no_four (omega arith),
            no_three (omega arith),
            no_two (omega arith),
          )
          (rw taken refl)

  pub zero-taken :
      length ms ≡ 0 → length ks ≤ 7 → run x.is_class Standard.ip_v6_address input ≡ some (b']' ∷ r)
  zero-taken l k =
      let taken = up_to-all x 6 ks behind hk (omega arith) ∙ ap some (none-left x r a ms l) in
      alternatives x input
      ∙ rw
          (
            no_eight (omega arith),
            no_seven (omega arith),
            no_six (omega arith),
            no_five (omega arith),
            no_four (omega arith),
            no_three (omega arith),
            no_two (omega arith),
            no_one l,
          )
          (rw taken refl)

  no_five_single : length ks ≡ 1 → run x.is_class (fixed (two_groups x >> gap) 3) input ≡ none
  no_five_single k =
      missed-none x (two_groups x >> gap) (exactly 3 h16_colon) Standard.ls32 input
        (two_groups-missed x ks behind hk k)

  pub misread :
      length ms ≡ 5
      → length ks ≡ 1
      → run x.is_class Standard.ip_v6_address input ≡ some (more (drop 4 ms) (b']' ∷ r))
  misread l k =
      let taken =
        then-some x (up_to x 2 >> gap) (four x r a) input behind (more (drop 4 ms) (b']' ∷ r))
          (up_to-all x 2 ks behind hk (omega arith)) (four-some x r a ms hm (omega arith)) in
      alternatives x input
      ∙ rw (no_eight (omega arith), no_seven (omega arith), no_six (omega arith), no_five_single k)
          (rw taken refl)
