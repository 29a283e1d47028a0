-- ===== src/Uri/Behind.antt =====
-- include/foxy/uri.hpp: what the alternatives of ip-v6-address take behind the two colons.
use foxy.Base.{
  ℕ, zero, suc, ◌≤◌, ◌≡◌, refl, none, some, List, [], ◌∷◌, ◌++◌, arith, inl, inr, Text, codes,
  length, drop, All,
}
use foxy.X3.Grammar.{Grammar, lit, ◌>>◌, exactly, strip}
use foxy.X3.Run.{rounds, run}
use foxy.X3.Ascii.{IsAscii}
use foxy.X3.Library.{X3}
use foxy.Uri.Standard
use foxy.Uri.Literals.{IsGroup}
use foxy.Uri.Groups.{
  more, between_colons, IsEnd, colon_h16, h16_colon, more-IsMark, h16-mark, h16-group, groups,
  groups-few, ls32-groups,
}
use foxy.Uri.Gaps.{gapped, strip-group, Meets}

pub gap-IsEnd : (t : Text) → All IsAscii t → IsEnd (codes "::" ++ t)
unfolding strip
gap-IsEnd t a = record {
  ascii = (omega arith, (omega arith, a));
  colons = inr (b':' ∷ t, refl, inl refl, (omega arith, a));
  mark = inl refl;
}

pub bracket-IsEnd : (r : Text) → All IsAscii r → IsEnd (b']' ∷ r)
unfolding strip
bracket-IsEnd r a = record { ascii = (omega arith, a); colons = inl refl; mark = inr refl }

pub gap-Meets :
    (ks : List Text) (t : Text) → All IsGroup ks → Meets (strip (codes "::") (gapped ks t)) t
unfolding strip
gap-Meets [] t h = inr refl
gap-Meets (k ∷ ks) t h = inl (strip-group k _ h.0)

pub gap-all :
    (ks : List Text) (t : Text) → length ks ≡ 0 → strip (codes "::") (gapped ks t) ≡ some t
unfolding strip
gap-all [] t l = refl
gap-all (k ∷ ks) t l = absurd (omega arith)

module _ (x : X3) where
  pub fixed-none :
      (g : Grammar) (n : ℕ) (s t : Text)
      → Meets (run x.is_class g s) t
      → groups x n t ≡ none
      → run x.is_class (g >> exactly n h16_colon >> Standard.ls32) s ≡ none
  unfolding run
  fixed-none g n s t (inl e) h = rw e refl
  fixed-none g n s t (inr e) h = rw e h

  pub missed-none :
      (g h k : Grammar) (s : Text)
      → run x.is_class g s ≡ none
      → run x.is_class (g >> h >> k) s ≡ none
  unfolding run
  missed-none g h k s e = rw e refl

  pub fixed-some :
      (g : Grammar) (n : ℕ) (s t r : Text)
      → run x.is_class g s ≡ some t
      → groups x n t ≡ some r
      → run x.is_class (g >> exactly n h16_colon >> Standard.ls32) s ≡ some r
  unfolding run
  fixed-some g n s t r e h = rw e h

  pub then-none :
      (g h : Grammar) (s t : Text)
      → Meets (run x.is_class g s) t
      → run x.is_class h t ≡ none
      → run x.is_class (g >> h) s ≡ none
  unfolding run
  then-none g h s t (inl e) k = rw e refl
  then-none g h s t (inr e) k = rw e k

  pub then-some :
      (g h : Grammar) (s t r : Text)
      → run x.is_class g s ≡ some t
      → run x.is_class h t ≡ some r
      → run x.is_class (g >> h) s ≡ some r
  unfolding run
  then-some g h s t r e k = rw e k

  module _ (r : Text) (a : All IsAscii r) where
    abbrev pub bracket : Text
    bracket = b']' ∷ r

    rounds-few :
        (n : ℕ) (ms : List Text)
        → All IsGroup ms
        → length ms ≤ n
        → rounds (suc n) 0 (run x.is_class colon_h16) (more ms bracket) ≡ none
    unfolding rounds run strip
    rounds-few n [] h l = refl
    rounds-few zero (m ∷ ms) h l = absurd (omega arith)
    rounds-few (suc n) (m ∷ ms) h l =
        rw (h16-group x m (more ms bracket) h.0 (more-IsMark ms bracket (inr refl)), rounds)
          (rounds-few n ms h.1 (omega arith))

    two_more :
        (c d : Text) (ms : List Text)
        → IsGroup c
        → IsGroup d
        → rounds 2 0 (run x.is_class colon_h16) (more (c ∷ d ∷ ms) bracket) ≡ some (more ms bracket)
    unfolding rounds run strip
    two_more c d ms hc hd =
        rw (h16-group x c (more (d ∷ ms) bracket) hc (inl refl), rounds)
          (rw (h16-group x d (more ms bracket) hd (more-IsMark ms bracket (inr refl)), rounds) refl)

    abbrev pub four : Grammar
    four = Standard.ls32 >> exactly 2 colon_h16

    -- The pair of groups that ls32 takes, or nothing.
    pub ls32-few :
        (ms : List Text)
        → All IsGroup ms
        → length ms ≤ 1
        → run x.is_class Standard.ls32 (between_colons ms bracket) ≡ none
    unfolding rounds
    ls32-few ms h l = groups-few x 0 ms bracket l h (bracket-IsEnd r a)

    pub four-few :
        (ms : List Text)
        → All IsGroup ms
        → length ms ≤ 3
        → run x.is_class four (between_colons ms bracket) ≡ none
    unfolding run
    four-few [] h l = rw (ls32-few [] h (omega arith)) refl
    four-few (b ∷ []) h l = rw (ls32-few (b ∷ []) h (omega arith)) refl
    four-few (b ∷ c ∷ ms) h l =
        rw (ls32-groups x b c ms bracket h.0 h.1.0 (inr refl)) (rounds-few 1 ms h.1.1 (omega arith))

    -- Four groups are taken, and more are left where they stand.
    pub four-some :
        (ms : List Text)
        → All IsGroup ms
        → 4 ≤ length ms
        → run x.is_class four (between_colons ms bracket) ≡ some (more (drop 4 ms) bracket)
    unfolding run
    four-some (b ∷ c ∷ d ∷ e ∷ ms) h l =
        rw (ls32-groups x b c (d ∷ e ∷ ms) bracket h.0 h.1.0 (inr refl))
          (two_more d e ms h.1.1.0 h.1.1.1.0)
    four-some [] h l = absurd (omega arith)
    four-some (b ∷ []) h l = absurd (omega arith)
    four-some (b ∷ c ∷ []) h l = absurd (omega arith)
    four-some (b ∷ c ∷ d ∷ []) h l = absurd (omega arith)

    -- One group and the pair, of the alternative for three groups.
    pub three-none :
        (g : Grammar) (s : Text) (ms : List Text)
        → All IsGroup ms
        → length ms ≤ 2
        → Meets (run x.is_class g s) (between_colons ms bracket)
        → run x.is_class (g >> Standard.h16 >> lit (codes ":") >> Standard.ls32) s ≡ none
    unfolding run strip
    three-none g s ms h l (inl e) = rw e refl
    three-none g s [] h l (inr e) = rw e (rw (h16-mark x bracket (inr refl)) refl)
    three-none g s (b ∷ []) h l (inr e) = rw e (rw (h16-group x b bracket h.0 (inr refl)) refl)
    three-none g s (b ∷ c ∷ []) h l (inr e) = rw e (
        rw (h16-group x b (more (c ∷ []) bracket) h.0 (inl refl))
          (ls32-few (c ∷ []) h.1 (omega arith)))
    three-none g s (b ∷ c ∷ d ∷ ms) h l (inr e) = absurd (omega arith)

    pub three-some :
        (g : Grammar) (s : Text) (ms : List Text)
        → All IsGroup ms
        → length ms ≡ 3
        → run x.is_class g s ≡ some (between_colons ms bracket)
        → run x.is_class (g >> Standard.h16 >> lit (codes ":") >> Standard.ls32) s ≡ some bracket
    unfolding run strip
    three-some g s (b ∷ c ∷ d ∷ []) h l e = rw e (
        rw (h16-group x b (more (c ∷ d ∷ []) bracket) h.0 (inl refl))
          (ls32-groups x c d [] bracket h.1.0 h.1.1.0 (inr refl)))
    three-some g s [] h l e = absurd (omega arith)
    three-some g s (b ∷ []) h l e = absurd (omega arith)
    three-some g s (b ∷ c ∷ []) h l e = absurd (omega arith)
    three-some g s (b ∷ c ∷ d ∷ f ∷ ms) h l e = absurd (omega arith)

    pub one-some :
        (ms : List Text)
        → All IsGroup ms
        → length ms ≡ 1
        → run x.is_class Standard.h16 (between_colons ms bracket) ≡ some bracket
    one-some (b ∷ []) h l = h16-group x b bracket h.0 (inr refl)
    one-some [] h l = absurd (omega arith)
    one-some (b ∷ c ∷ ms) h l = absurd (omega arith)

    pub none-left : (ms : List Text) → length ms ≡ 0 → between_colons ms bracket ≡ bracket
    none-left [] l = refl
    none-left (b ∷ ms) l = absurd (omega arith)
