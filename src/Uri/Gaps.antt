-- ===== src/Uri/Gaps.antt =====
-- include/foxy/uri.hpp: what the alternatives of ip-v6-address take up to the two colons.
use foxy.Base.{
  ℕ, zero, suc, ◌≤◌, ◌≡◌, ◌≢◌, refl, Option, none, some, List, [], ◌∷◌, ◌++◌, arith, ◌or_else◌, ◌⊎◌,
  inl, inr, Text, codes, length, drop, All,
}
use foxy.X3.Grammar.{Grammar, lit, ◌>>◌, opt, between, exactly, repeat, strip, is_xdigit, is_digit}
use foxy.X3.Run.{rounds, run}
use foxy.X3.Library.{X3}
use foxy.Uri.Standard
use foxy.Uri.Literals.{IsGroup, run-group}
use foxy.Uri.Groups.{
  more, between_colons, colon_h16, h16_colon, more-IsMark, h16-mark, h16-group, h16_colon-mark,
}

pub drop-all : {A : Type 0} (n : ℕ) (xs : List A) → length xs ≤ n → drop n xs ≡ []
drop-all zero [] h = refl
drop-all (suc n) [] h = refl
drop-all zero (x ∷ xs) h = absurd (omega arith)
drop-all (suc n) (x ∷ xs) h = drop-all n xs (omega arith)

drop-All : {A : Type 0} (P : A → Type 0) (n : ℕ) (xs : List A) → All P xs → All P (drop n xs)
drop-All P zero xs h = h
drop-All P (suc n) [] h = h
drop-All P (suc n) (x ∷ xs) h = drop-All P n xs h.1

-- The groups before the two colons.
abbrev pub gapped : List Text → Text → Text
gapped ks t = between_colons ks (codes "::" ++ t)

pub strip-group : (g s : Text) → IsGroup g → strip (codes "::") (g ++ s) ≡ none
unfolding strip is_xdigit is_digit
strip-group [] s h = absurd (omega (arith, h.some_digit))
strip-group (c ∷ []) [] h = ground (arith, h.digits.0.1)
strip-group (c ∷ []) (d ∷ s) h = ground (arith, h.digits.0.1)
strip-group (c ∷ d ∷ g) s h = ground (arith, h.digits.0.1)

strip-more :
    (k : Text) (ks : List Text) (s : Text) → IsGroup k → strip (codes "::") (more (k ∷ ks) s) ≡ none
unfolding strip is_xdigit is_digit
strip-more [] ks s h = absurd (omega (arith, h.some_digit))
strip-more (c ∷ k) ks s h = ground (arith, h.digits.0.1)

strip-gapped :
    (ks : List Text) (t : Text)
    → All IsGroup ks
    → (strip (codes "::") (more ks (codes "::" ++ t)) ≡ none)
      ⊎ (strip (codes "::") (more ks (codes "::" ++ t)) ≡ some t)
unfolding strip
strip-gapped [] t h = inr refl
strip-gapped (k ∷ ks) t h = inl (strip-more k ks (codes "::" ++ t) h.0)

-- The gap is met behind some of the groups, or missed.
abbrev pub Meets : Option Text → Text → Type 0
Meets o t = (o ≡ none) ⊎ (o ≡ some t)

module _ (x : X3) where
  rounds-more :
      (n : ℕ) (ks : List Text) (t : Text)
      → All IsGroup ks
      → rounds 0 n (run x.is_class colon_h16) (more ks (codes "::" ++ t))
        ≡ some (more (drop n ks) (codes "::" ++ t))
  unfolding rounds run strip
  rounds-more zero ks t h = refl
  rounds-more (suc n) [] t h = rw (h16-mark x (b':' ∷ t) (inl refl), rounds) refl
  rounds-more (suc n) (k ∷ ks) t h =
      rw (h16-group x k (more ks (codes "::" ++ t)) h.0 (more-IsMark ks _ (inl refl)), rounds)
        (rounds-more n ks t h.1)

  abbrev pub up_to : ℕ → Grammar
  up_to n = opt (Standard.h16 >> repeat 0 n colon_h16)

  run-up_to :
      (n : ℕ) (k : Text) (ks : List Text) (t : Text)
      → All IsGroup (k ∷ ks)
      → run x.is_class (up_to n) (gapped (k ∷ ks) t) ≡ some (more (drop n ks) (codes "::" ++ t))
  unfolding run
  run-up_to n k ks t h =
      rw (h16-group x k (more ks (codes "::" ++ t)) h.0 (more-IsMark ks _ (inl refl)))
        (rw (rounds-more n ks t h.1) refl)

  run-no_group :
      (g : Grammar) (t : Text)
      → run x.is_class (opt (Standard.h16 >> g)) (codes "::" ++ t) ≡ some (codes "::" ++ t)
  unfolding run
  run-no_group g t = rw (h16-mark x (codes "::" ++ t) (inl refl)) refl

  pub up_to-Meets :
      (n : ℕ) (ks : List Text) (t : Text)
      → All IsGroup ks
      → Meets (run x.is_class (up_to n >> lit (codes "::")) (gapped ks t)) t
  unfolding run strip
  up_to-Meets n [] t h = inr (rw (run-no_group (repeat 0 n colon_h16) t) refl)
  up_to-Meets n (k ∷ ks) t h =
      rw (run-up_to n k ks t h) (strip-gapped (drop n ks) t (drop-All IsGroup n ks h.1))

  pub up_to-all :
      (n : ℕ) (ks : List Text) (t : Text)
      → All IsGroup ks
      → length ks ≤ suc n
      → run x.is_class (up_to n >> lit (codes "::")) (gapped ks t) ≡ some t
  unfolding run strip
  up_to-all n [] t h l = rw (run-no_group (repeat 0 n colon_h16) t) refl
  up_to-all n (k ∷ ks) t h l = rw (run-up_to n k ks t h) (rw (drop-all n ks (omega arith)) refl)

  abbrev pub one_group : Grammar
  one_group = opt Standard.h16

  pub one_group-Meets :
      (ks : List Text) (t : Text)
      → All IsGroup ks
      → Meets (run x.is_class (one_group >> lit (codes "::")) (gapped ks t)) t
  unfolding run strip
  one_group-Meets [] t h = inr (rw (h16-mark x (codes "::" ++ t) (inl refl)) refl)
  one_group-Meets (k ∷ ks) t h =
      rw (h16-group x k (more ks (codes "::" ++ t)) h.0 (more-IsMark ks _ (inl refl)))
        (strip-gapped ks t h.1)

  pub one_group-all :
      (ks : List Text) (t : Text)
      → All IsGroup ks
      → length ks ≤ 1
      → run x.is_class (one_group >> lit (codes "::")) (gapped ks t) ≡ some t
  unfolding run strip
  one_group-all [] t h l = rw (h16-mark x (codes "::" ++ t) (inl refl)) refl
  one_group-all (k ∷ []) t h l = rw (h16-group x k (codes "::" ++ t) h.0 (inl refl)) refl
  one_group-all (k ∷ j ∷ ks) t h l = absurd (omega arith)

  abbrev pub two_groups : Grammar
  two_groups = opt (between 0 1 h16_colon >> Standard.h16)

  -- A single group is not given back, so that the gap behind it is missed.
  two_groups-single :
      (k t : Text)
      → IsGroup k
      → run x.is_class (two_groups >> lit (codes "::")) (gapped (k ∷ []) t) ≡ none
  unfolding run strip rounds
  two_groups-single k t h =
      rw (run-group x k (b':' ∷ t) h, rounds)
        (rw (h16-mark x (b':' ∷ t) (inl refl)) (strip-group k (codes "::" ++ t) h))

  two_groups-taken :
      (k j : Text) (ks : List Text) (t : Text)
      → IsGroup k
      → IsGroup j
      → run x.is_class two_groups (gapped (k ∷ j ∷ ks) t) ≡ some (more ks (codes "::" ++ t))
  unfolding run rounds
  two_groups-taken k j ks t h i =
      rw (run-group x k (j ++ more ks (codes "::" ++ t)) h, rounds)
        (rw (h16-group x j (more ks (codes "::" ++ t)) i (more-IsMark ks _ (inl refl))) refl)

  pub two_groups-Meets :
      (ks : List Text) (t : Text)
      → All IsGroup ks
      → Meets (run x.is_class (two_groups >> lit (codes "::")) (gapped ks t)) t
  unfolding run strip rounds
  two_groups-Meets [] t h = inr (
      rw (h16_colon-mark x (codes "::" ++ t) (inl refl), rounds)
        (rw (h16-mark x (codes "::" ++ t) (inl refl)) refl))
  two_groups-Meets (k ∷ []) t h = inl (two_groups-single k t h.0)
  two_groups-Meets (k ∷ j ∷ ks) t h =
      rw (two_groups-taken k j ks t h.0 h.1.0) (strip-gapped ks t h.1.1)

  pub two_groups-missed :
      (ks : List Text) (t : Text)
      → All IsGroup ks
      → length ks ≡ 1
      → run x.is_class (two_groups >> lit (codes "::")) (gapped ks t) ≡ none
  two_groups-missed (k ∷ []) t h l = two_groups-single k t h.0
  two_groups-missed [] t h l = absurd (omega arith)
  two_groups-missed (k ∷ j ∷ ks) t h l = absurd (omega arith)

  pub two_groups-all :
      (ks : List Text) (t : Text)
      → All IsGroup ks
      → length ks ≤ 2
      → length ks ≢ 1
      → run x.is_class (two_groups >> lit (codes "::")) (gapped ks t) ≡ some t
  unfolding run strip rounds
  two_groups-all [] t h l n =
      rw (h16_colon-mark x (codes "::" ++ t) (inl refl), rounds)
        (rw (h16-mark x (codes "::" ++ t) (inl refl)) refl)
  two_groups-all (k ∷ []) t h l n = absurd (n refl)
  two_groups-all (k ∷ j ∷ []) t h l n = rw (two_groups-taken k j [] t h.0 h.1.0) refl
  two_groups-all (k ∷ j ∷ i ∷ ks) t h l n = absurd (omega arith)

  -- The nine alternatives, tried in order.
  pub alternatives :
      (s : Text)
      → run x.is_class Standard.ip_v6_address s ≡ (
          run x.is_class (exactly 6 h16_colon >> Standard.ls32) s
          or_else run x.is_class (lit (codes "::") >> exactly 5 h16_colon >> Standard.ls32) s
          or_else run x.is_class
              (one_group >> lit (codes "::") >> exactly 4 h16_colon >> Standard.ls32)
              s
          or_else run x.is_class
              (two_groups >> lit (codes "::") >> exactly 3 h16_colon >> Standard.ls32)
              s
          or_else run x.is_class
              (up_to 2 >> lit (codes "::") >> (Standard.ls32 >> exactly 2 colon_h16))
              s
          or_else run x.is_class
              (up_to 3 >> lit (codes "::") >> Standard.h16 >> lit (codes ":") >> Standard.ls32)
              s
          or_else run x.is_class (up_to 4 >> lit (codes "::") >> Standard.ls32) s
          or_else run x.is_class (up_to 5 >> lit (codes "::") >> Standard.h16) s
          or_else run x.is_class (up_to 6 >> lit (codes "::")) s)
  unfolding Standard.ip_v6_address run
  alternatives s = refl
