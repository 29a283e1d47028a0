-- ===== src/X3/Consumed.antt =====
-- A match takes a piece off the front of the input: what is left is a suffix.
use foxy.Base.{
  ap, ℕ, zero, suc, ◌-◌, ◌≡◌, refl, sym, ◌∙◌, Bool, true, Option, none, some, [], ◌∷◌, ◌++◌,
  append_assoc, arith, ltb, Text, length, length-append, take, Option-cases, inl, inr, Bool-cases,
  ◌==◌,
}
use foxy.X3.Grammar.{
  Grammar, lit, no_case_lit, char_set, char_class, any_char, ◌>>◌, ◌<|>◌, ◌but_not◌, star, plus,
  opt, repeat, in_set, one, strip, strip_no_case, to_lower,
}
use foxy.X3.Run.{Classes, many, rounds, run}

-- A failure, or a rest with what was taken off in front of it.
abbrev pub Suffixes : Text → Option Text → Type 0
Suffixes s none = Unit
Suffixes s (some r) = (p : Text) × (s ≡ p ++ r)

Suffixes-trans :
    (s t : Text) (o : Option Text) → (p : Text) × (s ≡ p ++ t) → Suffixes t o → Suffixes s o
Suffixes-trans s t none h k = tt
Suffixes-trans s t (some r) (p, e) (q, f) = (p ++ q, e ∙ ap (◌++◌ p) f ∙ sym (append_assoc p q r))

one-Suffixes : (test : ℕ → Bool) (s : Text) → Suffixes s (one test s)
unfolding one
one-Suffixes test [] = tt
one-Suffixes test (c ∷ s) = elim (Bool-cases (test c)) [
  | inl e ↦ rw e (c ∷ [], refl)
  | inr e ↦ rw e tt
]

pub strip-some : (t s r : Text) → strip t s ≡ some r → s ≡ t ++ r
unfolding strip
strip-some [] s r e = ground arith
strip-some (c ∷ t) [] r e = cc
strip-some (c ∷ t) (d ∷ s) r e = ground (arith, strip-some t s r)

strip-Suffixes : (t s : Text) → Suffixes s (strip t s)
strip-Suffixes t s = elim (Option-cases (strip t s)) [
  | inl e ↦ rw e tt
  | inr (r, e) ↦ rw e (t, strip-some t s r e)
]

strip_no_case-Suffixes : (t s : Text) → Suffixes s (strip_no_case t s)
unfolding strip_no_case
strip_no_case-Suffixes [] s = ([], refl)
strip_no_case-Suffixes (c ∷ t) [] = tt
strip_no_case-Suffixes (c ∷ t) (d ∷ s) = elim (Bool-cases (to_lower d == to_lower c)) [
  | inl e ↦
      rw e
        (Suffixes-trans (d ∷ s) s (strip_no_case t s) (d ∷ [], refl) (strip_no_case-Suffixes t s))
  | inr e ↦ rw e tt
]

module _ (f : Text → Option Text) (f-Suffixes : (s : Text) → Suffixes s (f s)) where
  many-Suffixes : (n : ℕ) (s : Text) → Suffixes s (some (many n f s))
  unfolding many
  many-Suffixes zero s = ([], refl)
  many-Suffixes (suc n) s = elim (Option-cases (f s)) [
    | inl e ↦ rw (e, many) ([], refl)
    | inr (r, e) ↦ elim (Bool-cases (ltb (length r) (length s))) [
      | inl less ↦
          rw (e, many, less)
            (Suffixes-trans s r (some (many n f r)) (rw e at (f-Suffixes s)) (many-Suffixes n r))
      | inr stuck ↦ rw (e, many, stuck) (rw e at (f-Suffixes s))
    ]
  ]

  rounds-Suffixes : (lo extra : ℕ) (s : Text) → Suffixes s (rounds lo extra f s)
  unfolding rounds
  rounds-Suffixes zero zero s = ([], refl)
  rounds-Suffixes zero (suc extra) s = elim (Option-cases (f s)) [
    | inl e ↦ rw (e, rounds) ([], refl)
    | inr (r, e) ↦
        rw (e, rounds)
          (Suffixes-trans s r (rounds zero extra f r) (rw e at (f-Suffixes s))
            (rounds-Suffixes zero extra r))
  ]
  rounds-Suffixes (suc lo) extra s = elim (Option-cases (f s)) [
    | inl e ↦ rw (e, rounds) tt
    | inr (r, e) ↦
        rw (e, rounds)
          (Suffixes-trans s r (rounds lo extra f r) (rw e at (f-Suffixes s))
            (rounds-Suffixes lo extra r))
  ]

module _ (is : Classes) where
  pub run-Suffixes : (g : Grammar) (s : Text) → Suffixes s (run is g s)
  unfolding run
  run-Suffixes (lit t) s = strip-Suffixes t s
  run-Suffixes (no_case_lit t) s = strip_no_case-Suffixes t s
  run-Suffixes (char_set def) s = one-Suffixes (in_set def) s
  run-Suffixes (char_class e k) s = one-Suffixes (is e k) s
  run-Suffixes any_char s = one-Suffixes (λ _. true) s
  run-Suffixes (p >> q) s = elim (Option-cases (run is p s)) [
    | inl e ↦ rw e tt
    | inr (r, e) ↦
        rw e (Suffixes-trans s r (run is q r) (rw e at (run-Suffixes p s)) (run-Suffixes q r))
  ]
  run-Suffixes (p <|> q) s = elim (Option-cases (run is p s)) [
    | inl e ↦ rw e (run-Suffixes q s)
    | inr (r, e) ↦ rw e (rw e at (run-Suffixes p s))
  ]
  run-Suffixes (p but_not q) s = elim (Option-cases (run is q s)) [
    | inl e ↦ rw e (run-Suffixes p s)
    | inr (r, e) ↦ rw e tt
  ]
  run-Suffixes (star p) s = many-Suffixes (run is p) (run-Suffixes p) (length s) s
  run-Suffixes (plus p) s = elim (Option-cases (run is p s)) [
    | inl e ↦ rw e tt
    | inr (r, e) ↦ rw e (
        Suffixes-trans s r (some (many (length r) (run is p) r)) (rw e at (run-Suffixes p s))
          (many-Suffixes (run is p) (run-Suffixes p) (length r) r))
  ]
  run-Suffixes (opt p) s = elim (Option-cases (run is p s)) [
    | inl e ↦ rw e ([], refl)
    | inr (r, e) ↦ rw e (rw e at (run-Suffixes p s))
  ]
  run-Suffixes (repeat lo extra p) s = rounds-Suffixes (run is p) (run-Suffixes p) lo extra s

  pub run-some : (g : Grammar) (s r : Text) → run is g s ≡ some r → (p : Text) × (s ≡ p ++ r)
  run-some g s r e = rw e at (run-Suffixes g s)

-- The part between two positions of one input.
pub take-append : (p r : Text) → take (length (p ++ r) - length r) (p ++ r) ≡ p
take-append [] r = let e : length r - length r ≡ 0 = omega arith in rw e
take-append (c ∷ p) r =
    let e : suc (length (p ++ r)) - length r ≡ suc (length (p ++ r) - length r) =
      omega (arith, length-append p r) in
    rw e (ap (◌∷◌ c) (take-append p r))
