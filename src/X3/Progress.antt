-- ===== src/X3/Progress.antt =====
-- How much of the input a match leaves, and why the loops of the reference semantics end.
use foxy.Base.{
  ℕ, zero, suc, ◌≤◌, ◌<◌, ◌≡◌, refl, sym, Bool, true, false, ◌&&◌, ◌||◌, not, inl, inr, Option,
  none, some, [], ◌∷◌, arith, Text, length, Option-cases,
}
use foxy.X3.Grammar.{
  Grammar, lit, no_case_lit, char_set, char_class, any_char, ◌>>◌, ◌<|>◌, ◌but_not◌, star, plus,
  opt, repeat, in_set, one, strip, strip_no_case,
}
use foxy.X3.Run.{Classes, many, rounds, run}

-- Whether a grammar may match nothing at all, read off its shape.
unfoldable pub nullable : Grammar → Bool
nullable (lit []) = true
nullable (lit (c ∷ t)) = false
nullable (no_case_lit []) = true
nullable (no_case_lit (c ∷ t)) = false
nullable (char_set def) = false
nullable (char_class e k) = false
nullable any_char = false
nullable (p >> q) = nullable p && nullable q
nullable (p <|> q) = nullable p || nullable q
nullable (p but_not q) = nullable p
nullable (star p) = true
nullable (plus p) = nullable p
nullable (opt p) = true
nullable (repeat zero extra p) = true
nullable (repeat (suc lo) extra p) = nullable p

-- No loop runs over a body that may match nothing.
unfoldable pub is_safe : Grammar → Bool
unfolding nullable
is_safe (lit t) = true
is_safe (no_case_lit t) = true
is_safe (char_set def) = true
is_safe (char_class e k) = true
is_safe any_char = true
is_safe (p >> q) = is_safe p && is_safe q
is_safe (p <|> q) = is_safe p && is_safe q
is_safe (p but_not q) = is_safe p && is_safe q
is_safe (star p) = not (nullable p) && is_safe p
is_safe (plus p) = not (nullable p) && is_safe p
is_safe (opt p) = is_safe p
is_safe (repeat lo extra p) = is_safe p

-- A failure, or a rest no longer than `n`.
abbrev pub Leaves : ℕ → Option Text → Type 0
Leaves n none = Unit
Leaves n (some r) = length r ≤ n

Leaves-mono : {m n : ℕ} (o : Option Text) → m ≤ n → Leaves m o → Leaves n o
Leaves-mono none h l = tt
Leaves-mono (some r) h l = omega arith

one-Leaves : (test : ℕ → Bool) (s : Text) (n : ℕ) → length s ≤ suc n → Leaves n (one test s)
unfolding one
one-Leaves test [] n h = tt
one-Leaves test (c ∷ s) n h = ground arith

strip-Leaves : (t s : Text) (n : ℕ) → length s ≤ n → Leaves n (strip t s)
unfolding strip
strip-Leaves [] s n h = h
strip-Leaves (c ∷ t) [] n h = tt
strip-Leaves (c ∷ t) (d ∷ s) n h = ground (arith, strip-Leaves t s n)

strip_no_case-Leaves : (t s : Text) (n : ℕ) → length s ≤ n → Leaves n (strip_no_case t s)
unfolding strip_no_case
strip_no_case-Leaves [] s n h = h
strip_no_case-Leaves (c ∷ t) [] n h = tt
strip_no_case-Leaves (c ∷ t) (d ∷ s) n h = ground (arith, strip_no_case-Leaves t s n)

module _ (f : Text → Option Text) (f-Leaves : (s : Text) → Leaves (length s) (f s)) where
  pub many-le : (n : ℕ) (s : Text) → length (many n f s) ≤ length s
  unfolding many
  many-le zero s = omega arith
  many-le (suc n) s = elim (Option-cases (f s)) [
    | inl e ↦ rw (e, many) (omega arith)
    | inr (r, e) ↦
        let small : length r ≤ length s = rw e at (f-Leaves s) in
        rw (e, many) (ground (arith, many-le n r))
  ]

  pub rounds-Leaves : (lo extra : ℕ) (s : Text) → Leaves (length s) (rounds lo extra f s)
  unfolding rounds
  rounds-Leaves zero zero s = omega arith
  rounds-Leaves zero (suc extra) s = elim (Option-cases (f s)) [
    | inl e ↦ rw (e, rounds) (omega arith)
    | inr (r, e) ↦
        rw (e, rounds)
          (Leaves-mono (rounds zero extra f r) (rw e at (f-Leaves s)) (rounds-Leaves zero extra r))
  ]
  rounds-Leaves (suc lo) extra s = elim (Option-cases (f s)) [
    | inl e ↦ rw (e, rounds) tt
    | inr (r, e) ↦
        rw (e, rounds)
          (Leaves-mono (rounds lo extra f r) (rw e at (f-Leaves s)) (rounds-Leaves lo extra r))
  ]

  many_nil : (n : ℕ) → many n f [] ≡ []
  unfolding many
  many_nil zero = refl
  many_nil (suc n) = elim (Option-cases (f [])) [
    | inl e ↦ rw (e, many) refl
    | inr (c ∷ r, e) ↦
        absurd (let small : suc (length r) ≤ 0 = rw e at (f-Leaves []) in omega arith)
    | inr ([], e) ↦ rw (e, many) refl
  ]

  -- Any count of rounds that the input cannot use up gives the same rest.
  pub many_enough : (m n : ℕ) (s : Text) → length s ≤ m → length s ≤ n → many m f s ≡ many n f s
  unfolding many
  many_enough zero zero s h k = refl
  many_enough zero (suc n) [] h k = sym (many_nil (suc n))
  many_enough zero (suc n) (c ∷ s) h k = absurd (omega arith)
  many_enough (suc m) zero [] h k = many_nil (suc m)
  many_enough (suc m) zero (c ∷ s) h k = absurd (omega arith)
  many_enough (suc m) (suc n) s h k = elim (Option-cases (f s)) [
    | inl e ↦ rw (e, many) refl
    | inr (r, e) ↦ rw (e, many) (ground (arith, many_enough m n r))
  ]

module _ (is : Classes) where
  pub run-Leaves : (g : Grammar) (s : Text) → Leaves (length s) (run is g s)
  unfolding run
  run-Leaves (lit t) s = strip-Leaves t s (length s) (omega arith)
  run-Leaves (no_case_lit t) s = strip_no_case-Leaves t s (length s) (omega arith)
  run-Leaves (char_set def) s = one-Leaves (in_set def) s (length s) (omega arith)
  run-Leaves (char_class e k) s = one-Leaves (is e k) s (length s) (omega arith)
  run-Leaves any_char s = one-Leaves (λ _. true) s (length s) (omega arith)
  run-Leaves (p >> q) s = elim (Option-cases (run is p s)) [
    | inl e ↦ rw e tt
    | inr (r, e) ↦ rw e (Leaves-mono (run is q r) (rw e at (run-Leaves p s)) (run-Leaves q r))
  ]
  run-Leaves (p <|> q) s = elim (Option-cases (run is p s)) [
    | inl e ↦ rw e (run-Leaves q s)
    | inr (r, e) ↦ rw e (rw e at (run-Leaves p s))
  ]
  run-Leaves (p but_not q) s = ground (arith, run-Leaves p s)
  run-Leaves (star p) s = many-le (run is p) (run-Leaves p) (length s) s
  run-Leaves (plus p) s = elim (Option-cases (run is p s)) [
    | inl e ↦ rw e tt
    | inr (r, e) ↦
        let small : length r ≤ length s = rw e at (run-Leaves p s) in
        rw e (omega (arith, many-le (run is p) (run-Leaves p) (length r) r))
  ]
  run-Leaves (opt p) s = elim (Option-cases (run is p s)) [
    | inl e ↦ rw e (omega arith)
    | inr (r, e) ↦ rw e (rw e at (run-Leaves p s))
  ]
  run-Leaves (repeat lo extra p) s = rounds-Leaves (run is p) (run-Leaves p) lo extra s

-- A failure, or a rest shorter than `n`.
abbrev pub Shrinks : ℕ → Option Text → Type 0
Shrinks n none = Unit
Shrinks n (some r) = length r < n

one-Shrinks : (test : ℕ → Bool) (s : Text) → Shrinks (length s) (one test s)
unfolding one
one-Shrinks test [] = tt
one-Shrinks test (c ∷ s) = ground arith

strip-Shrinks : (c : ℕ) (t s : Text) → Shrinks (length s) (strip (c ∷ t) s)
unfolding strip
strip-Shrinks c t [] = tt
strip-Shrinks c t (d ∷ s) = ground (arith, strip-Leaves t s (length s))

strip_no_case-Shrinks : (c : ℕ) (t s : Text) → Shrinks (length s) (strip_no_case (c ∷ t) s)
unfolding strip_no_case
strip_no_case-Shrinks c t [] = tt
strip_no_case-Shrinks c t (d ∷ s) = ground (arith, strip_no_case-Leaves t s (length s))

module _ (is : Classes) where
  pub run-Shrinks : (g : Grammar) (s : Text) → nullable g ≡ false → Shrinks (length s) (run is g s)
  unfolding run nullable
  run-Shrinks (lit []) s h = cc
  run-Shrinks (lit (c ∷ t)) s h = strip-Shrinks c t s
  run-Shrinks (no_case_lit []) s h = cc
  run-Shrinks (no_case_lit (c ∷ t)) s h = strip_no_case-Shrinks c t s
  run-Shrinks (char_set def) s h = one-Shrinks (in_set def) s
  run-Shrinks (char_class e k) s h = one-Shrinks (is e k) s
  run-Shrinks any_char s h = one-Shrinks (λ _. true) s
  run-Shrinks (p >> q) s h = elim (Option-cases (run is p s)) [
    | inl e ↦ rw e tt
    | inr (r, e) ↦
        rw e (
          ground (arith, run-Leaves is p s, run-Leaves is q r, run-Shrinks p s, run-Shrinks q r, e))
  ]
  run-Shrinks (p <|> q) s h = ground (arith, run-Shrinks p s, run-Shrinks q s)
  run-Shrinks (p but_not q) s h = ground (arith, run-Shrinks p s)
  run-Shrinks (star p) s h = cc
  run-Shrinks (plus p) s h = elim (Option-cases (run is p s)) [
    | inl e ↦ rw e tt
    | inr (r, e) ↦
        let small : length r < length s = rw e at (run-Shrinks p s h) in
        rw e (omega (arith, many-le (run is p) (run-Leaves is p) (length r) r))
  ]
  run-Shrinks (opt p) s h = cc
  run-Shrinks (repeat zero extra p) s h = cc
  run-Shrinks (repeat (suc lo) extra p) s h = elim (Option-cases (run is p s)) [
    | inl e ↦ rw (e, rounds) tt
    | inr (r, e) ↦
        rw (e, rounds)
          (ground
            (arith, run-Shrinks p s, e, rounds-Leaves (run is p) (run-Leaves is p) lo extra r))
  ]
