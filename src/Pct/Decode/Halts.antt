-- ===== src/Pct/Decode/Halts.antt =====
-- That the decoder's loop ends because nothing matches any more.
use foxy.Base.{
  ℕ, zero, suc, ◌+◌, ◌≤◌, ◌<◌, ◌≡◌, refl, sym, ◌∙◌, Option, none, some, [], ◌∷◌, ◌++◌, Text, length,
  Option-cases, inl, inr, arith, false,
}
use foxy.X3.Grammar.{Grammar}
use foxy.X3.Run.{run}
use foxy.X3.Progress.{nullable, run-Shrinks}
use foxy.X3.Library.{X3}
use foxy.Pct.Decode.{xpair, no_percent, decode_round, decode_loop}
use foxy.Pct.Decode.Meaning.{xpair-run, no_percent-run, round_end}

module _ (x : X3) where
  parse_shrinks :
      (g : Grammar) (s r : Text)
      → x.parse g s ≡ run x.is_class g s
      → nullable g ≡ false
      → x.parse g s ≡ some r
      → length r < length s
  parse_shrinks g s r same solid e = rw (sym same ∙ e) at (run-Shrinks x.is_class g s solid)

  -- A round leaves less than it was given.
  Shortens : Text → Option (Text × Text) → Type 0
  Shortens s none = Unit
  Shortens s (some (b, r)) = length r < length s

  round-Shortens : (s : Text) → Shortens s (decode_round x s)
  unfolding decode_round nullable Shortens
  round-Shortens s = elim (Option-cases (x.parse xpair s)) [
    | inr (q, e) ↦ rw (e, decode_round) (parse_shrinks xpair s q (xpair-run x s) refl e)
    | inl e ↦ elim (Option-cases (x.parse no_percent s)) [
      | inr (q, f) ↦
          rw (e, decode_round)
            (rw (f, decode_round) (parse_shrinks no_percent s q (no_percent-run x s) refl f))
      | inl f ↦ rw (e, decode_round) (rw (f, decode_round) tt)
    ]
  ]

  round_shrinks : (s b r : Text) → decode_round x s ≡ some (b, r) → length r < length s
  unfolding Shortens
  round_shrinks s b r e = rw e at (round-Shortens s)

  loop_enough :
      (m n : ℕ) (s sink : Text)
      → length s ≤ m
      → length s ≤ n
      → decode_loop x m s sink ≡ decode_loop x n s sink
  unfolding decode_loop
  loop_enough zero zero [] sink h k = refl
  loop_enough zero (suc n) [] sink h k = rw (round_end x, decode_loop)
  loop_enough zero n (c ∷ s) sink h k = absurd (omega arith)
  loop_enough (suc m) zero [] sink h k = rw (round_end x, decode_loop)
  loop_enough (suc m) zero (c ∷ s) sink h k = absurd (omega arith)
  loop_enough (suc m) (suc n) s sink h k = elim (Option-cases (decode_round x s)) [
    | inl e ↦ rw (e, decode_loop)
    | inr ((b, r), e) ↦
        let short : length r < length s = round_shrinks s b r e in
        rw (e, decode_loop) (loop_enough m n r (sink ++ b) (omega arith) (omega arith))
  ]

  loop_stops :
      (n : ℕ) (s sink : Text) → length s ≤ n → decode_round x (decode_loop x n s sink).1 ≡ none
  unfolding decode_loop
  loop_stops zero [] sink h = round_end x
  loop_stops zero (c ∷ s) sink h = absurd (omega arith)
  loop_stops (suc n) s sink h = elim (Option-cases (decode_round x s)) [
    | inl e ↦ rw (e, decode_loop) e
    | inr ((b, r), e) ↦
        let short : length r < length s = round_shrinks s b r e in
        rw (e, decode_loop) (loop_stops n r (sink ++ b) (omega arith))
  ]

  -- The loop of the decoder, which is given as many rounds as the input has characters, ends because
  -- neither alternative matches what is left, and more rounds change nothing.
  pub decode_loop-halts :
      (more : ℕ) (str sink : Text)
      → (decode_round x (decode_loop x (length str) str sink).1 ≡ none)
        × (decode_loop x (length str + more) str sink ≡ decode_loop x (length str) str sink)
  decode_loop-halts more str sink = (
    loop_stops (length str) str sink (omega arith),
    loop_enough (length str + more) (length str) str sink (omega arith) (omega arith),
  )
