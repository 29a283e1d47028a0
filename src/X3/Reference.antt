-- ===== src/X3/Reference.antt =====
-- The reference semantics, with the classes of the C locale, meets every law of the library.
use foxy.Base.{ℕ, suc, ◌<◌, ◌≡◌, refl, none, some, [], ◌∷◌, arith, Text, length, ◌>>=◌}
use foxy.X3.Grammar.{Grammar, ◌but_not◌, star, repeat, ascii_class}
use foxy.X3.Run.{Classes, many, rounds, run}
use foxy.X3.Progress.{run-Leaves, many_enough}
use foxy.X3.Library.{X3}

unfoldable pub ascii_classes : Classes
unfolding ascii_class
ascii_classes e k c = ascii_class k c

module _ (is : Classes) where
  pub but_not_fails :
      (p q : Grammar) (s : Text) → run is q s ≡ none → run is (p but_not q) s ≡ run is p s
  unfolding run
  but_not_fails p q s e = rw e

  pub but_not_meets :
      (p q : Grammar) (s r : Text) → run is q s ≡ some r → run is (p but_not q) s ≡ none
  unfolding run
  but_not_meets p q s r e = rw e

  pub star_stops : (p : Grammar) (s : Text) → run is p s ≡ none → run is (star p) s ≡ some s
  unfolding run many
  star_stops p [] e = refl
  star_stops p (c ∷ s) e = rw (e, many)

  pub star_goes_on :
      (p : Grammar) (s r : Text)
      → run is p s ≡ some r
      → length r < length s
      → run is (star p) s ≡ run is (star p) r
  unfolding run many
  star_goes_on p [] r e h = absurd (omega arith)
  star_goes_on p (c ∷ s) r e h =
      rw (e, many)
        (ground (arith, many_enough (run is p) (run-Leaves is p) (length s) (length r) r))

  pub repeat_stops :
      (extra : ℕ) (p : Grammar) (s : Text)
      → run is p s ≡ none
      → run is (repeat 0 (suc extra) p) s ≡ some s
  unfolding run rounds
  repeat_stops extra p s e = rw (e, rounds)

  pub repeat_goes_on :
      (extra : ℕ) (p : Grammar) (s r : Text)
      → run is p s ≡ some r
      → run is (repeat 0 (suc extra) p) s ≡ run is (repeat 0 extra p) r
  unfolding run rounds
  repeat_goes_on extra p s r e = rw (e, rounds)

  pub repeat_starts :
      (lo extra : ℕ) (p : Grammar) (s : Text)
      → run is (repeat (suc lo) extra p) s ≡ (run is p s >>= run is (repeat lo extra p))
  unfolding run rounds
  repeat_starts lo extra p s = ground arith

unfoldable pub reference : X3
unfolding run ascii_classes
reference = record {
  parse = run ascii_classes;
  is_class = ascii_classes;
  parse-lit = λ t s. refl;
  parse-no_case_lit = λ t s. refl;
  parse-char_set = λ def s. refl;
  parse-char_class = λ e k s. refl;
  parse-any_char = λ s. refl;
  parse->> = λ p q s. refl;
  parse-<|> = λ p q s. refl;
  but_not-none = but_not_fails ascii_classes;
  but_not-some = but_not_meets ascii_classes;
  star-none = star_stops ascii_classes;
  star-some = star_goes_on ascii_classes;
  parse-plus = λ p s. refl;
  parse-opt = λ p s. refl;
  repeat_done = λ p s. refl;
  repeat-none = repeat_stops ascii_classes;
  repeat-some = repeat_goes_on ascii_classes;
  repeat_must = repeat_starts ascii_classes;
  class_ascii = λ e k c h. refl;
}
