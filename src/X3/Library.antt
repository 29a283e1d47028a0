-- ===== src/X3/Library.antt =====
-- What foxy relies on of the X3 library itself, as a record with the documented laws, and the
-- theorem that these laws settle every parse.
use foxy.Base.{
  ap, fun_ext, ℕ, zero, suc, ◌≤◌, ◌<◌, ◌≡◌, ◌∙◌, Bool, true, false, not, inl, inr, Option, none,
  some, [], ◌∷◌, arith, ◌>>=◌, ◌or_else◌, Text, length, Option-cases, &&_parts,
}
use foxy.X3.Grammar.{
  Class, Encoding, Grammar, lit, no_case_lit, char_set, char_class, any_char, ◌>>◌, ◌<|>◌,
  ◌but_not◌, star, plus, opt, repeat, in_set, one, strip, strip_no_case, ascii_class,
}
use foxy.X3.Run.{many, rounds, run}
use foxy.X3.Progress.{nullable, is_safe, run-Shrinks}

-- `parse g s` is what x3::parse leaves of `s`, or `none` where it returns false; then the
-- iterator has not moved.
pub record X3 : Type 0 where
  pub parse : Grammar → Text → Option Text
  pub is_class : Encoding → Class → ℕ → Bool
  pub parse-lit : (t s : Text) → parse (lit t) s ≡ strip t s
  pub parse-no_case_lit : (t s : Text) → parse (no_case_lit t) s ≡ strip_no_case t s
  pub parse-char_set : (def s : Text) → parse (char_set def) s ≡ one (in_set def) s
  pub parse-char_class :
      (e : Encoding) (k : Class) (s : Text) → parse (char_class e k) s ≡ one (is_class e k) s
  pub parse-any_char : (s : Text) → parse any_char s ≡ one (λ _. true) s
  pub parse->> : (p q : Grammar) (s : Text) → parse (p >> q) s ≡ (parse p s >>= parse q)
  pub parse-<|> : (p q : Grammar) (s : Text) → parse (p <|> q) s ≡ (parse p s or_else parse q s)
  pub but_not-none :
      (p q : Grammar) (s : Text) → parse q s ≡ none → parse (p but_not q) s ≡ parse p s
  pub but_not-some :
      (p q : Grammar) (s r : Text) → parse q s ≡ some r → parse (p but_not q) s ≡ none
  pub star-none : (p : Grammar) (s : Text) → parse p s ≡ none → parse (star p) s ≡ some s
  pub star-some :
      (p : Grammar) (s r : Text)
      → parse p s ≡ some r
      → length r < length s
      → parse (star p) s ≡ parse (star p) r
  pub parse-plus : (p : Grammar) (s : Text) → parse (plus p) s ≡ (parse p s >>= parse (star p))
  pub parse-opt : (p : Grammar) (s : Text) → parse (opt p) s ≡ (parse p s or_else some s)
  pub repeat_done : (p : Grammar) (s : Text) → parse (repeat 0 0 p) s ≡ some s
  pub repeat-none :
      (extra : ℕ) (p : Grammar) (s : Text)
      → parse p s ≡ none
      → parse (repeat 0 (suc extra) p) s ≡ some s
  pub repeat-some :
      (extra : ℕ) (p : Grammar) (s r : Text)
      → parse p s ≡ some r
      → parse (repeat 0 (suc extra) p) s ≡ parse (repeat 0 extra p) r
  pub repeat_must :
      (lo extra : ℕ) (p : Grammar) (s : Text)
      → parse (repeat (suc lo) extra p) s ≡ (parse p s >>= parse (repeat lo extra p))
  -- Over ASCII the classes of both namespaces are those of the C locale.
  pub class_ascii : (e : Encoding) (k : Class) (c : ℕ) → c < 128 → is_class e k c ≡ ascii_class k c

module _ (x : X3) where
  open x use {parse, is_class}

  star-nil :
      (p : Grammar)
      → ((s : Text) → parse p s ≡ run is_class p s)
      → nullable p ≡ false
      → parse (star p) [] ≡ some []
  star-nil p same solid = elim (Option-cases (run is_class p [])) [
    | inl e ↦ x.star-none p [] (same [] ∙ e)
    | inr (r, e) ↦
        absurd (let less : length r < 0 = rw e at (run-Shrinks is_class p [] solid) in omega arith)
  ]

  star-run :
      (p : Grammar)
      → ((s : Text) → parse p s ≡ run is_class p s)
      → nullable p ≡ false
      → (n : ℕ) (s : Text) → length s ≤ n
      → parse (star p) s ≡ some (many n (run is_class p) s)
  unfolding many
  star-run p same solid zero [] h = star-nil p same solid
  star-run p same solid zero (c ∷ s) h = absurd (omega arith)
  star-run p same solid (suc n) s h = elim (Option-cases (run is_class p s)) [
    | inl e ↦ rw (e, many) (x.star-none p s (same s ∙ e))
    | inr (r, e) ↦
        let less : length r < length s = rw e at (run-Shrinks is_class p s solid) in
        x.star-some p s r (same s ∙ e) less
        ∙ star-run p same solid n r (omega arith)
        ∙ rw (e, many) (ground arith)
  ]

  rounds-run :
      (p : Grammar)
      → ((s : Text) → parse p s ≡ run is_class p s)
      → (lo extra : ℕ) (s : Text) → parse (repeat lo extra p) s ≡ rounds lo extra (run is_class p) s
  unfolding rounds
  rounds-run p same zero zero s = x.repeat_done p s
  rounds-run p same zero (suc extra) s = elim (Option-cases (run is_class p s)) [
    | inl e ↦ rw (e, rounds) (x.repeat-none extra p s (same s ∙ e))
    | inr (r, e) ↦
        rw (e, rounds) (x.repeat-some extra p s r (same s ∙ e) ∙ rounds-run p same zero extra r)
  ]
  rounds-run p same (suc lo) extra s = elim (Option-cases (run is_class p s)) [
    | inl e ↦ rw (e, rounds) (x.repeat_must lo extra p s ∙ rw (same s ∙ e))
    | inr (r, e) ↦
        rw (e, rounds) (x.repeat_must lo extra p s ∙ rw (same s ∙ e) (rounds-run p same lo extra r))
  ]

  -- The laws determine the parse of every grammar whose loops have solid bodies.
  pub parse-run : (g : Grammar) (s : Text) → is_safe g ≡ true → parse g s ≡ run is_class g s
  unfolding run is_safe
  parse-run (lit t) s h = x.parse-lit t s
  parse-run (no_case_lit t) s h = x.parse-no_case_lit t s
  parse-run (char_set def) s h = x.parse-char_set def s
  parse-run (char_class e k) s h = x.parse-char_class e k s
  parse-run any_char s h = x.parse-any_char s
  parse-run (p >> q) s h =
      let (safe, safe') = &&_parts (is_safe p) (is_safe q) h in
      x.parse->> p q s
      ∙ rw (parse-run p s safe)
          (ap (λ f. run is_class p s >>= f) (fun_ext (λ r. parse-run q r safe')))
  parse-run (p <|> q) s h =
      let (safe, safe') = &&_parts (is_safe p) (is_safe q) h in
      x.parse-<|> p q s ∙ rw (parse-run p s safe, parse-run q s safe')
  parse-run (p but_not q) s h =
      let (safe, safe') = &&_parts (is_safe p) (is_safe q) h in
      elim (Option-cases (run is_class q s)) [
        | inl e ↦ x.but_not-none p q s (parse-run q s safe' ∙ e) ∙ parse-run p s safe ∙ rw e
        | inr (r, e) ↦ x.but_not-some p q s r (parse-run q s safe' ∙ e) ∙ rw e
      ]
  parse-run (star p) s h =
      let (solid, safe) = &&_parts (not (nullable p)) (is_safe p) h in
      star-run p (λ t. parse-run p t safe) (ground arith) (length s) s (omega arith)
  parse-run (plus p) s h =
      let (solid, safe) = &&_parts (not (nullable p)) (is_safe p) h in
      let stars = λ (r : Text).
        star-run p (λ t. parse-run p t safe) (ground arith) (length r) r (omega arith) in
      x.parse-plus p s ∙ rw (parse-run p s safe) (ap (λ f. run is_class p s >>= f) (fun_ext stars))
  parse-run (opt p) s h = rw x.parse-opt (rw (parse-run p s h))
  parse-run (repeat lo extra p) s h = rounds-run p (λ t. parse-run p t h) lo extra s
