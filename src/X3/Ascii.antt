-- ===== src/X3/Ascii.antt =====
-- On ASCII texts the two namespaces of X3 match the same.
use foxy.Base.{
  ap, ℕ, zero, suc, ◌<◌, ◌≡◌, refl, sym, ◌∙◌, Bool, true, Option, none, some, [], ◌∷◌, arith, Text,
  length, Option-cases, inl, inr, All, All-rest,
}
use foxy.X3.Grammar.{
  Encoding, standard, Class, Grammar, lit, no_case_lit, char_set, char_class, any_char, ◌>>◌, ◌<|>◌,
  ◌but_not◌, star, plus, opt, repeat, in_set, one, strip, ascii_class,
}
use foxy.X3.Run.{Classes, many, rounds, run}
use foxy.X3.Consumed.{run-some}
use foxy.X3.Progress.{is_safe}
use foxy.X3.Library.{X3, parse-run}

abbrev pub IsAscii : ℕ → Type 0
IsAscii c = c < 128

-- A grammar with the encodings forgotten, and a literal of one character written as a set.
unfoldable pub plainly : Grammar → Grammar
plainly (lit []) = lit []
plainly (lit (c ∷ [])) = char_set (c ∷ [])
plainly (lit (c ∷ d ∷ t)) = lit (c ∷ d ∷ t)
plainly (no_case_lit t) = no_case_lit t
plainly (char_set def) = char_set def
plainly (char_class e k) = char_class standard k
plainly any_char = any_char
plainly (p >> q) = plainly p >> plainly q
plainly (p <|> q) = plainly p <|> plainly q
plainly (p but_not q) = plainly p but_not plainly q
plainly (star p) = star (plainly p)
plainly (plus p) = plus (plainly p)
plainly (opt p) = opt (plainly p)
plainly (repeat lo extra p) = repeat lo extra (plainly p)

one-strip : (c : ℕ) (s : Text) → strip (c ∷ []) s ≡ one (in_set (c ∷ [])) s
unfolding strip one in_set
one-strip c [] = refl
one-strip c (d ∷ s) = refl

one-agree :
    (test test' : ℕ → Bool) (s : Text)
    → ((c : ℕ) → IsAscii c → test c ≡ test' c)
    → All IsAscii s
    → one test s ≡ one test' s
unfolding one
one-agree test test' [] e h = refl
one-agree test test' (c ∷ s) e h = rw (e c h.0)

-- Two matchers that agree on ASCII, and leave ASCII of ASCII.
module _ (f g : Text → Option Text) (agree : (s : Text) → All IsAscii s → f s ≡ g s)
    (keep : (s r : Text) → All IsAscii s → f s ≡ some r → All IsAscii r) where
  many-agree : (n : ℕ) (s : Text) → All IsAscii s → many n f s ≡ many n g s
  unfolding many
  many-agree zero s h = refl
  many-agree (suc n) s h = elim (Option-cases (f s)) [
    | inl e ↦ let e' : g s ≡ none = sym (agree s h) ∙ e in rw (e, many) (rw (e', many))
    | inr (r, e) ↦
        let e' : g s ≡ some r = sym (agree s h) ∙ e in
        rw (e, many) (rw (e', many) (ground (arith, many-agree n r (keep s r h e))))
  ]

  rounds-agree :
      (lo extra : ℕ) (s : Text) → All IsAscii s → rounds lo extra f s ≡ rounds lo extra g s
  unfolding rounds
  rounds-agree zero zero s h = refl
  rounds-agree zero (suc extra) s h = elim (Option-cases (f s)) [
    | inl e ↦ let e' : g s ≡ none = sym (agree s h) ∙ e in rw (e, rounds) (rw (e', rounds))
    | inr (r, e) ↦
        let e' : g s ≡ some r = sym (agree s h) ∙ e in
        rw (e, rounds) (rw (e', rounds) (rounds-agree zero extra r (keep s r h e)))
  ]
  rounds-agree (suc lo) extra s h = elim (Option-cases (f s)) [
    | inl e ↦ let e' : g s ≡ none = sym (agree s h) ∙ e in rw (e, rounds) (rw (e', rounds))
    | inr (r, e) ↦
        let e' : g s ≡ some r = sym (agree s h) ∙ e in
        rw (e, rounds) (rw (e', rounds) (rounds-agree lo extra r (keep s r h e)))
  ]

module _ (is : Classes)
    (is_ascii : (e : Encoding) (k : Class) (c : ℕ) → IsAscii c → is e k c ≡ ascii_class k c) where
  run-IsAscii : (g : Grammar) (s r : Text) → All IsAscii s → run is g s ≡ some r → All IsAscii r
  run-IsAscii g s r h e =
      let (p, split) = run-some is g s r e in All-rest IsAscii p r (rw split at h)

  run-plainly : (g : Grammar) (s : Text) → All IsAscii s → run is g s ≡ run is (plainly g) s
  unfolding run plainly
  run-plainly (lit []) s h = refl
  run-plainly (lit (c ∷ [])) s h = one-strip c s
  run-plainly (lit (c ∷ d ∷ t)) s h = refl
  run-plainly (no_case_lit t) s h = refl
  run-plainly (char_set def) s h = refl
  run-plainly (char_class e k) s h =
      one-agree (is e k) (is standard k) s (λ c a. is_ascii e k c a ∙ sym (is_ascii standard k c a))
        h
  run-plainly any_char s h = refl
  run-plainly (p >> q) s h = elim (Option-cases (run is p s)) [
    | inl e ↦ let e' : run is (plainly p) s ≡ none = sym (run-plainly p s h) ∙ e in rw e (rw e')
    | inr (r, e) ↦
        let e' : run is (plainly p) s ≡ some r = sym (run-plainly p s h) ∙ e in
        rw e (rw e' (run-plainly q r (run-IsAscii p s r h e)))
  ]
  run-plainly (p <|> q) s h = rw (run-plainly p s h, run-plainly q s h)
  run-plainly (p but_not q) s h = ground (arith, run-plainly p s h, run-plainly q s h)
  run-plainly (star p) s h =
      ap some
        (many-agree (run is p) (run is (plainly p)) (run-plainly p) (run-IsAscii p) (length s) s h)
  run-plainly (plus p) s h = elim (Option-cases (run is p s)) [
    | inl e ↦ let e' : run is (plainly p) s ≡ none = sym (run-plainly p s h) ∙ e in rw e (rw e')
    | inr (r, e) ↦
        let e' : run is (plainly p) s ≡ some r = sym (run-plainly p s h) ∙ e in
        rw e (
          rw e' (
            ap some (
              many-agree (run is p) (run is (plainly p)) (run-plainly p) (run-IsAscii p) (length r)
                r (run-IsAscii p s r h e))))
  ]
  run-plainly (opt p) s h = rw (run-plainly p s h)
  run-plainly (repeat lo extra p) s h =
      rounds-agree (run is p) (run is (plainly p)) (run-plainly p) (run-IsAscii p) lo extra s h

-- Grammars that differ in the encoding only match alike on an ASCII text.
pub parse-agree :
    (x : X3) (g h : Grammar) (s : Text)
    → is_safe g ≡ true
    → is_safe h ≡ true
    → plainly g ≡ plainly h
    → All IsAscii s
    → x.parse g s ≡ x.parse h s
parse-agree x g h s sg sh e a =
    parse-run x g s sg
    ∙ run-plainly x.is_class x.class_ascii g s a
    ∙ ap (λ k. run x.is_class k s) e
    ∙ sym (run-plainly x.is_class x.class_ascii h s a)
    ∙ sym (parse-run x h s sh)
