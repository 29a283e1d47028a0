-- ===== src/ParseUri/Colon.antt =====
-- The rule scheme in front of a colon, where it is looked for in a host.
use foxy.Base.{
  ap, ℕ, zero, suc, ◌<◌, ◌≡◌, ◌≢◌, ◌∙◌, true, Option, none, some, List, [], ◌∷◌, ◌++◌, Text, codes,
  All, arith, Bool-cases, inl, inr, ◌⊎◌, if◌then◌else◌, length, length-append, ltb,
}
use foxy.X3.Grammar.{
  Grammar, alpha, digit, standard, char_class, char_set, ◌<|>◌, lit, strip, one, ascii_class,
  is_alpha, is_digit, is_xdigit, in_set,
}
use foxy.X3.Run.{many, run}
use foxy.X3.Library.{X3, parse-run}
use foxy.X3.Ascii.{IsAscii}
use foxy.Pct.Decode.Meaning.{Item, plain, pair, spell}
use foxy.Uri.Raw.{raw, view, parse_raw}
use foxy.Uri.Standard
use foxy.Uri.Items.{Fits}
use foxy.Uri.Characters.{is_name_char, is_scheme_char}
use foxy.ParseUri.Safe.{standard-AreSafe}

-- An ASCII character that is no colon.
abbrev pub IsApart : ℕ → Type 0
IsApart c = IsAscii c × (c ≢ b':')

abbrev scheme_rest : Grammar
scheme_rest = char_class standard alpha <|> char_class standard digit <|> char_set (codes "+-.")

name_apart : (c : ℕ) → is_name_char c ≡ true → c ≢ b':'
unfolding is_alpha is_digit in_set
name_apart c e same = ground arith

xdigit_apart : (d : ℕ) → is_xdigit d ≡ true → d ≢ b':'
unfolding is_xdigit is_digit
xdigit_apart d e same = ground arith

pub name-IsApart : (is : List Item) → All (Fits is_name_char true) is → All IsApart (spell is)
name-IsApart [] h = tt
name-IsApart (plain c ∷ is) h = ((h.0.0, name_apart c h.0.2), name-IsApart is h.1)
name-IsApart (pair a b ∷ is) h = (
  (omega arith, omega arith),
  ((h.0.0, xdigit_apart a h.0.2), ((h.0.1, xdigit_apart b h.0.3), name-IsApart is h.1)),
)

module _ (x : X3) where
  scheme_rest-run :
      (c : ℕ) (s : Text)
      → IsAscii c
      → run x.is_class scheme_rest (c ∷ s) ≡ (if is_scheme_char c then some s else none)
  unfolding run one ascii_class
  scheme_rest-run c s a =
      rw (x.class_ascii standard alpha c a, x.class_ascii standard digit c a) (ground arith)

  -- A scheme that is looked for in front of a colon stops at the colon or before it.
  scheme_stops :
      (p s : Text) (n : ℕ)
      → All IsApart p
      → length p < n
      → (q : Text) × (many n (run x.is_class scheme_rest) (p ++ (b':' ∷ s)) ≡ q ++ (b':' ∷ s))
        × All IsApart q
  unfolding many is_alpha is_digit in_set
  scheme_stops p s zero h l = absurd (omega arith)
  scheme_stops [] s (suc n) h l = ([], rw (scheme_rest-run b':' s (omega arith), many), tt)
  scheme_stops (c ∷ p) s (suc n) h l = elim (Bool-cases (is_scheme_char c)) [
    | inl e ↦
        let (q, stops, apart) = scheme_stops p s n h.1 (omega arith) in
        let taken : run x.is_class scheme_rest (c ∷ (p ++ (b':' ∷ s))) ≡ some (p ++ (b':' ∷ s)) =
          scheme_rest-run c (p ++ (b':' ∷ s)) h.0.0 ∙ rw e in
        let less : ltb (length (p ++ (b':' ∷ s))) (length (c ∷ (p ++ (b':' ∷ s)))) ≡ true =
          ground arith in
        (q, rw (taken, many) (rw less stops), apart)
    | inr e ↦
        let left : run x.is_class scheme_rest (c ∷ (p ++ (b':' ∷ s))) ≡ none =
          scheme_rest-run c (p ++ (b':' ∷ s)) h.0.0 ∙ rw e in
        (c ∷ p, rw (left, many), h)
  ]

  abbrev Before : Text → Option Text → Type 0
  Before s o = (o ≡ none) ⊎ ((q : Text) × (o ≡ some (q ++ (b':' ∷ s))) × All IsApart q)

  scheme-Before :
      (p s : Text) → All IsApart p → Before s (run x.is_class Standard.scheme (p ++ (b':' ∷ s)))
  unfolding Standard.scheme run one ascii_class is_alpha
  scheme-Before [] s h = inl (rw (x.class_ascii standard alpha b':' (omega arith)))
  scheme-Before (c ∷ p) s h = elim (Bool-cases (is_alpha c)) [
    | inl e ↦
        let (q, stops, apart) =
          scheme_stops p s (length (p ++ (b':' ∷ s))) h.1
            (omega (arith, length-append p (b':' ∷ s))) in
        inr (q, rw (x.class_ascii standard alpha c h.0.0 ∙ e) (ap some stops), apart)
    | inr e ↦ inl (rw (x.class_ascii standard alpha c h.0.0 ∙ e))
  ]

  -- Then the colon is met, and the scheme is done, or the whole form is given up.
  scheme_colon :
      (q s : Text)
      → All IsApart q
      → (x.parse (lit (codes ":")) (q ++ (b':' ∷ s)) ≡ none)
        ⊎ (x.parse (lit (codes ":")) (q ++ (b':' ∷ s)) ≡ some s)
  unfolding strip
  scheme_colon [] s h = inr (x.parse-lit (codes ":") (b':' ∷ s))
  scheme_colon (c ∷ q) s h =
      inl (x.parse-lit (codes ":") (c ∷ (q ++ (b':' ∷ s))) ∙ ground (arith, h.0.1))

  pub scheme_raw :
      (p s : Text)
      → All IsApart p
      → (parse_raw x (lit []) Standard.scheme (lit (codes ":")) (p ++ (b':' ∷ s)) ≡ none)
        ⊎ ((attr : Text) × (parse_raw x (lit []) Standard.scheme (lit (codes ":")) (p ++ (b':' ∷ s))
              ≡ some (attr, s)))
  unfolding parse_raw raw strip
  scheme_raw p s h =
      let input : Text = p ++ (b':' ∷ s) in
      let front : x.parse (lit []) input ≡ some input = x.parse-lit [] input in
      let same = parse-run x Standard.scheme input standard-AreSafe.scheme in
      elim (scheme-Before p s h) [
        | inl e ↦ inl (rw (front, parse_raw) (rw (same ∙ e)))
        | inr (q, e, apart) ↦ elim (scheme_colon q s apart) [
          | inl k ↦ inl (rw (front, parse_raw) (rw (same ∙ e) (rw k)))
          | inr k ↦ inr (view input (q ++ (b':' ∷ s)), rw (front, parse_raw) (rw (same ∙ e) (rw k)))
        ]
      ]
