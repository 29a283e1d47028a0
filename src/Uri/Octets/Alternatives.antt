-- ===== src/Uri/Octets/Alternatives.antt =====
-- The five alternatives of the rule for a number of an IPv4 address.
use foxy.Base.{
  ℕ, ◌+◌, ◌-◌, ◌*◌, ◌≤◌, Bool, true, ◌≡◌, sym, ◌∙◌, ap, ◌⊎◌, inl, inr, Option, none, some, [], ◌∷◌,
  ◌++◌, ◌or_else◌, >>=-eq-some, Text, codes, length, All, arith, Bool-cases, Option-cases,
}
use foxy.X3.Grammar.{
  standard, digit, lit, char_set, char_class, ◌>>◌, exactly, in_set, one, strip, is_digit,
  ascii_class,
}
use foxy.X3.Run.{rounds, run}
use foxy.X3.Consumed.{strip-some}
use foxy.X3.Library.{X3}
use foxy.X3.Ascii.{IsAscii}
use foxy.Uri.Standard.{dec_octet}

abbrev pub IsDigit : ℕ → Type 0
IsDigit c = (b'0' ≤ c) × (c ≤ b'9')

-- The number that decimal digits write, after the digits that stand for `n`.
abbrev pub decimal : ℕ → Text → ℕ
decimal n [] = n
decimal n (c ∷ t) = decimal (n * 10 + (c - b'0')) t

-- One to three digits, for a number below 256.
pub record IsOctet (t : Text) : Type 0 where
  pub digits : All IsDigit t
  pub some_digit : 1 ≤ length t
  pub few : length t ≤ 3
  pub small : decimal 0 t ≤ 255

or_else-some {ℓ} :
    {A : Type ℓ} (a b : Option A) (r : A) → (a or_else b) ≡ some r → (a ≡ some r) ⊎ (b ≡ some r)
or_else-some none b r e = inr e
or_else-some (some a) b r e = inl e

one-some :
    (test : ℕ → Bool) (s r : Text) → one test s ≡ some r → (c : ℕ) × (s ≡ c ∷ r) × (test c ≡ true)
unfolding one
one-some test [] r e = cc
one-some test (c ∷ s) r e = elim (Bool-cases (test c)) [
  | inl h ↦ (c, ground (arith, e, h), h)
  | inr h ↦ absurd (ground (arith, e, h))
]

rounds_two :
    (f : Text → Option Text) (s r : Text)
    → rounds 2 0 f s ≡ some r
    → (p : Text) × (f s ≡ some p) × (f p ≡ some r)
unfolding rounds
rounds_two f s r e = elim (Option-cases (f s)) [
  | inl h ↦ absurd (let bad : none ≡ some r = rw (h, rounds) at e in cc)
  | inr (p, h) ↦
      let rest : rounds 1 0 f p ≡ some r = rw (h, rounds) at e in
      elim (Option-cases (f p)) [
        | inl k ↦ absurd (let bad : none ≡ some r = rw (k, rounds) at rest in cc)
        | inr (q, k) ↦ let end : some q ≡ some r = rw (k, rounds) at rest in (p, h, k ∙ end)
      ]
]

three_digits :
    (a b c : ℕ)
    → IsDigit a
    → IsDigit b
    → IsDigit c
    → decimal 0 (a ∷ b ∷ c ∷ []) ≤ 255
    → IsOctet (a ∷ b ∷ c ∷ [])
three_digits a b c ha hb hc h = record {
  digits = (ha, (hb, (hc, tt)));
  some_digit = omega arith;
  few = omega arith;
  small = h;
}

two_digits : (a b : ℕ) → IsDigit a → IsDigit b → IsOctet (a ∷ b ∷ [])
two_digits a b ha hb = record {
  digits = (ha, (hb, tt));
  some_digit = omega arith;
  few = omega arith;
  small = omega arith;
}

single_digit : (a : ℕ) → IsDigit a → IsOctet (a ∷ [])
single_digit a ha = record {
  digits = (ha, tt);
  some_digit = omega arith;
  few = omega arith;
  small = omega arith;
}

abbrev pub Takes : (Text → Type 0) → Text → Text → Type 0
Takes P s r = (t : Text) × (s ≡ t ++ r) × P t

range : (lo hi c : ℕ) → lo ≤ hi → in_set (lo ∷ b'-' ∷ hi ∷ []) c ≡ true → (lo ≤ c) × (c ≤ hi)
unfolding in_set
range lo hi c o h = ground (arith, o, h)

module _ (x : X3) where
  digit-some :
      (s r : Text)
      → All IsAscii s
      → run x.is_class (char_class standard digit) s ≡ some r
      → (c : ℕ) × (s ≡ c ∷ r) × IsDigit c
  unfolding run ascii_class is_digit
  digit-some s r a e =
      let (c, split, h) = one-some (x.is_class standard digit) s r e in
      let ascii : IsAscii c = (rw split at a).0 in
      let d : is_digit c ≡ true = sym (x.class_ascii standard digit c ascii) ∙ h in
      (c, split, ground (arith, d))

  range-some :
      (lo hi : ℕ) (s r : Text)
      → lo ≤ hi
      → run x.is_class (char_set (lo ∷ b'-' ∷ hi ∷ [])) s ≡ some r
      → (c : ℕ) × (s ≡ c ∷ r) × (lo ≤ c) × (c ≤ hi)
  unfolding run
  range-some lo hi s r o e =
      let (c, split, h) = one-some (in_set (lo ∷ b'-' ∷ hi ∷ [])) s r e in
      let within = range lo hi c o h in (c, split, within.0, within.1)

  -- The five alternatives of dec-octet.
  above_249 :
      (s r : Text)
      → run x.is_class (lit (codes "25") >> char_set (codes "0-5")) s ≡ some r
      → Takes IsOctet s r
  unfolding run
  above_249 s r e =
      let (q, first, last) = >>=-eq-some (strip (codes "25") s) (one (in_set (codes "0-5"))) e in
      let (c, split, low, high) = range-some b'0' b'5' q r (omega arith) last in
      (
        b'2' ∷ b'5' ∷ c ∷ [],
        strip-some (codes "25") s q first ∙ ap (λ t. b'2' ∷ b'5' ∷ t) split,
        three_digits _ _ _ (omega arith) (omega arith) (omega arith) (omega arith),
      )

  above_199 :
      (s r : Text)
      → All IsAscii s
      → run x.is_class (lit (codes "2") >> char_set (codes "0-4") >> char_class standard digit) s
        ≡ some r
      → Takes IsOctet s r
  unfolding run
  above_199 s r a e =
      let (p, front, last) =
        >>=-eq-some (run x.is_class (lit (codes "2") >> char_set (codes "0-4")) s)
          (run x.is_class (char_class standard digit)) e in
      let (q, first, middle) =
        >>=-eq-some (strip (codes "2") s) (one (in_set (codes "0-4"))) front in
      let (c, split, low, high) = range-some b'0' b'4' q p (omega arith) middle in
      let there = strip-some (codes "2") s q first ∙ ap (λ t. b'2' ∷ t) split in
      let (d, split', is_digit_d) = digit-some p r ((rw there at a).1.1) last in
      (
        b'2' ∷ c ∷ d ∷ [],
        there ∙ ap (λ t. b'2' ∷ c ∷ t) split',
        three_digits _ _ _ (omega arith) (omega arith) (omega arith) (omega arith),
      )

  above_99 :
      (s r : Text)
      → All IsAscii s
      → run x.is_class (lit (codes "1") >> exactly 2 (char_class standard digit)) s ≡ some r
      → Takes IsOctet s r
  unfolding run
  above_99 s r a e =
      let (q, first, both) =
        >>=-eq-some (strip (codes "1") s) (rounds 2 0 (run x.is_class (char_class standard digit)))
          e in
      let there = strip-some (codes "1") s q first in
      let (p, one_more, last) = rounds_two (run x.is_class (char_class standard digit)) q r both in
      let (c, split, is_digit_c) = digit-some q p ((rw there at a).1) one_more in
      let (d, split', is_digit_d) = digit-some p r ((rw (there, split) at a).1.1) last in
      (
        b'1' ∷ c ∷ d ∷ [],
        there ∙ ap (λ t. b'1' ∷ t) (split ∙ ap (λ t. c ∷ t) split'),
        three_digits _ _ _ (omega arith) (omega arith) (omega arith) (omega arith),
      )

  above_9 :
      (s r : Text)
      → All IsAscii s
      → run x.is_class (char_set (codes "1-9") >> char_class standard digit) s ≡ some r
      → Takes IsOctet s r
  unfolding run
  above_9 s r a e =
      let (p, front, last) =
        >>=-eq-some (run x.is_class (char_set (codes "1-9")) s)
          (run x.is_class (char_class standard digit)) e in
      let (c, split, low, high) = range-some b'1' b'9' s p (omega arith) front in
      let (d, split', is_digit_d) = digit-some p r ((rw split at a).1) last in
      (c ∷ d ∷ [], split ∙ ap (λ t. c ∷ t) split', two_digits _ _ (omega arith) (omega arith))

  one_digit :
      (s r : Text)
      → All IsAscii s
      → run x.is_class (char_class standard digit) s ≡ some r
      → Takes IsOctet s r
  one_digit s r a e =
      let (d, split, is_digit_d) = digit-some s r a e in
      (d ∷ [], split, single_digit _ (omega arith))

  pub dec_octet-some :
      (s r : Text) → All IsAscii s → run x.is_class dec_octet s ≡ some r → Takes IsOctet s r
  unfolding dec_octet run
  dec_octet-some s r a e = elim (or_else-some _ _ r e) [
    | inr h ↦ one_digit s r a h
    | inl e₁ ↦ elim (or_else-some _ _ r e₁) [
      | inr h ↦ above_9 s r a h
      | inl e₂ ↦ elim (or_else-some _ _ r e₂) [
        | inr h ↦ above_99 s r a h
        | inl e₃ ↦ elim (or_else-some _ _ r e₃) [
          | inr h ↦ above_199 s r a h
          | inl h ↦ above_249 s r h
        ]
      ]
    ]
  ]
