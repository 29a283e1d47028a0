-- ===== src/Utf8/Reference.antt =====
-- Functions that meet the assumptions on Boost.Locale and on Karma.
use foxy.Base.{
  ℕ, ◌+◌, ◌*◌, ◌/◌, ◌%◌, ◌-◌, ◌<◌, ◌≤◌, ◌≡◌, refl, [], ◌∷◌, ◌++◌, if◌then◌else◌, ltb, Text, arith,
  ◌⊎◌, dec_lt,
}
use foxy.Utf8.{Utf, Karma, hex_digit}

unfoldable pub encode : ℕ → Text
encode c =
    if ltb c 0x80
    then c ∷ []
    else if ltb c 0x800
    then (192 + c / 64) ∷ (128 + c % 64) ∷ []
    else if ltb c 0x10000
    then (224 + c / 4096) ∷ (128 + c / 64 % 64) ∷ (128 + c % 64) ∷ []
    else (240 + c / 262144) ∷ (128 + c / 4096 % 64) ∷ (128 + c / 64 % 64) ∷ (128 + c % 64) ∷ []

-- The lead byte tells the length; anything else is given back as one character.
unfoldable pub decode : Text → ℕ × Text
decode [] = (0, [])
decode (a ∷ []) = (a, [])
decode (a ∷ b ∷ []) = if ltb a 0x80 then (a, b ∷ []) else ((a - 192) * 64 + (b - 128), [])
decode (a ∷ b ∷ c ∷ []) =
    if ltb a 0x80
    then (a, b ∷ c ∷ [])
    else if ltb a 224
    then ((a - 192) * 64 + (b - 128), c ∷ [])
    else ((a - 224) * 4096 + (b - 128) * 64 + (c - 128), [])
decode (a ∷ b ∷ c ∷ d ∷ s) =
    if ltb a 0x80
    then (a, b ∷ c ∷ d ∷ s)
    else if ltb a 224
    then ((a - 192) * 64 + (b - 128), c ∷ d ∷ s)
    else if ltb a 240
    then ((a - 224) * 4096 + (b - 128) * 64 + (c - 128), d ∷ s)
    else ((a - 240) * 262144 + (b - 128) * 4096 + (c - 128) * 64 + (d - 128), s)

pub encode_one : (c : ℕ) → c < 0x80 → encode c ≡ c ∷ []
unfolding encode
encode_one c h = ground arith

pub encode_two : (c : ℕ) → 0x80 ≤ c → c < 0x800 → encode c ≡ (192 + c / 64) ∷ (128 + c % 64) ∷ []
unfolding encode
encode_two c h k = ground arith

pub encode_three :
    (c : ℕ)
    → 0x800 ≤ c
    → c < 0x10000
    → encode c ≡ (224 + c / 4096) ∷ (128 + c / 64 % 64) ∷ (128 + c % 64) ∷ []
unfolding encode
encode_three c h k = ground arith

pub encode_four :
    (c : ℕ)
    → 0x10000 ≤ c
    → c < 0x110000
    → encode c
      ≡ (240 + c / 262144) ∷ (128 + c / 4096 % 64) ∷ (128 + c / 64 % 64) ∷ (128 + c % 64) ∷ []
unfolding encode
encode_four c h k = ground arith

decode_one : (c : ℕ) (s : Text) → c < 0x80 → decode (c ∷ s) ≡ (c, s)
unfolding decode
decode_one c [] h = refl
decode_one c (a ∷ []) h = ground arith
decode_one c (a ∷ b ∷ []) h = ground arith
decode_one c (a ∷ b ∷ d ∷ s) h = ground arith

decode_two :
    (a b : ℕ) (s : Text) → 128 ≤ a → a < 224 → decode (a ∷ b ∷ s) ≡ ((a - 192) * 64 + (b - 128), s)
unfolding decode
decode_two a b [] h k = ground arith
decode_two a b (c ∷ []) h k = ground arith
decode_two a b (c ∷ d ∷ s) h k = ground arith

decode_three :
    (a b c : ℕ) (s : Text)
    → 224 ≤ a
    → a < 240
    → decode (a ∷ b ∷ c ∷ s) ≡ ((a - 224) * 4096 + (b - 128) * 64 + (c - 128), s)
unfolding decode
decode_three a b c [] h k = ground arith
decode_three a b c (d ∷ s) h k = ground arith

decode_four :
    (a b c d : ℕ) (s : Text)
    → 240 ≤ a
    → decode (a ∷ b ∷ c ∷ d ∷ s)
      ≡ ((a - 240) * 262144 + (b - 128) * 4096 + (c - 128) * 64 + (d - 128), s)
unfolding decode
decode_four a b c d s h = ground arith

scalar_two : (c : ℕ) → 0x80 ≤ c → c < 0x800 → (192 + c / 64 - 192) * 64 + (128 + c % 64 - 128) ≡ c
scalar_two c h k = omega arith

scalar_three :
    (c : ℕ)
    → (224 + c / 4096 - 224) * 4096 + (128 + c / 64 % 64 - 128) * 64 + (128 + c % 64 - 128) ≡ c
scalar_three c = omega arith

scalar_four :
    (c : ℕ)
    → (240 + c / 262144 - 240) * 262144
        + (128 + c / 4096 % 64 - 128) * 4096
        + (128 + c / 64 % 64 - 128) * 64
        + (128 + c % 64 - 128)
      ≡ c
scalar_four c = omega arith

pub decode-encode :
    (c : ℕ) (rest : Text)
    → c < 0x110000
    → (c < 0xD800) ⊎ (0xE000 ≤ c)
    → decode (encode c ++ rest) ≡ (c, rest)
decode-encode c rest h scalar = elim (dec_lt c 0x80) [
  | yes one ↦ rw (encode_one c one) (decode_one c rest one)
  | no past_one ↦ elim (dec_lt c 0x800) [
    | yes two ↦ rw (encode_two c (omega arith) two) (
        rw (decode_two (192 + c / 64) (128 + c % 64) rest (omega arith) (omega arith))
          (rw (scalar_two c (omega arith) two)))
    | no past_two ↦ elim (dec_lt c 0x10000) [
      | yes three ↦ rw (encode_three c (omega arith) three) (
          rw
            (decode_three (224 + c / 4096) (128 + c / 64 % 64) (128 + c % 64) rest (omega arith)
              (omega arith))
            (rw (scalar_three c)))
      | no past_three ↦ rw (encode_four c (omega arith) h) (
          rw
            (decode_four (240 + c / 262144) (128 + c / 4096 % 64) (128 + c / 64 % 64) (128 + c % 64)
              rest (omega arith))
            (rw (scalar_four c)))
    ]
  ]
]

unfoldable pub utf_reference : Utf
unfolding encode decode
utf_reference = record {
  encode = encode;
  decode = decode;
  encode_one = encode_one;
  encode_two = encode_two;
  encode_three = encode_three;
  encode_four = encode_four;
  decode-encode = decode-encode;
}

unfoldable pub karma_reference : Karma
unfolding hex_digit
karma_reference = record {
  percent = λ b. b'%' ∷ hex_digit (b / 16) ∷ hex_digit (b % 16) ∷ [];
  percent_byte = λ b h. refl;
}
