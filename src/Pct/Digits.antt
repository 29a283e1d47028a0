-- ===== src/Pct/Digits.antt =====
-- What single percent pairs decode to, and what the encoder does with an address.
use foxy.Base.{
  ℕ, ◌+◌, ◌*◌, ◌%◌, ◌-◌, ◌≡◌, ◌⊎◌, inl, inr, refl, Bool, true, false, ◌&&◌, none, some, [], ◌∷◌,
  ◌++◌, leb, if◌then◌else◌, Text, arith,
}
use foxy.X3.Grammar.{standard, xdigit, ascii_class, is_xdigit, is_digit, ◌<|>◌}
use foxy.X3.Library.{X3}
use foxy.Uri.Unicode
use foxy.Utf8.{Utf, Karma, utf8_encode, utf8_encode_range}
use foxy.Pct.Encode.{copy_loop, encode_host}
use foxy.Pct.Decode.{digit_value, to_utf8_byte, pct_decode}
use foxy.Pct.Decode.Meaning.{pair, pct_decode-spell}

-- The value that a hexadecimal digit has, in either case.
abbrev pub hex_value : ℕ → ℕ
hex_value d = if leb d b'9' then d - b'0' else if leb d b'F' then d - b'A' + 10 else d - b'a' + 10

abbrev pub is_upper : ℕ → Bool
is_upper d = leb b'A' d && leb d b'F'

-- The code's value of a digit, with and without the error that an upper-case letter brings in.
digit_value_cases :
    (d : ℕ)
    → is_xdigit d ≡ true
    → ((is_upper d ≡ false) × (digit_value d ≡ hex_value d))
      ⊎ ((is_upper d ≡ true) × (digit_value d ≡ hex_value d + 224))
unfolding digit_value is_xdigit is_digit
digit_value_cases d h = ground arith

-- Modulo 256 only the error of the second digit is left.
byte_sum :
    (a b p q i j : ℕ)
    → (i ≡ 0) ⊎ (i ≡ 224)
    → p ≡ a + i
    → q ≡ b + j
    → (p * 16 + q) % 256 ≡ (16 * a + b + j) % 256
byte_sum a b p q i j h e f = omega arith

digit_value_first :
    (d : ℕ)
    → is_xdigit d ≡ true
    → (i : ℕ) × ((i ≡ 0) ⊎ (i ≡ 224)) × (digit_value d ≡ hex_value d + i)
digit_value_first d h = elim (digit_value_cases d h) [
  | inl (low, e) ↦ (0, inl refl, omega arith)
  | inr (up, e) ↦ (224, inr refl, e)
]

digit_value_second :
    (d : ℕ) → is_xdigit d ≡ true → digit_value d ≡ hex_value d + (if is_upper d then 224 else 0)
digit_value_second d h = elim (digit_value_cases d h) [
  | inl (low, e) ↦ rw low (omega arith)
  | inr (up, e) ↦ rw up e
]

to_utf8_byte_value :
    (a b : ℕ)
    → is_xdigit a ≡ true
    → is_xdigit b ≡ true
    → to_utf8_byte a b ≡ (16 * hex_value a + hex_value b + (if is_upper b then 224 else 0)) % 256
unfolding to_utf8_byte
to_utf8_byte_value a b ha hb =
    let (i, small, e) = digit_value_first a ha in
    byte_sum (hex_value a) (hex_value b) (digit_value a) (digit_value b) i
      (if is_upper b then 224 else 0) small e (digit_value_second b hb)

is_xdigit-class : (x : X3) (d : ℕ) → is_xdigit d ≡ true → x.is_class standard xdigit d ≡ true
unfolding ascii_class is_xdigit is_digit
is_xdigit-class x d h = ground (arith, x.class_ascii standard xdigit d)

-- A percent sign and two hexadecimal digits decode to the byte that the digits name, except that
-- an upper-case second digit makes it 32 less, modulo 256.
pub pct_decode_pair :
    (x : X3) (a b : ℕ)
    → is_xdigit a ≡ true
    → is_xdigit b ≡ true
    → pct_decode x (b'%' ∷ a ∷ b ∷ []) []
      ≡ ((16 * hex_value a + hex_value b + (if is_upper b then 224 else 0)) % 256 ∷ [], none)
pct_decode_pair x a b ha hb =
    rw
      (pct_decode-spell x (pair a b ∷ []) [] ((is_xdigit-class x a ha, is_xdigit-class x b hb), tt))
      (rw (to_utf8_byte_value a b ha hb))

copy_loop-range :
    (u : Utf) (k : Karma) (s out : Text) → copy_loop u k s out ≡ utf8_encode_range u s out
unfolding copy_loop utf8_encode_range utf8_encode
copy_loop-range u k [] out = refl
copy_loop-range u k (c ∷ s) out = copy_loop-range u k s (out ++ u.encode c)

-- Where X3 finds an address at the front of the host, the whole host is written as plain UTF-8,
-- whatever stands behind the address.
pub encode_host-address :
    (x : X3) (u : Utf) (k : Karma) (s r : Text)
    → x.parse (Unicode.ip_literal <|> Unicode.ip_v4_address) s ≡ some r
    → encode_host u k x s [] ≡ utf8_encode_range u s []
unfolding encode_host
encode_host-address x u k s r e = rw (e, encode_host) (copy_loop-range u k s [])
