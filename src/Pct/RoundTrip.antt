-- ===== src/Pct/RoundTrip.antt =====
-- Decoding what was encoded gives the UTF-8 of the text.
use foxy.Base.{
  ap, ℕ, ◌%◌, ◌/◌, ◌<◌, ◌≡◌, ◌≢◌, refl, sym, ◌∙◌, true, none, List, [], ◌∷◌, ◌++◌, append_assoc,
  append-nil, map, if◌then◌else◌, dec_lt, Text, All, All-append, arith, Bool-cases, inl, inr,
}
use mathlib.Core.List.{map-append}
use foxy.X3.Grammar.{standard, xdigit, ascii_class, ◌<|>◌}
use foxy.X3.Library.{X3}
use foxy.Uri.Unicode
use foxy.Utf8.{Utf, Karma, hex_digit, IsCodePoint, utf8_encode, utf8_encode_range}
use foxy.Pct.Encode.{
  is_plain, host_special, path_special, query_special, write_percent, encode_one, encode_loop,
  encode_host, encode_path, encode_query, encode_fragment,
}
use foxy.Pct.Decode.{digit_value, to_utf8_byte, pct_decode}
use foxy.Pct.Decode.Meaning.{
  Item, plain, pair, spell, spell_item, item_byte, IsItem, pct_decode-spell,
}

hex_digit-value : (d : ℕ) → d < 16 → digit_value (hex_digit d) ≡ d
unfolding digit_value hex_digit
hex_digit-value d h = ground arith

to_utf8_byte-hex_digit :
    (b : ℕ) → b < 256 → to_utf8_byte (hex_digit (b / 16)) (hex_digit (b % 16)) ≡ b
unfolding to_utf8_byte
to_utf8_byte-hex_digit b h =
    rw (hex_digit-value (b / 16) (omega arith), hex_digit-value (b % 16) (omega arith))
      (omega arith)

hex_digit-is_xdigit : (x : X3) (d : ℕ) → d < 16 → x.is_class standard xdigit (hex_digit d) ≡ true
unfolding hex_digit ascii_class
hex_digit-is_xdigit x d h = ground (arith, x.class_ascii standard xdigit (hex_digit d))

-- A byte as the percent pair that is written for it.
unfoldable pub byte_item : ℕ → Item
byte_item b = pair (hex_digit (b / 16)) (hex_digit (b % 16))

pub is_plain-lt : (special : Text) (c : ℕ) → is_plain special c ≡ true → c < 127
unfolding is_plain
is_plain-lt special c h = ground arith

module _ (u : Utf) (k : Karma) where
  pub encode-bytes : (c : ℕ) → IsCodePoint c → All (λ b. b < 256) (u.encode c)
  encode-bytes c h = elim (dec_lt c 0x80) [
    | yes one ↦ rw (u.encode_one c one) (omega arith)
    | no past_one ↦ elim (dec_lt c 0x800) [
      | yes two ↦ rw (u.encode_two c (omega arith) two) (omega arith)
      | no past_two ↦ elim (dec_lt c 0x10000) [
        | yes three ↦ rw (u.encode_three c (omega arith) three) (omega arith)
        | no past_three ↦ rw (u.encode_four c (omega arith) h) (omega arith)
      ]
    ]
  ]

  -- The items that stand for one code point, and for a text.
  unfoldable pub code_items : Text → ℕ → List Item
  code_items special c = if is_plain special c then plain c ∷ [] else map byte_item (u.encode c)

  unfoldable pub text_items : Text → Text → List Item
  text_items special [] = []
  text_items special (c ∷ s) = code_items special c ++ text_items special s

  pub spell-append : (is js : List Item) → spell (is ++ js) ≡ spell is ++ spell js
  spell-append [] js = refl
  spell-append (i ∷ is) js =
      ap (◌++◌ (spell_item i)) (spell-append is js)
      ∙ sym (append_assoc (spell_item i) (spell is) (spell js))

  write_percent-spell :
      (bytes out : Text)
      → All (λ b. b < 256) bytes
      → write_percent u k bytes out ≡ out ++ spell (map byte_item bytes)
  unfolding write_percent byte_item
  write_percent-spell [] out h = sym (append-nil out)
  write_percent-spell (b ∷ bytes) out h =
      rw (k.percent_byte b h.0)
        (write_percent-spell bytes _ h.1 ∙ append_assoc out _ (spell (map byte_item bytes)))

  encode_one-spell :
      (special : Text) (c : ℕ) (out : Text)
      → IsCodePoint c
      → encode_one u k special c out ≡ out ++ spell (code_items special c)
  unfolding encode_one code_items utf8_encode
  encode_one-spell special c out h = elim (Bool-cases (is_plain special c)) [
    | inl e ↦
        let small : c < 0x80 = omega (arith, is_plain-lt special c e) in
        rw e (rw (u.encode_one c small) refl)
    | inr e ↦ rw e (write_percent-spell (u.encode c) out (encode-bytes c h))
  ]

  pub encode_loop-spell :
      (special s out : Text)
      → All IsCodePoint s
      → encode_loop u k special s out ≡ out ++ spell (text_items special s)
  unfolding encode_loop text_items
  encode_loop-spell special [] out h = sym (append-nil out)
  encode_loop-spell special (c ∷ s) out h =
      encode_loop-spell special s (encode_one u k special c out) h.1
      ∙ rw (encode_one-spell special c out h.0, spell-append)
          (append_assoc out (spell (code_items special c)) (spell (text_items special s)))

  map-item_byte :
      (bytes : Text) → All (λ b. b < 256) bytes → map item_byte (map byte_item bytes) ≡ bytes
  unfolding byte_item
  map-item_byte [] h = refl
  map-item_byte (b ∷ bytes) h = rw (to_utf8_byte-hex_digit b h.0, map-item_byte bytes h.1)

  code_items-byte :
      (special : Text) (c : ℕ) → IsCodePoint c → map item_byte (code_items special c) ≡ u.encode c
  unfolding code_items
  code_items-byte special c h = elim (Bool-cases (is_plain special c)) [
    | inl e ↦
        let small : c < 0x80 = omega (arith, is_plain-lt special c e) in
        rw e (rw (u.encode_one c small) refl)
    | inr e ↦ rw e (map-item_byte (u.encode c) (encode-bytes c h))
  ]

  text_items-byte :
      (special s out : Text)
      → All IsCodePoint s
      → utf8_encode_range u s out ≡ out ++ map item_byte (text_items special s)
  unfolding utf8_encode_range text_items utf8_encode
  text_items-byte special [] out h = sym (append-nil out)
  text_items-byte special (c ∷ s) out h =
      text_items-byte special s (out ++ u.encode c) h.1
      ∙ rw (map-append, code_items-byte special c h.0)
          (append_assoc out (u.encode c) (map item_byte (text_items special s)))

  module _ (x : X3) where
    byte_items-IsItem :
        (bytes : Text) → All (λ b. b < 256) bytes → All (IsItem x) (map byte_item bytes)
    unfolding byte_item
    byte_items-IsItem [] h = tt
    byte_items-IsItem (b ∷ bytes) h =
        let low : b < 256 = h.0 in
        (
          (
            hex_digit-is_xdigit x (b / 16) (omega arith),
            hex_digit-is_xdigit x (b % 16) (omega arith),
          ),
          byte_items-IsItem bytes h.1,
        )

    -- A code point of Unicode that is no percent sign.
    abbrev pub IsText : ℕ → Type 0
    IsText c = IsCodePoint c × (c ≢ b'%')

    code_items-IsItem : (special : Text) (c : ℕ) → IsText c → All (IsItem x) (code_items special c)
    unfolding code_items
    code_items-IsItem special c h = elim (Bool-cases (is_plain special c)) [
      | inl e ↦ rw e (h.1, tt)
      | inr e ↦ rw e (byte_items-IsItem (u.encode c) (encode-bytes c h.0))
    ]

    text_items-IsItem : (special s : Text) → All IsText s → All (IsItem x) (text_items special s)
    unfolding text_items
    text_items-IsItem special [] h = tt
    text_items-IsItem special (c ∷ s) h =
        All-append (IsItem x) (code_items special c) (text_items special s)
          (code_items-IsItem special c h.0) (text_items-IsItem special s h.1)

    pub IsText-IsCodePoint : (s : Text) → All IsText s → All IsCodePoint s
    IsText-IsCodePoint [] h = tt
    IsText-IsCodePoint (c ∷ s) h = (h.0.0, IsText-IsCodePoint s h.1)

    decode-encode_loop :
        (special s : Text)
        → All IsText s
        → pct_decode x (encode_loop u k special s []) [] ≡ (utf8_encode_range u s [], none)
    decode-encode_loop special s h =
        let points = IsText-IsCodePoint s h in
        rw (encode_loop-spell special s [] points, text_items-byte special s [] points)
          (pct_decode-spell x (text_items special s) [] (text_items-IsItem special s h))

    -- A text of Unicode code points with no percent sign, encoded as a path, a query or a fragment
    -- and then decoded, gives the UTF-8 of the text and no error.
    pub pct_decode-encode :
        (s : Text)
        → All IsText s
        → (pct_decode x (encode_path u k s []) [] ≡ (utf8_encode_range u s [], none))
          × (pct_decode x (encode_query u k s []) [] ≡ (utf8_encode_range u s [], none))
          × (pct_decode x (encode_fragment u k s []) [] ≡ (utf8_encode_range u s [], none))
    unfolding encode_path encode_query encode_fragment
    pct_decode-encode s h = (
      decode-encode_loop path_special s h,
      decode-encode_loop query_special s h,
      decode-encode_loop query_special s h,
    )

    -- The same for a host, where X3 finds no address at its front.
    pub pct_decode-encode_host :
        (s : Text)
        → All IsText s
        → x.parse (Unicode.ip_literal <|> Unicode.ip_v4_address) s ≡ none
        → pct_decode x (encode_host u k x s []) [] ≡ (utf8_encode_range u s [], none)
    unfolding encode_host
    pct_decode-encode_host s h e = rw (e, encode_host) (decode-encode_loop host_special s h)
