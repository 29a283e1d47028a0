-- ===== src/Utf8.antt =====
-- include/foxy/utf8.hpp, over the parts of Boost.Locale and Boost.Spirit.Karma that it and the
-- percent coding call.
pub mod Reference
pub mod CodePoint
use foxy.Base.{
  ℕ, ◌+◌, ◌*◌, ◌/◌, ◌%◌, ◌<◌, ◌≤◌, ◌≡◌, List, [], ◌∷◌, ◌++◌, if◌then◌else◌, ltb, ◌⊎◌, Text, All,
}

-- boost::locale::utf::utf_traits<char>: UTF-8 by the four templates that utf8.hpp quotes.
pub record Utf : Type 0 where
  pub encode : ℕ → Text
  pub decode : Text → ℕ × Text
  pub encode_one : (c : ℕ) → c < 0x80 → encode c ≡ c ∷ []
  pub encode_two : (c : ℕ) → 0x80 ≤ c → c < 0x800 → encode c ≡ (192 + c / 64) ∷ (128 + c % 64) ∷ []
  pub encode_three :
      (c : ℕ)
      → 0x800 ≤ c
      → c < 0x10000
      → encode c ≡ (224 + c / 4096) ∷ (128 + c / 64 % 64) ∷ (128 + c % 64) ∷ []
  pub encode_four :
      (c : ℕ)
      → 0x10000 ≤ c
      → c < 0x110000
      → encode c
        ≡ (240 + c / 262144) ∷ (128 + c / 4096 % 64) ∷ (128 + c / 64 % 64) ∷ (128 + c % 64) ∷ []
  pub decode-encode :
      (c : ℕ) (rest : Text)
      → c < 0x110000
      → (c < 0xD800) ⊎ (0xE000 ≤ c)
      → decode (encode c ++ rest) ≡ (c, rest)

-- karma::hex writes lower-case digits.
unfoldable pub hex_digit : ℕ → ℕ
hex_digit d = if ltb d 10 then 48 + d else 87 + d

-- What karma::generate writes for lit("%") << right_align(2, lit("0"))[hex] and one byte.
pub record Karma : Type 0 where
  pub percent : ℕ → Text
  pub percent_byte :
      (b : ℕ) → b < 256 → percent b ≡ b'%' ∷ hex_digit (b / 16) ∷ hex_digit (b % 16) ∷ []

-- The code points of Unicode.
abbrev pub IsCodePoint : ℕ → Type 0
IsCodePoint c = c < 0x110000

module _ (u : Utf) where
  -- utf8_encode of one code point, and of a range of them.
  unfoldable pub utf8_encode : ℕ → Text → Text
  utf8_encode code_point sink = sink ++ u.encode code_point

  unfoldable pub utf8_encode_range : List ℕ → Text → Text
  unfolding utf8_encode
  utf8_encode_range [] sink = sink
  utf8_encode_range (code_point ∷ rest) sink = utf8_encode_range rest (utf8_encode code_point sink)
