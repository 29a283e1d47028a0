-- ===== src/Pct/Decode.antt =====
-- include/foxy/pct_decode.hpp and error.hpp. The parse with its two semantic actions is a loop that
-- asks X3 for each alternative; a round takes at least one character, so the length is fuel enough.
pub mod Meaning
pub mod Halts
pub mod Errors
use foxy.Base.{
  ℕ, zero, suc, ◌+◌, ◌-◌, ◌*◌, ◌%◌, Bool, true, false, Option, none, some, [], ◌∷◌, ◌++◌, leb,
  if◌then◌else◌, Text, codes, length,
}
use foxy.X3.Grammar.{Grammar, lit, char_class, any_char, standard, xdigit, ◌>>◌, ◌but_not◌}
use foxy.X3.Library.{X3}
use foxy.Uri.Raw.{view}

-- enum class error.
pub data Error : Type 0 where
  unexpected_pct : Error

unfoldable pub xpair : Grammar
xpair = lit (codes "%") >> char_class standard xdigit >> char_class standard xdigit

unfoldable pub no_percent : Grammar
no_percent = any_char but_not lit (codes "%")

-- The value of a digit as the code computes it, modulo 256.
unfoldable pub digit_value : ℕ → ℕ
digit_value d = if leb d b'9' then (d + 256 - b'0') % 256 else (d + 256 - b'a' + 10) % 256

-- (first_char << 4) + second_char, stored in a char.
unfoldable pub to_utf8_byte : ℕ → ℕ → ℕ
unfolding digit_value
to_utf8_byte first second = (digit_value first * 16 + digit_value second) % 256

-- What the action appends for a matched xpair, and for a matched character.
unfoldable pub xpair_byte : Text → Text
unfolding to_utf8_byte
xpair_byte (pct ∷ first ∷ second ∷ []) = to_utf8_byte first second ∷ []
xpair_byte t = []

-- match && pos == str.end(); the kleene star always matches.
unfoldable pub used_up : Text × Text → Text × Bool
used_up (sink, []) = (sink, true)
used_up (sink, c ∷ s) = (sink, false)

-- The error code that goes with the answer.
unfoldable pub report : Text × Bool → Text × Option Error
report (sink, full_match) = (sink, if full_match then none else some unexpected_pct)

module _ (x : X3) where
  -- One round of the kleene star: what it appends, and the rest of the input.
  unfoldable pub decode_round : Text → Option (Text × Text)
  unfolding xpair_byte xpair no_percent view
  decode_round s = elim (x.parse xpair s) [
    | some r ↦ some (xpair_byte (view s r), r)
    | none ↦ elim (x.parse no_percent s) [ some r ↦ some (view s r, r) | none ↦ none ]
  ]

  unfoldable pub decode_loop : ℕ → Text → Text → Text × Text
  unfolding decode_round
  decode_loop zero s sink = (sink, s)
  decode_loop (suc fuel) s sink = elim (decode_round s) [
    | none ↦ (sink, s)
    | some (bytes, r) ↦ decode_loop fuel r (sink ++ bytes)
  ]

  -- detail::pct_decode_impl: the sink, and whether the input was used up.
  unfoldable pub pct_decode_impl : Text → Text → Text × Bool
  unfolding decode_loop used_up
  pct_decode_impl str sink = used_up (decode_loop (length str) str sink)

  -- pct_decode with an error code: no error is `none`.
  unfoldable pub pct_decode : Text → Text → Text × Option Error
  unfolding pct_decode_impl report
  pct_decode str sink = report (pct_decode_impl str sink)
