-- ===== src/Tests/Bytes.antt =====
-- Texts for percent coding and UTF-8.
use foxy.Base.{◌≡◌, refl, none, some, [], ◌∷◌, Text, codes, length, arith}
use foxy.X3.Grammar.{is_xdigit, ◌<|>◌}
use foxy.X3.Reference.{reference}
use foxy.Uri.Unicode
use foxy.Utf8.{utf8_encode_range}
use foxy.Utf8.Reference.{utf_reference, karma_reference}
use foxy.Utf8.CodePoint.{begin, view_end, code_points, code_points-utf8_encode}
use foxy.Pct.Encode.{encode_host, encode_path, encode_query, encode_fragment}
use foxy.Pct.Decode.{pct_decode}
use foxy.Pct.RoundTrip.{pct_decode-encode, pct_decode-encode_host}
use foxy.Pct.Digits.{pct_decode_pair}

-- A letter, a bracket, and a code point of three bytes.
abbrev sample : Text
sample = b'a' ∷ b'[' ∷ 0x20AC ∷ []

pct_decode-encode_example :
    (pct_decode reference (encode_path utf_reference karma_reference sample []) []
      ≡ (utf8_encode_range utf_reference sample [], none))
    × (pct_decode reference (encode_query utf_reference karma_reference sample []) []
        ≡ (utf8_encode_range utf_reference sample [], none))
    × (pct_decode reference (encode_fragment utf_reference karma_reference sample []) []
        ≡ (utf8_encode_range utf_reference sample [], none))
pct_decode-encode_example =
    pct_decode-encode utf_reference karma_reference reference sample (omega arith)

no_address : reference.parse (Unicode.ip_literal <|> Unicode.ip_v4_address) sample ≡ none
unfolding reference Unicode.ip_literal Unicode.ip_v4_address
no_address = refl

pct_decode-encode_host_example :
    pct_decode reference (encode_host utf_reference karma_reference reference sample []) []
    ≡ (utf8_encode_range utf_reference sample [], none)
pct_decode-encode_host_example =
    pct_decode-encode_host utf_reference karma_reference reference sample (omega arith) no_address

pct_decode_pair_example : pct_decode reference (codes "%2F") [] ≡ (15 ∷ [], none)
unfolding is_xdigit
pct_decode_pair_example = pct_decode_pair reference b'2' b'F' refl refl

abbrev address : Text
address = codes "1.2.3.4<>"

address-parse :
    reference.parse (Unicode.ip_literal <|> Unicode.ip_v4_address) address ≡ some (codes "<>")
unfolding reference Unicode.ip_literal Unicode.ip_v4_address
address-parse = refl

code_points-utf8_encode_example :
    code_points utf_reference
      (length (utf8_encode_range utf_reference sample []))
      (begin (utf8_encode_range utf_reference sample []))
      (view_end (utf8_encode_range utf_reference sample []))
    ≡ sample
code_points-utf8_encode_example = code_points-utf8_encode utf_reference sample (omega arith)
