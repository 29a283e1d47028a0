-- ===== src/Pct/Encode.antt =====
-- include/foxy/pct_encode.hpp. An output iterator is the text written so far.
use foxy.Base.{
  ℕ, Bool, false, not, ◌&&◌, ◌||◌, none, some, [], ◌∷◌, ◌++◌, ltb, ◌==◌, if◌then◌else◌, Text, codes,
}
use foxy.X3.Grammar.{◌<|>◌}
use foxy.X3.Library.{X3}
use foxy.Uri.Unicode
use foxy.Utf8.{Utf, Karma, utf8_encode}

-- u32string_view::find(c) != npos.
unfoldable pub contains : Text → ℕ → Bool
contains [] c = false
contains (d ∷ t) c = c == d || contains t c

-- No need to encode the normal ascii set.
unfoldable pub is_plain : Text → ℕ → Bool
unfolding contains
is_plain special c = ltb 32 c && ltb c 127 && not (contains special c)

abbrev pub host_special : Text
host_special = codes "\"#/<>?@[\\]^`{|}"

abbrev pub path_special : Text
path_special = codes "\"#<>?[\\]^`{|}"

abbrev pub query_special : Text
query_special = codes "\"#:<>@[\\]^`{|}"

module _ (u : Utf) (k : Karma) where
  -- The loop over the bytes of the buffer.
  unfoldable pub write_percent : Text → Text → Text
  write_percent [] out = out
  write_percent (b ∷ buffer) out = write_percent buffer (out ++ k.percent b)

  -- One round of the loop over the code points.
  unfoldable pub encode_one : Text → ℕ → Text → Text
  unfolding is_plain write_percent utf8_encode
  encode_one special c out =
      if is_plain special c then out ++ u.encode c else write_percent (utf8_encode u c []) out

  unfoldable pub encode_loop : Text → Text → Text → Text
  unfolding encode_one
  encode_loop special [] out = out
  encode_loop special (c ∷ s) out = encode_loop special s (encode_one special c out)

  -- An address is copied code point by code point.
  unfoldable pub copy_loop : Text → Text → Text
  copy_loop [] out = out
  copy_loop (c ∷ s) out = copy_loop s (out ++ u.encode c)

  unfoldable pub encode_host : X3 → Text → Text → Text
  unfolding encode_loop copy_loop
  encode_host x host out = elim (x.parse (Unicode.ip_literal <|> Unicode.ip_v4_address) host) [
    | some pos ↦ copy_loop host out
    | none ↦ encode_loop host_special host out
  ]

  unfoldable pub encode_path : Text → Text → Text
  unfolding encode_loop
  encode_path host out = encode_loop path_special host out

  unfoldable pub encode_query : Text → Text → Text
  unfolding encode_loop
  encode_query host out = encode_loop query_special host out

  unfoldable pub encode_fragment : Text → Text → Text
  unfolding encode_query
  encode_fragment host out = encode_query host out
