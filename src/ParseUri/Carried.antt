-- ===== src/ParseUri/Carried.antt =====
-- From include/foxy/pct_encode.hpp through src/parse_uri.cpp to include/foxy/pct_decode.hpp: texts
-- that are carried in the query and the fragment of a URI.
use foxy.Base.{
  ap, ℕ, zero, suc, ◌<◌, ◌/◌, ◌%◌, ◌≡◌, ◌≢◌, refl, ◌∙◌, Bool, true, false, not, ◌&&◌, ◌||◌, Option,
  none, some, List, [], ◌∷◌, ◌++◌, append_assoc, append-nil, map, Text, codes, All, All-append,
  arith, Bool-cases, inl, inr, ◌==◌,
}
use foxy.X3.Grammar.{is_alpha, is_digit, is_xdigit, in_set}
use foxy.X3.Library.{X3}
use foxy.X3.Ascii.{IsAscii}
use foxy.Utf8.{Utf, Karma, hex_digit, utf8_encode_range}
use foxy.Pct.Encode.{contains, is_plain, query_special, encode_query, encode_fragment}
use foxy.Pct.Decode.{pct_decode}
use foxy.Pct.Decode.Meaning.{Item, plain, spell}
use foxy.Pct.RoundTrip.{
  byte_item, code_items, text_items, encode_loop-spell, encode-bytes, is_plain-lt, IsText,
  IsText-IsCodePoint, pct_decode-encode,
}
use foxy.UriParts.{UriParts, no_parts}
use foxy.Uri.Items.{Fits}
use foxy.Uri.Characters.{is_query_char}
use foxy.X3.Pieces.{concat}
use foxy.Uri.Named.{segments}
use foxy.ParseUri.{parse_complete}
use foxy.ParseUri.Written.{Written, host_text, marked, port_text, user_text, print, parts, IsUri}
use foxy.ParseUri.RoundTrip.{parse_complete-print}

no_marks :
    (asked named : Option (List Item))
    → asked ≡ none
    → named ≡ none
    → marked b'?' asked ++ marked b'#' named ≡ []
no_marks none none e f = refl
no_marks none (some is) e f = cc
no_marks (some is) named e f = cc

print_join :
    (scheme user host port path old new : Text)
    → old ≡ []
    → (scheme ++ (codes "://" ++ (user ++ (host ++ (port ++ (path ++ old)))))) ++ new
      ≡ scheme ++ (codes "://" ++ (user ++ (host ++ (port ++ (path ++ new)))))
print_join scheme user host port path old new e = rw e (simp (append_assoc, append-nil))

-- Every ASCII code point, by evaluation.
all_below : ℕ → (ℕ → Bool) → Bool
all_below zero p = true
all_below (suc n) p = p n && all_below n p

all_below-some : (n : ℕ) (p : ℕ → Bool) (c : ℕ) → all_below n p ≡ true → c < n → p c ≡ true
unfolding all_below
all_below-some zero p c e h = absurd (omega arith)
all_below-some (suc n) p c e h = ground (arith, all_below-some n p c)

plain_allowed : ℕ → Bool
plain_allowed c = not (is_plain query_special c) || c == b'%' || is_query_char c

plain_table : all_below 127 plain_allowed ≡ true
unfolding all_below plain_allowed is_plain contains is_alpha is_digit in_set
plain_table = refl

hex_digit-is_xdigit : (d : ℕ) → d < 16 → is_xdigit (hex_digit d) ≡ true
unfolding hex_digit is_xdigit is_digit
hex_digit-is_xdigit d h = ground arith

hex_digit-IsAscii : (d : ℕ) → d < 16 → IsAscii (hex_digit d)
unfolding hex_digit
hex_digit-IsAscii d h = ground arith

-- What the encoder leaves as it is may stand in a query.
plain-Fits :
    (c : ℕ) → c ≢ b'%' → is_plain query_special c ≡ true → Fits is_query_char true (plain c)
unfolding plain_allowed
plain-Fits c n e =
    let small = is_plain-lt query_special c e in
    let allowed = all_below-some 127 plain_allowed c plain_table small in
    let other : (c == b'%') ≡ false = ground (arith, n) in
    (omega arith, n, rw (e, other) at allowed)

byte_items-Fits :
    (bytes : Text) → All (λ b. b < 256) bytes → All (Fits is_query_char true) (map byte_item bytes)
unfolding byte_item
byte_items-Fits [] h = tt
byte_items-Fits (b ∷ bytes) h =
    let low : b < 256 = h.0 in
    (
      (
        hex_digit-IsAscii (b / 16) (omega arith),
        hex_digit-IsAscii (b % 16) (omega arith),
        hex_digit-is_xdigit (b / 16) (omega arith),
        hex_digit-is_xdigit (b % 16) (omega arith),
        refl,
      ),
      byte_items-Fits bytes h.1,
    )

module _ (t : Utf) (k : Karma) (x : X3) where
  code_items-Fits :
      (c : ℕ) → IsText t k x c → All (Fits is_query_char true) (code_items t k query_special c)
  unfolding code_items
  code_items-Fits c h = elim (Bool-cases (is_plain query_special c)) [
    | inl e ↦ rw e (plain-Fits c h.1 e, tt)
    | inr e ↦ rw e (byte_items-Fits (t.encode c) (encode-bytes t k c h.0))
  ]

  pub text_items-Fits :
      (s : Text)
      → All (IsText t k x) s
      → All (Fits is_query_char true) (text_items t k query_special s)
  unfolding text_items
  text_items-Fits [] h = tt
  text_items-Fits (c ∷ s) h =
      All-append (Fits is_query_char true) (code_items t k query_special c)
        (text_items t k query_special s) (code_items-Fits c h.0) (text_items-Fits s h.1)

  pub encode_query-spell :
      (s : Text)
      → All (IsText t k x) s
      → encode_query t k s [] ≡ spell (text_items t k query_special s)
  unfolding encode_query
  encode_query-spell s h = encode_loop-spell t k query_special s [] (IsText-IsCodePoint t k x s h)

  -- The URI with such texts, encoded, for its query and fragment.
  abbrev pub carrying : Written → Text → Text → Text
  carrying u asked named =
      print u ++ (b'?' ∷ (encode_query t k asked [] ++ (b'#' ∷ encode_fragment t k named [])))

  -- Texts of Unicode code points with no percent sign, encoded behind a URI with an authority as its
  -- query and fragment, come back: the whole parses, with the other parts those of the URI, and
  -- decoding the two parts gives the UTF-8 of the texts and no error.
  pub carrying-decode :
      (u : Written) (asked named : Text)
      → IsUri u
      → u.query ≡ none
      → u.fragment ≡ none
      → All (IsText t k x) asked
      → All (IsText t k x) named
      → (p : UriParts) × (parse_complete x (carrying u asked named) no_parts ≡ some p)
        × (p ≡ record (parts u) { query = p.query; fragment = p.fragment })
        × (pct_decode x p.query [] ≡ (utf8_encode_range t asked [], none))
        × (pct_decode x p.fragment [] ≡ (utf8_encode_range t named [], none))
  unfolding encode_fragment
  carrying-decode u asked named h no_query no_fragment ha hn =
      let asks = text_items t k query_special asked in
      let names = text_items t k query_special named in
      let u' : Written = record u { query = some asks; fragment = some names } in
      let h' : IsUri u' = record {
        scheme = h.scheme;
        user = h.user;
        host = h.host;
        port = h.port;
        path = h.path;
        query = text_items-Fits asked ha;
        fragment = text_items-Fits named hn;
      } in
      let same : carrying u asked named ≡ print u' =
        print_join u.scheme (user_text u.user) (host_text u.host) (port_text u.port)
          (concat (segments u.path)) (marked b'?' u.query ++ marked b'#' u.fragment)
          (b'?' ∷ (encode_query t k asked [] ++ (b'#' ∷ encode_fragment t k named [])))
          (no_marks u.query u.fragment no_query no_fragment)
        ∙ ap
            (λ w.
              u.scheme
              ++ (codes "://"
                  ++ (user_text u.user
                      ++ (host_text u.host
                          ++ (port_text u.port ++ (concat (segments u.path) ++ w))))))
            (rw (encode_query-spell asked ha, encode_query-spell named hn)) in
      (
        parts u',
        rw same (parse_complete-print x u' h'),
        refl,
        rw (← encode_query-spell asked ha) (pct_decode-encode t k x asked ha).1,
        rw (← encode_query-spell named hn) (pct_decode-encode t k x named hn).1,
      )
