-- ===== src/Tests/Vectors.antt =====
-- Cases of test/parse_uri_test.cpp and test/pct_decode_test.cpp, run on the model.
use foxy.Base.{◌≡◌, refl, Bool, true, false, none, some, [], ◌∷◌, codes}
use foxy.X3.Reference.{reference}
use foxy.Uri.Standard
use foxy.UriParts.{UriParts, no_parts, is_http, is_authority, is_absolute}
use foxy.ParseUri.{parse_uri}
use foxy.Pct.Decode.{unexpected_pct, pct_decode}

-- The three predicates.
abbrev flags : UriParts → Bool × Bool × Bool
flags u = (is_http u, is_authority u, is_absolute u)

abbrev empty_url : UriParts
empty_url = record no_parts { scheme = codes "http" }

empty_url-parse_uri :
    (parse_uri reference (codes "http:") ≡ empty_url) × (flags empty_url ≡ (true, false, true))
unfolding parse_uri is_http is_authority is_absolute reference Standard.scheme Standard.userinfo
    Standard.host Standard.path_abempty Standard.port Standard.query Standard.fragment
    Standard.path_empty
empty_url-parse_uri = (refl, refl)

abbrev wonky : UriParts
wonky = record {
  scheme = codes "foof";
  host = codes "[::]";
  port = [];
  path = codes "/@;:";
  query = codes "?:;@/~@;://";
  fragment = codes "//:;@~/@;:??//:foof";
}

wonky-parse_uri :
    (parse_uri reference (codes "foof://:;@[::]/@;:??:;@/~@;://#//:;@~/@;:??//:foof") ≡ wonky)
    × (flags wonky ≡ (false, false, false))
unfolding parse_uri is_http is_authority is_absolute reference Standard.scheme Standard.userinfo
    Standard.host Standard.path_abempty Standard.port Standard.query Standard.fragment
    Standard.path_empty
wonky-parse_uri = (refl, refl)

abbrev partial : UriParts
partial = record no_parts { host = codes "www.example.com"; port = codes "80" }

partial-parse_uri :
    (parse_uri reference (codes "www.example.com:80") ≡ partial)
    × (flags partial ≡ (false, true, false))
unfolding parse_uri is_http is_authority is_absolute reference Standard.scheme Standard.userinfo
    Standard.host Standard.path_abempty Standard.port Standard.query Standard.fragment
    Standard.path_empty
partial-parse_uri = (refl, refl)

encoded_spaces-pct_decode : pct_decode reference (codes "hello%20world!%0a") [] ≡ (
  b'h' ∷ b'e' ∷ b'l' ∷ b'l' ∷ b'o' ∷ b' ' ∷ b'w' ∷ b'o' ∷ b'r' ∷ b'l' ∷ b'd' ∷ b'!' ∷ 10 ∷ [],
  none,
)
unfolding pct_decode reference
encoded_spaces-pct_decode = refl

misc-pct_decode :
    pct_decode reference (codes "%23%2f%3c%3e%3f%40%5b%5d%5e%60%7b%7c%7d") []
    ≡ (codes "#/<>?@[]^`{|}", none)
unfolding pct_decode reference
misc-pct_decode = refl

malformed-pct_decode :
    pct_decode reference (codes "www.goo%%%%gle.com") [] ≡ (codes "www.goo", some unexpected_pct)
unfolding pct_decode reference
malformed-pct_decode = refl

incomplete-pct_decode :
    (pct_decode reference (codes "%2") [] ≡ ([], some unexpected_pct))
    × (pct_decode reference (codes "%zz") [] ≡ ([], some unexpected_pct))
    × (pct_decode reference (codes "%1g") [] ≡ ([], some unexpected_pct))
unfolding pct_decode reference
incomplete-pct_decode = (refl, refl, refl)
