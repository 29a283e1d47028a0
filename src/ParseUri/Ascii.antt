-- ===== src/ParseUri/Ascii.antt =====
-- What is written for a URI is an ASCII text, so every overload of the parser reads it alike.
use foxy.Base.{◌≡◌, sym, ◌∙◌, some}
use foxy.X3.Library.{X3}
use foxy.UriParts.{no_parts}
use foxy.ParseUri.{parse_by, parse_uri, parse_uri_u32, parse_complete, parse_complete_u32}
use foxy.ParseUri.Encodings.{parse_uri-agree}
use foxy.ParseUri.Written.{Written, print, parts, IsUri}
use foxy.ParseUri.RoundTrip.{parse_complete-print}
use foxy.ParseUri.AsciiText.{print-IsAscii}

-- The text that is written for a URI with an authority is parsed to the parts of that URI, by
-- parse_complete and by parse_uri, for char and for char32_t. Its host is an IPv4 address, a registered
-- name with no IPv4 address at its front, or an IPv6 address in brackets. That has
-- eight groups, or fewer with two colons between them, where the last two may be an IPv4 address; but
-- not one group in front of the colons and five behind, of which the IPv4 address counts as two, nor two
-- groups between the colons and an IPv4 address.
pub parse_uri-print :
    (x : X3) (u : Written)
    → IsUri u
    → (parse_complete x (print u) no_parts ≡ some (parts u))
      × (parse_complete_u32 x (print u) no_parts ≡ some (parts u))
      × (parse_uri x (print u) ≡ parts u)
      × (parse_uri_u32 x (print u) ≡ parts u)
unfolding parse_uri parse_complete parse_by
parse_uri-print x u h =
    let whole = parse_complete-print x u h in
    let (same, _, same') = parse_uri-agree x (print u) (print-IsAscii u h) in
    let found : parse_uri x (print u) ≡ parts u = rw (whole, parse_by) in
    (whole, sym same ∙ whole, found, sym same' ∙ found)
