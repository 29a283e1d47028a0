-- ===== src/ParseUri/Complete.antt =====
-- The two overloads of parse_complete.
use foxy.Base.{◌≡◌, some, Text}
use foxy.X3.Library.{X3}
use foxy.UriParts.{UriParts, no_parts}
use foxy.ParseUri.{standard_rules, unicode_rules, parse_complete, parse_complete_u32}
use foxy.ParseUri.Safe.{standard-AreSafe, unicode-AreSafe}
use foxy.ParseUri.Rebuild.{Rebuilds, complete_by-Rebuilds}

-- Where the char overload succeeds, the text is the scheme, a colon, and the hier-part, the query
-- and the fragment that the parts hold: the hier-part is empty, with no host, or it is two slashes,
-- perhaps a userinfo with its at sign, the host, perhaps a colon and the port, and the path. So no
-- character is lost but the userinfo's.
pub parse_complete-Rebuilds :
    (x : X3) (uri : Text) (q : UriParts)
    → parse_complete x uri no_parts ≡ some q
    → Rebuilds x standard_rules standard-AreSafe uri q
unfolding parse_complete
parse_complete-Rebuilds x uri q e = complete_by-Rebuilds x standard_rules standard-AreSafe uri q e

-- The same for the char32_t overload.
pub parse_complete_u32-Rebuilds :
    (x : X3) (uri : Text) (q : UriParts)
    → parse_complete_u32 x uri no_parts ≡ some q
    → Rebuilds x unicode_rules unicode-AreSafe uri q
unfolding parse_complete_u32
parse_complete_u32-Rebuilds x uri q e = complete_by-Rebuilds x unicode_rules unicode-AreSafe uri q e
