-- ===== src/Uri/Unicode/Whole.antt =====
-- include/foxy/uri.hpp, namespace foxy::uri::unicode: authority, scheme and whole references.
use foxy.Base.{codes}
use foxy.X3.Grammar.{
  Grammar, alpha, char_class, char_set, digit, lit, opt, star, ◌>>◌, ◌<|>◌, unicode,
}
use foxy.Uri.Unicode.Hosts.{reg_name, ip_v4_address, ip_literal}
use foxy.Uri.Unicode.Chars.{sub_delims, unreserved, pct_encoded}
use foxy.Uri.Unicode.Paths.{
  query, fragment, path_empty, path_rootless, path_noscheme, path_absolute, path_abempty,
}

unfoldable pub port : Grammar
port = star (char_class unicode digit)

unfoldable pub host : Grammar
unfolding reg_name ip_v4_address ip_literal
host = ip_literal <|> ip_v4_address <|> reg_name

unfoldable pub userinfo : Grammar
unfolding sub_delims unreserved pct_encoded
userinfo = star (unreserved <|> pct_encoded <|> sub_delims <|> lit (codes ":"))

unfoldable pub authority : Grammar
unfolding port host userinfo
authority = opt (userinfo >> lit (codes "@")) >> host >> opt (lit (codes ":") >> port)

unfoldable pub scheme : Grammar
scheme =
    char_class unicode alpha
    >> star (char_class unicode alpha <|> char_class unicode digit <|> char_set (codes "+-."))

unfoldable pub relative_part : Grammar
unfolding path_empty path_noscheme path_absolute path_abempty authority
relative_part =
    lit (codes "//") >> authority >> path_abempty <|> path_absolute <|> path_noscheme <|> path_empty

unfoldable pub relative_ref : Grammar
unfolding query fragment relative_part
relative_ref = relative_part >> opt (lit (codes "?") >> query) >> opt (lit (codes "#") >> fragment)

unfoldable pub hier_part : Grammar
unfolding path_empty path_rootless path_absolute path_abempty authority
hier_part =
    lit (codes "//") >> authority >> path_abempty <|> path_absolute <|> path_rootless <|> path_empty

unfoldable pub uri : Grammar
unfolding query fragment scheme hier_part
uri =
    scheme
    >> lit (codes ":")
    >> hier_part
    >> opt (lit (codes "?") >> query)
    >> opt (lit (codes "#") >> fragment)

unfoldable pub absolute_uri : Grammar
unfolding query scheme hier_part
absolute_uri = scheme >> lit (codes ":") >> hier_part >> opt (lit (codes "?") >> query)

unfoldable pub uri_reference : Grammar
unfolding relative_ref uri
uri_reference = uri <|> relative_ref
