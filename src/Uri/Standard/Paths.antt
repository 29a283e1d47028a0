-- ===== src/Uri/Standard/Paths.antt =====
-- include/foxy/uri.hpp, namespace foxy::uri: query, fragment, segments and paths.
use foxy.Base.{codes}
use foxy.X3.Grammar.{Grammar, char_set, exactly, lit, opt, plus, star, ◌>>◌, ◌<|>◌}
use foxy.Uri.Standard.Chars.{sub_delims, unreserved, pct_encoded, pchar}

unfoldable pub query : Grammar
unfolding pchar
query = star (pchar <|> char_set (codes "/?"))

unfoldable pub fragment : Grammar
unfolding pchar
fragment = star (pchar <|> char_set (codes "/?"))

unfoldable pub segment : Grammar
unfolding pchar
segment = star pchar

unfoldable pub segment_nz : Grammar
unfolding pchar
segment_nz = plus pchar

unfoldable pub segment_nz_nc : Grammar
unfolding sub_delims unreserved pct_encoded
segment_nz_nc = plus (unreserved <|> pct_encoded <|> sub_delims <|> lit (codes "@"))

unfoldable pub path_empty : Grammar
unfolding pchar
path_empty = exactly 0 pchar

unfoldable pub path_rootless : Grammar
unfolding segment segment_nz
path_rootless = segment_nz >> star (lit (codes "/") >> segment)

unfoldable pub path_noscheme : Grammar
unfolding segment segment_nz_nc
path_noscheme = segment_nz_nc >> star (lit (codes "/") >> segment)

unfoldable pub path_absolute : Grammar
unfolding segment segment_nz
path_absolute = char_set (codes "/") >> opt (segment_nz >> star (lit (codes "/") >> segment))

unfoldable pub path_abempty : Grammar
unfolding segment
path_abempty = star (char_set (codes "/") >> segment)

unfoldable pub path : Grammar
unfolding path_empty path_rootless path_noscheme path_absolute path_abempty
path = path_abempty <|> path_absolute <|> path_noscheme <|> path_rootless <|> path_empty
