-- ===== src/Uri/Unicode/Chars.antt =====
-- include/foxy/uri.hpp, namespace foxy::uri::unicode: the character rules.
use foxy.Base.{codes}
use foxy.X3.Grammar.{Grammar, alpha, char_class, char_set, digit, lit, xdigit, ◌>>◌, ◌<|>◌, unicode}

unfoldable pub sub_delims : Grammar
sub_delims = char_set (codes "!$&'()*+,;=")

unfoldable pub gen_delims : Grammar
gen_delims = char_set (codes ":/?#[]@")

unfoldable pub reserved : Grammar
unfolding sub_delims gen_delims
reserved = gen_delims <|> sub_delims

unfoldable pub unreserved : Grammar
unreserved = char_class unicode alpha <|> char_class unicode digit <|> char_set (codes "-._~")

unfoldable pub pct_encoded : Grammar
pct_encoded = lit (codes "%") >> char_class unicode xdigit >> char_class unicode xdigit

unfoldable pub pchar : Grammar
unfolding sub_delims unreserved pct_encoded
pchar = unreserved <|> pct_encoded <|> sub_delims <|> char_set (codes ":@")
