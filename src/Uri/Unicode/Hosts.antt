-- ===== src/Uri/Unicode/Hosts.antt =====
-- include/foxy/uri.hpp, namespace foxy::uri::unicode: registered names and addresses.
use foxy.Base.{codes}
use foxy.X3.Grammar.{
  Grammar, between, char_class, char_set, digit, exactly, lit, opt, plus, star, xdigit, ◌>>◌, ◌<|>◌,
  unicode,
}
use foxy.Uri.Unicode.Chars.{sub_delims, unreserved, pct_encoded}

unfoldable pub reg_name : Grammar
unfolding sub_delims unreserved pct_encoded
reg_name = star (unreserved <|> pct_encoded <|> sub_delims)

unfoldable pub dec_octet : Grammar
dec_octet =
    lit (codes "25") >> char_set (codes "0-5")
    <|> lit (codes "2") >> char_set (codes "0-4") >> char_class unicode digit
    <|> lit (codes "1") >> exactly 2 (char_class unicode digit)
    <|> char_set (codes "1-9") >> char_class unicode digit
    <|> char_class unicode digit

unfoldable pub ip_v4_address : Grammar
unfolding dec_octet
ip_v4_address =
    dec_octet
    >> lit (codes ".")
    >> dec_octet
    >> lit (codes ".")
    >> dec_octet
    >> lit (codes ".")
    >> dec_octet

unfoldable pub h16 : Grammar
h16 = between 1 4 (char_class unicode xdigit)

unfoldable pub ls32 : Grammar
unfolding ip_v4_address h16
ls32 = h16 >> lit (codes ":") >> h16 <|> ip_v4_address

unfoldable pub ip_v6_address : Grammar
unfolding h16 ls32
ip_v6_address =
    exactly 6 (h16 >> lit (codes ":")) >> ls32
    <|> lit (codes "::") >> exactly 5 (h16 >> lit (codes ":")) >> ls32
    <|> opt h16 >> lit (codes "::") >> exactly 4 (h16 >> lit (codes ":")) >> ls32
    <|> opt (between 0 1 (h16 >> lit (codes ":")) >> h16)
      >> lit (codes "::")
      >> exactly 3 (h16 >> lit (codes ":"))
      >> ls32
    <|> opt (h16 >> between 0 2 (lit (codes ":") >> h16))
      >> lit (codes "::")
      >> (ls32 >> exactly 2 (lit (codes ":") >> h16))
    <|> opt (h16 >> between 0 3 (lit (codes ":") >> h16))
      >> lit (codes "::")
      >> h16
      >> lit (codes ":")
      >> ls32
    <|> opt (h16 >> between 0 4 (lit (codes ":") >> h16)) >> lit (codes "::") >> ls32
    <|> opt (h16 >> between 0 5 (lit (codes ":") >> h16)) >> lit (codes "::") >> h16
    <|> opt (h16 >> between 0 6 (lit (codes ":") >> h16)) >> lit (codes "::")

unfoldable pub ip_vfuture : Grammar
unfolding sub_delims unreserved
ip_vfuture =
    lit (codes "v")
    >> plus (char_class unicode xdigit)
    >> lit (codes ".")
    >> plus (unreserved <|> sub_delims <|> lit (codes ":"))

unfoldable pub ip_literal : Grammar
unfolding ip_v6_address ip_vfuture
ip_literal = lit (codes "[") >> (ip_v6_address <|> ip_vfuture) >> lit (codes "]")
