-- ===== src/X3/Grammar.antt =====
-- The X3 expressions of include/foxy/uri.hpp, pct_decode.hpp and detail/has_token.hpp as data.
use foxy.Base.{
  ℕ, ◌+◌, ◌-◌, Bool, false, ◌||◌, ◌&&◌, [], ◌∷◌, Option, none, some, leb, ◌==◌, if◌then◌else◌, Text,
}

pub data Class : Type 0 where
  alpha digit xdigit : Class

-- The namespaces x3::standard, which x3 itself passes on, and x3::unicode.
pub data Encoding : Type 0 where
  standard unicode : Encoding

infixl 60 ◌>>◌
infixl 55 ◌<|>◌
infixl 65 ◌but_not◌
pub data Grammar : Type 0 where
  lit : Text → Grammar
  no_case_lit : Text → Grammar
  char_set : Text → Grammar
  char_class : Encoding → Class → Grammar
  any_char : Grammar
  ◌>>◌ : Grammar → Grammar → Grammar
  ◌<|>◌ : Grammar → Grammar → Grammar
  ◌but_not◌ : Grammar → Grammar → Grammar
  star : Grammar → Grammar
  plus : Grammar → Grammar
  opt : Grammar → Grammar
  repeat : ℕ → ℕ → Grammar → Grammar

-- x3::repeat(n)[p] and x3::repeat(lo, hi)[p].
abbrev pub exactly : ℕ → Grammar → Grammar
exactly n p = repeat n 0 p

abbrev pub between : ℕ → ℕ → Grammar → Grammar
between lo hi p = repeat lo (hi - lo) p

-- The set that a definition such as "a-z_" names: `lo-hi` is a range, a last `-` is itself.
unfoldable pub in_set : Text → ℕ → Bool
in_set [] c = false
in_set (lo ∷ []) c = c == lo
in_set (lo ∷ d ∷ []) c = c == lo || c == d
in_set (lo ∷ d ∷ hi ∷ rest) c =
    let range = in_set (hi ∷ rest) c in
    let single = in_set (d ∷ hi ∷ rest) c in
    if d == b'-' then leb lo c && leb c hi || range else c == lo || single

-- One character of which the test holds.
unfoldable pub one : (ℕ → Bool) → Text → Option Text
one test [] = none
one test (c ∷ s) = if test c then some s else none

-- What follows the literal `t` in the input.
unfoldable pub strip : Text → Text → Option Text
strip [] s = some s
strip (t ∷ ts) [] = none
strip (t ∷ ts) (c ∷ s) = let rest = strip ts s in if c == t then rest else none

unfoldable pub is_digit : ℕ → Bool
is_digit c = leb b'0' c && leb c b'9'

unfoldable pub is_alpha : ℕ → Bool
is_alpha c = leb b'a' c && leb c b'z' || leb b'A' c && leb c b'Z'

unfoldable pub is_xdigit : ℕ → Bool
unfolding is_digit
is_xdigit c = is_digit c || leb b'a' c && leb c b'f' || leb b'A' c && leb c b'F'

-- The three classes over ASCII.
unfoldable pub ascii_class : Class → ℕ → Bool
unfolding is_digit is_alpha is_xdigit
ascii_class alpha c = is_alpha c
ascii_class digit c = is_digit c
ascii_class xdigit c = is_xdigit c

-- The lower-case form of an ASCII letter; any other character is left as it is.
unfoldable pub to_lower : ℕ → ℕ
to_lower c = if leb b'A' c && leb c b'Z' then c + 32 else c

unfoldable pub strip_no_case : Text → Text → Option Text
unfolding to_lower
strip_no_case [] s = some s
strip_no_case (t ∷ ts) [] = none
strip_no_case (t ∷ ts) (c ∷ s) =
    let rest = strip_no_case ts s in if to_lower c == to_lower t then rest else none

-- x3::no_case[g], for the expressions that foxy puts under it: the literals ignore case.
unfoldable pub no_case : Grammar → Grammar
no_case (lit t) = no_case_lit t
no_case (p >> q) = no_case p >> no_case q
no_case (p <|> q) = no_case p <|> no_case q
no_case (p but_not q) = no_case p but_not no_case q
no_case (star p) = star (no_case p)
no_case (plus p) = plus (no_case p)
no_case (opt p) = opt (no_case p)
no_case (repeat lo extra p) = repeat lo extra (no_case p)
no_case g = g
