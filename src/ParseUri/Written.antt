-- ===== src/ParseUri/Written.antt =====
-- URIs with an authority, taken apart, and the text that is written for one.
use foxy.Base.{
  ℕ, ◌≡◌, Bool, true, Option, none, some, List, [], ◌∷◌, ◌++◌, ◌⊎◌, length, false, ◌+◌, ◌≤◌, Text,
  codes, All,
}
use foxy.X3.Grammar.{is_alpha, is_digit}
use foxy.X3.Ascii.{IsAscii}
use foxy.X3.Pieces.{concat}
use foxy.Pct.Decode.Meaning.{Item, spell}
use foxy.UriParts.{UriParts}
use foxy.Uri.Items.{Fits}
use foxy.Uri.Spelt.{IsPlain}
use foxy.Uri.Unaddressed.{NoAddress}
use foxy.Uri.Literals.{IsGroup, literal_text}
use foxy.Uri.Compressed.{compressed_text, is_misread}
use foxy.Uri.Mapped.{mapped_text, embedded_text, is_mapped_misread}
use foxy.Uri.Named.{segments, IsAddress}
use foxy.Uri.Characters.{is_name_char, is_user_char, is_pchar, is_query_char, is_scheme_char}

-- A registered name, or an IPv4 address written as one; or an IPv6 address with all its groups, or
-- with two colons for those that are left out, and each with an IPv4 address for the last two.
pub data Host : Type 0 where
  name : List Item → Host
  literal : List Text → Text → Text → Host
  compressed : List Text → List Text → Host
  mapped : List Text → List Text → Text → Host
  embedded : List Text → Text → Host

abbrev pub host_text : Host → Text
host_text (name is) = spell is
host_text (literal gs a b) = literal_text gs a b
host_text (compressed ks ms) = compressed_text ks ms
host_text (mapped ks ms v) = mapped_text ks ms v
host_text (embedded gs v) = embedded_text gs v

-- Behind the scheme all is made of characters and percent pairs. A mark such as ":" may stand with
-- nothing behind it, which is `some []`.
pub record Written : Type 0 where
  pub scheme : Text
  pub user : Option (List Item)
  pub host : Host
  pub port : Option Text
  pub path : List (List Item)
  pub query : Option (List Item)
  pub fragment : Option (List Item)

-- What stands behind a mark, or nothing.
abbrev pub shown : Option (List Item) → Text
shown none = []
shown (some is) = spell is

abbrev pub digits : Option Text → Text
digits none = []
digits (some t) = t

abbrev pub marked : ℕ → Option (List Item) → Text
marked mark none = []
marked mark (some is) = mark ∷ spell is

abbrev pub port_text : Option Text → Text
port_text none = []
port_text (some t) = b':' ∷ t

abbrev pub user_text : Option (List Item) → Text
user_text none = []
user_text (some is) = spell is ++ codes "@"

-- What follows the host.
abbrev pub tail_text : Written → Text
tail_text u =
    port_text u.port
    ++ (concat (segments u.path) ++ (marked b'?' u.query ++ marked b'#' u.fragment))

-- The authority, and what follows it.
abbrev pub authority_text : Written → Text
authority_text u = user_text u.user ++ (host_text u.host ++ tail_text u)

-- RFC 3986, section 5.3, for a reference with a scheme and an authority.
abbrev pub print : Written → Text
print u = u.scheme ++ (codes "://" ++ authority_text u)

-- The parts that the parser is to hand out; it has no place for user information.
abbrev pub parts : Written → UriParts
parts u = record {
  scheme = u.scheme;
  host = host_text u.host;
  port = digits u.port;
  path = concat (segments u.path);
  query = shown u.query;
  fragment = shown u.fragment;
}

-- The scheme begins with a letter.
abbrev pub IsScheme : Text → Type 0
IsScheme [] = ⊥
IsScheme (c ∷ t) = IsAscii c × (is_alpha c ≡ true) × All (IsPlain is_scheme_char) t

abbrev pub AllFit : (ℕ → Bool) → Option (List Item) → Type 0
AllFit test none = Unit
AllFit test (some is) = All (Fits test true) is

abbrev pub IsHost : Host → Type 0
IsHost (name is) = All (Fits is_name_char true) is × (NoAddress (spell is) ⊎ IsAddress (spell is))
IsHost (literal gs a b) = (length gs ≡ 6) × All IsGroup gs × IsGroup a × IsGroup b
IsHost (compressed ks ms) =
    All IsGroup ks × All IsGroup ms × (length ks + length ms ≤ 7) × (is_misread ks ms ≡ false)
IsHost (mapped ks ms v) =
    All IsGroup ks
    × All IsGroup ms
    × IsAddress v
    × (length ks + length ms ≤ 5)
    × (is_mapped_misread ks ms ≡ false)
IsHost (embedded gs v) = All IsGroup gs × (length gs ≡ 6) × IsAddress v

abbrev pub IsPort : Option Text → Type 0
IsPort none = Unit
IsPort (some t) = All (IsPlain is_digit) t

-- The parts are made of the characters that their rules take, and the host is an IPv4 address, a
-- registered name with no IPv4 address at its front, or an IPv6 address in brackets.
-- That has eight groups, or fewer with two colons between them, where the last two may be an IPv4
-- address; but not one group in front of the colons and five behind, of which the IPv4 address counts as
-- two, nor two groups between the colons and an IPv4 address.
pub record IsUri (u : Written) : Type 0 where
  pub scheme : IsScheme u.scheme
  pub user : AllFit is_user_char u.user
  pub host : IsHost u.host
  pub port : IsPort u.port
  pub path : All (All (Fits is_pchar true)) u.path
  pub query : AllFit is_query_char u.query
  pub fragment : AllFit is_query_char u.fragment
