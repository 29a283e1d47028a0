-- ===== src/UriParts.antt =====
-- include/foxy/uri_parts.hpp: foxy::basic_uri_parts. A string_view is the text that it shows.
use foxy.Base.{Bool, true, false, not, ◌&&◌, ◌||◌, [], ◌∷◌, ◌==◌, Text, codes}

pub record UriParts : Type 0 where
  pub scheme : Text
  pub host : Text
  pub port : Text
  pub path : Text
  pub query : Text
  pub fragment : Text

-- The default constructor.
abbrev pub no_parts : UriParts
no_parts = record { scheme = []; host = []; port = []; path = []; query = []; fragment = [] }

unfoldable pub is_empty : Text → Bool
is_empty [] = true
is_empty (c ∷ s) = false

-- operator== of string_view.
unfoldable pub equal : Text → Text → Bool
equal [] [] = true
equal [] (d ∷ t) = false
equal (c ∷ s) [] = false
equal (c ∷ s) (d ∷ t) = c == d && equal s t

unfoldable pub is_http : UriParts → Bool
unfolding equal
is_http u = equal u.scheme (codes "http") || equal u.scheme (codes "https")

unfoldable pub is_authority : UriParts → Bool
unfolding is_empty
is_authority u =
    is_empty u.scheme
    && not (is_empty u.host)
    && is_empty u.path
    && is_empty u.query
    && is_empty u.fragment

unfoldable pub is_absolute : UriParts → Bool
unfolding is_empty
is_absolute u = not (is_empty u.scheme) && is_empty u.fragment
