-- ===== src/ParseUri/Safe.antt =====
-- That the rules which the parser names are fit for the laws of X3.
use foxy.Base.{◌≡◌, refl, true, some, Text}
use foxy.X3.Library.{X3}
use foxy.X3.Progress.{is_safe}
use foxy.ParseUri.{Rules, standard_rules, unicode_rules}
use foxy.Uri.Standard
use foxy.Uri.Unicode

-- No rule loops over something that may match nothing.
pub record AreSafe (r : Rules) : Type 0 where
  pub scheme : is_safe r.scheme ≡ true
  pub userinfo : is_safe r.userinfo ≡ true
  pub host : is_safe r.host ≡ true
  pub port : is_safe r.port ≡ true
  pub path_abempty : is_safe r.path_abempty ≡ true
  pub path_empty : is_safe r.path_empty ≡ true
  pub query : is_safe r.query ≡ true
  pub fragment : is_safe r.fragment ≡ true
  pub matches_nothing : (x : X3) (s : Text) → x.parse r.path_empty s ≡ some s

pub standard-AreSafe : AreSafe standard_rules
unfolding is_safe Standard.scheme Standard.userinfo Standard.host Standard.port
    Standard.path_abempty Standard.path_empty Standard.query Standard.fragment
standard-AreSafe = record {
  scheme = refl;
  userinfo = refl;
  host = refl;
  port = refl;
  path_abempty = refl;
  path_empty = refl;
  query = refl;
  fragment = refl;
  matches_nothing = λ x s. x.repeat_done _ s;
}

pub unicode-AreSafe : AreSafe unicode_rules
unfolding is_safe Unicode.scheme Unicode.userinfo Unicode.host Unicode.port Unicode.path_abempty
    Unicode.path_empty Unicode.query Unicode.fragment
unicode-AreSafe = record {
  scheme = refl;
  userinfo = refl;
  host = refl;
  port = refl;
  path_abempty = refl;
  path_empty = refl;
  query = refl;
  fragment = refl;
  matches_nothing = λ x s. x.repeat_done _ s;
}
