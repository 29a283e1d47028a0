-- ===== src/ParseUri.antt =====
-- src/parse_uri.cpp. A parser that returns false leaves parts behind that parse_uri throws away, so
-- false is `none` here. The two encodings share one body, over the rules that they name.
pub mod Safe
pub mod Pieces
pub mod Rebuild
pub mod Paths
pub mod Complete
pub mod Encodings
pub mod Written
pub mod Printed
pub mod Tails
pub mod AsciiText
pub mod UserInfo
pub mod RoundTrip
pub mod Colon
pub mod Ascii
pub mod Carried
pub mod Authority
use foxy.Base.{Option, none, some, ◌>>=◌, ◌or_else◌, [], ◌∷◌, Text, codes}
use foxy.X3.Grammar.{Grammar, lit, opt, ◌>>◌}
use foxy.X3.Library.{X3}
use foxy.Uri.Raw.{raw, parse_raw, parse_opt_raw}
use foxy.Uri.Standard
use foxy.Uri.Unicode
use foxy.UriParts.{UriParts, no_parts}

pub record Rules : Type 0 where
  pub scheme : Grammar
  pub userinfo : Grammar
  pub host : Grammar
  pub port : Grammar
  pub path_abempty : Grammar
  pub path_empty : Grammar
  pub query : Grammar
  pub fragment : Grammar

abbrev pub standard_rules : Rules
standard_rules = record {
  scheme = Standard.scheme;
  userinfo = Standard.userinfo;
  host = Standard.host;
  port = Standard.port;
  path_abempty = Standard.path_abempty;
  path_empty = Standard.path_empty;
  query = Standard.query;
  fragment = Standard.fragment;
}

abbrev pub unicode_rules : Rules
unicode_rules = record {
  scheme = Unicode.scheme;
  userinfo = Unicode.userinfo;
  host = Unicode.host;
  port = Unicode.port;
  path_abempty = Unicode.path_abempty;
  path_empty = Unicode.path_empty;
  query = Unicode.query;
  fragment = Unicode.fragment;
}

-- return iter == end.
unfoldable pub at_end : UriParts → Text → Option UriParts
at_end parts [] = some parts
at_end parts (c ∷ iter) = none

module _ (x : X3) (r : Rules) where
  abbrev pub userinfo_at : Grammar
  userinfo_at = opt (r.userinfo >> lit (codes "@"))

  -- After a host: the port, then the path-abempty portion of the hier-part.
  unfoldable pub after_host : UriParts → Text → Option (UriParts × Text)
  unfolding raw parse_opt_raw
  after_host parts iter = do
    let p = parse_opt_raw x (lit (codes ":")) r.port parts.port iter
    (path, iter') ← raw x r.path_abempty p.1
    some (record parts { port = p.0; path = path }, iter')

  -- The query and the fragment; then the input has to be used up.
  unfoldable pub finish : UriParts → Text → Option UriParts
  unfolding parse_opt_raw at_end
  finish parts iter =
      let q = parse_opt_raw x (lit (codes "?")) r.query parts.query iter in
      let f = parse_opt_raw x (lit (codes "#")) r.fragment parts.fragment q.1 in
      at_end (record parts { query = q.0; fragment = f.0 }) f.1

  -- The authority form of the hier-part, or an empty path.
  unfoldable pub hier_by : UriParts → Text → Option (UriParts × Text)
  unfolding after_host raw parse_raw
  hier_by parts old = elim (parse_raw x (lit (codes "//") >> userinfo_at) r.host (lit []) old) [
    | some (host, iter) ↦ after_host (record parts { host = host }) iter
    | none ↦ do (path, iter) ← raw x r.path_empty old; some (record parts { path = path }, iter)
  ]

  unfoldable pub complete_by : UriParts → Text → Option UriParts
  unfolding hier_by finish parse_raw
  complete_by parts uri = do
    (scheme, old) ← parse_raw x (lit []) r.scheme (lit (codes ":")) uri
    (parts', iter) ← hier_by (record parts { scheme = scheme }) old
    finish parts' iter

  unfoldable pub authority_by : UriParts → Text → Option UriParts
  unfolding after_host finish parse_raw
  authority_by parts uri = do
    (host, iter) ← parse_raw x userinfo_at r.host (lit []) uri
    (parts', iter') ← after_host (record parts { host = host }) iter
    finish parts' iter'

  unfoldable pub parse_by : Text → UriParts
  unfolding complete_by authority_by
  parse_by uri = elim (complete_by no_parts uri or_else authority_by no_parts uri) [
    | some parts ↦ parts
    | none ↦ no_parts
  ]

module _ (x : X3) where
  -- The overloads for char.
  unfoldable pub parse_complete : Text → UriParts → Option UriParts
  unfolding complete_by
  parse_complete uri parts = complete_by x standard_rules parts uri

  unfoldable pub parse_authority : Text → UriParts → Option UriParts
  unfolding authority_by
  parse_authority uri parts = authority_by x standard_rules parts uri

  unfoldable pub parse_uri : Text → UriParts
  unfolding parse_by
  parse_uri uri = parse_by x standard_rules uri

  -- The overloads for char32_t.
  unfoldable pub parse_complete_u32 : Text → UriParts → Option UriParts
  unfolding complete_by
  parse_complete_u32 uri parts = complete_by x unicode_rules parts uri

  unfoldable pub parse_authority_u32 : Text → UriParts → Option UriParts
  unfolding authority_by
  parse_authority_u32 uri parts = authority_by x unicode_rules parts uri

  unfoldable pub parse_uri_u32 : Text → UriParts
  unfolding parse_by
  parse_uri_u32 uri = parse_by x unicode_rules uri
