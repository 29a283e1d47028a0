-- ===== src/Tunnel/Targets.antt =====
-- The tunnel with the parser: what becomes of a request whose target is written out.
use foxy.Base.{
  ℕ, ap, ◌∙◌, ◌≡◌, ◌≢◌, ◌⊎◌, inl, inr, false, not, Bool, none, some, [], ◌∷◌, ◌++◌, Text, codes,
  if◌then◌else◌,
}
use foxy.X3.Library.{X3}
use foxy.X3.Pieces.{concat}
use foxy.UriParts.{UriParts, is_absolute, is_http, is_empty, equal}
use foxy.Uri.Named.{segments}
use foxy.ParseUri.{parse_uri}
use foxy.ParseUri.Written.{Written, host_text, shown, digits, print, IsUri}
use foxy.ParseUri.Ascii.{parse_uri-print}
use foxy.Net.{ErrorCode, success, is_error}
use foxy.Tunnel.{Request, read_header, async_connect, relay, complete}
use foxy.Tunnel.Origin.{or_default, marked, default_path}
use foxy.Tunnel.Order.{AsksProxy}
use foxy.Tunnel.Requests.{report, served}
use foxy.Tunnel.Outcomes.{run-relay}

-- A host, a port, and nothing else.
pub record IsTarget (u : Written) (d : ℕ) (t : Text) : Type 0 where
  pub uri : IsUri u
  pub named : host_text u.host ≢ []
  pub user : u.user ≡ none
  pub port : u.port ≡ some (d ∷ t)
  pub path : u.path ≡ []
  pub query : u.query ≡ none
  pub fragment : u.fragment ≡ none

module _ (x : X3) (client_is_ssl : Bool) where
  -- One of the schemes of HTTP.
  abbrev pub IsHttp : Written → Type 0
  IsHttp u = (u.scheme ≡ codes "http") ⊎ (u.scheme ≡ codes "https")

  asks_proxy :
      (r : Request) (u : Written)
      → IsUri u
      → IsHttp u
      → u.fragment ≡ none
      → r.target ≡ print u
      → AsksProxy x client_is_ssl r
  unfolding is_absolute is_http is_empty equal
  asks_proxy r u h s f e =
      let named = ap (parse_uri x) e ∙ (parse_uri-print x u h).2 in
      let ends : shown u.fragment ≡ [] = ap shown f in
      elim s [
        | inl k ↦ (ap is_absolute named ∙ rw (k, ends), ap is_http named ∙ rw k)
        | inr k ↦ (ap is_absolute named ∙ rw (k, ends), ap is_http named ∙ rw k)
      ]

  abbrev pub written_request : Request → Written → Request
  written_request r u = record r {
    target =
        or_default (concat (segments u.path)) (default_path r.method)
        ++ marked b'?' (shown u.query);
    keep_alive = false;
    host = some (host_text u.host ++ marked b':' (digits u.port));
  }

  -- A request whose target is written as a URI of HTTP with no fragment is connected to the host of
  -- that URI and to its port, or the service that the proxy's client sessions use, and relayed with
  -- the path and the query of the URI for a target, its host and port for the Host field, and without
  -- persistence; no user information goes out. The tunnel completes with the code of the relay.
  pub run-written_uri :
      (r : Request) (u : Written) (ec : ErrorCode)
      → IsUri u
      → IsHttp u
      → u.fragment ≡ none
      → r.target ≡ print u
      → (served x client_is_ssl r (report success ∷ report ec ∷ [])).trace
        ≡ complete ec (not (is_error ec))
          ∷ relay (written_request r u)
          ∷ async_connect
              (host_text u.host)
              (or_default (digits u.port) (if client_is_ssl then codes "https" else codes "http"))
          ∷ read_header
          ∷ []
  run-written_uri r u ec h s f e =
      run-relay x client_is_ssl r ec (asks_proxy r u h s f e)
      ∙ ap
          (λ (p : UriParts).
            complete ec (not (is_error ec))
            ∷ relay (record r {
              target = or_default p.path (default_path r.method) ++ marked b'?' p.query;
              keep_alive = false;
              host = some (p.host ++ marked b':' p.port);
            })
            ∷ async_connect p.host
                (or_default p.port (if client_is_ssl then codes "https" else codes "http"))
            ∷ read_header
            ∷ [])
          (ap (parse_uri x) e ∙ (parse_uri-print x u h).2)
