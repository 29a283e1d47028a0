-- ===== src/Tests/Turns.antt =====
-- A client of the proxy that keeps its connection.
use foxy.Base.{◌≡◌, refl, true, false, none, some, [], ◌∷◌, codes}
use foxy.X3.Reference.{reference}
use foxy.Net.{success}
use foxy.UriParts.{is_absolute, is_http}
use foxy.ParseUri.{parse_uri}
use foxy.Fields.Reference.{beast_reference}
use foxy.Uri.Standard
use foxy.Tunnel.{other_verb, Request, read_header, malformed, is_connect}
use foxy.Tunnel.Order.{AsksTunnel, AsksProxy, refusal}
use foxy.Tunnel.Requests.{report, next, served}
use foxy.Proxy.Connection.{async_tunnel, async_relay, tunnelling, initial}
use foxy.Proxy.Rounds.{Round, rounds, IsServed, rounds-served}
use foxy.Tests.Outcomes.{tunnelled, tunnelled-AsksTunnel}
use foxy.Tests.Relaying.{semantics, asked, answered, asked-IsRelayed, answered-IsRelayed}

abbrev origin : Request
origin = record { target = codes "/c"; method = other_verb 1; keep_alive = true; host = none }

origin-tunnel : AsksTunnel reference true origin → ⊥
unfolding is_connect
origin-tunnel (c, a) = cc

origin-proxy : AsksProxy reference true origin → ⊥
unfolding parse_uri is_absolute is_http reference Standard.scheme Standard.userinfo Standard.host
    Standard.path_abempty Standard.port Standard.query Standard.fragment
origin-proxy (a, h) = cc

abbrev round : Round
round = record { connect = tunnelled; is_tls = some false; request = asked; response = answered }

round-IsServed : IsServed beast_reference reference semantics true round
round-IsServed = record {
  connect = tunnelled-AsksTunnel;
  keep_alive = refl;
  request = asked-IsRelayed;
  response = answered-IsRelayed;
}

rounds-served_example :
    (rounds beast_reference reference semantics true (round ∷ round ∷ []) initial
      ≡ some (record {
        point = tunnelling;
        trace = async_tunnel ∷ async_relay ∷ async_tunnel ∷ async_relay ∷ async_tunnel ∷ [];
      }))
    × ((served reference true origin (report success ∷ [])).trace
        ≡ next origin ∷ refusal malformed ∷ read_header ∷ [])
rounds-served_example =
    rounds-served beast_reference reference semantics true (round ∷ []) round origin
      (record { served = round-IsServed; kept = refl }, tt) round-IsServed origin-tunnel
      origin-proxy
