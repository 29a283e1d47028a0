-- ===== src/Tunnel/Decided.antt =====
-- What the tunnel still knows of the request when it has connected.
use foxy.Base.{Bool, true, false, ◌&&◌, some, ◌≡◌, refl, ap, ◌⊎◌, inl, inr, arith}
use foxy.X3.Library.{X3}
use foxy.UriParts.{is_absolute, is_http}
use foxy.ParseUri.{parse_uri}
use foxy.ParseUri.Paths.{parse_uri-IsRooted}
use foxy.Tunnel.{Request, Machine, origin_target, host_field}
use foxy.Tunnel.Order.{IsRelayed, AsksTunnel, AsksProxy}
use foxy.Tunnel.Origin.{origin_target-IsOriginForm}
use foxy.Tunnel.Launches.{Decided}

module _ (x : X3) (client_is_ssl : Bool) where
  -- What was asked for, once the scheme has been tested again.
  pub asks_proxy :
      (q : Request) (m : Machine)
      → Decided x client_is_ssl q m
      → (m.absolute && m.http) ≡ true
      → AsksProxy x client_is_ssl q
  asks_proxy q m d proxied =
      both (is_absolute (parse_uri x q.target)) (is_http (parse_uri x q.target))
        (rw (← d.absolute_is, ← d.http_is) proxied)
    where
      both : (a h : Bool) → (a && h) ≡ true → (a ≡ true) × (h ≡ true)
      both a h p = ground arith

  pub asks_tunnel :
      (q : Request) (m : Machine)
      → Decided x client_is_ssl q m
      → (m.absolute && m.http) ≡ false
      → AsksTunnel x client_is_ssl q × (q.keep_alive ≡ true)
  asks_tunnel q m d tunnelled = pick d.asks
    where
      pick :
          (AsksTunnel x client_is_ssl q × (q.keep_alive ≡ true)) ⊎ AsksProxy x client_is_ssl q
          → AsksTunnel x client_is_ssl q × (q.keep_alive ≡ true)
      pick (inl t) = t
      pick (inr p) = absurd (ground (arith, d.absolute_is, d.http_is, p, tunnelled))

  pub origin_target-IsRelayed :
      (q : Request) (m : Machine)
      → Decided x client_is_ssl q m
      → IsRelayed q (record m.request {
        target = origin_target m.request.method m.uri_parts;
        keep_alive = false;
        host = some (host_field m.uri_parts);
      })
  origin_target-IsRelayed q m d = record {
    same_method = ap (λ r. r.method) d.request_is;
    origin_form =
        origin_target-IsOriginForm m.request.method m.uri_parts
          (rw d.parts_are (parse_uri-IsRooted x q.target));
    not_persistent = refl;
    has_host = (host_field m.uri_parts, refl);
  }
