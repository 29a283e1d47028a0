-- ===== src/Tunnel/Requests.antt =====
-- How the tunnel takes a request: what it asks for, and the first thing that is done about it.
use foxy.Base.{
  ◌++◌, codes, Bool, true, false, not, ◌&&◌, ◌||◌, Option, none, some, List, ◌∷◌, ◌≡◌, refl, ap,
  ◌⊎◌, Bool-cases, inl, inr, arith, if◌then◌else◌,
}
use foxy.X3.Library.{X3}
use foxy.UriParts.{UriParts, is_authority, is_absolute, is_http}
use foxy.ParseUri.{parse_uri}
use foxy.Net.{ErrorCode, success, is_error}
use foxy.Tunnel.{
  Request, no_request, is_connect, malformed, Action, read_header, async_connect, detect_ssl, Reply,
  connecting, writing_malformed, yield, Machine, initial, after_header, resume_at, resume, run,
}
use foxy.Tunnel.Origin.{or_default, marked, default_path, service-or_default}
use foxy.Tunnel.Decision.{one_shot-asks, proper-asks}
use foxy.Tunnel.Order.{refusal, AsksTunnel, AsksProxy}

-- The reports of a read, of a detection, and of any other operation.
abbrev pub header : Request → Reply
header r = record { ec = success; request = r; is_ssl = none }

abbrev pub detection : Option Bool → Reply
detection d = record { ec = success; request = no_request; is_ssl = d }

abbrev pub report : ErrorCode → Reply
report ec = record { ec = ec; request = no_request; is_ssl = none }

-- The request that is relayed for one in absolute form.
abbrev pub rewritten : X3 → Request → Request
rewritten x r =
    let u = parse_uri x r.target in
    record r {
      target = or_default u.path (default_path r.method) ++ marked b'?' u.query;
      keep_alive = false;
      host = some (u.host ++ marked b':' u.port);
    }

pub not_absolute : (u : UriParts) → is_authority u ≡ true → is_absolute u ≡ false
unfolding is_authority is_absolute
not_absolute u a = ground (arith, a)

not_authority : (u : UriParts) → is_absolute u ≡ true → is_authority u ≡ false
unfolding is_authority is_absolute
not_authority u a = ground (arith, a)

pub fine_is_success : (ec : ErrorCode) → is_error ec ≡ false → ec ≡ success
unfolding is_error
fine_is_success ec h = ground (arith, h)

-- What is done after a refusal has been written.
abbrev pub next : Request → Action
next r = if r.keep_alive then read_header else detect_ssl

module _ (x : X3) (client_is_ssl : Bool) where
  abbrev pub connection_for : Request → Action
  connection_for r =
      let u = parse_uri x r.target in
      async_connect u.host
        (or_default u.port (if client_is_ssl then codes "https" else codes "http"))

  abbrev pub served : Request → List Reply → Machine
  served r replies = run x client_is_ssl (header r ∷ replies) initial

  -- The tests of the header, and the machine that they lead to.
  abbrev pub one_shot : Request → Bool
  one_shot r = (is_connect r.method && is_authority (parse_uri x r.target)) && not r.keep_alive

  abbrev pub proper : Request → Bool
  proper r =
      (is_connect r.method && is_authority (parse_uri x r.target))
      || (is_absolute (parse_uri x r.target) && is_http (parse_uri x r.target))

  abbrev Served : Request → Type 0
  Served r = (AsksTunnel x client_is_ssl r × (r.keep_alive ≡ true)) ⊎ AsksProxy x client_is_ssl r

  abbrev pub decoded : Request → Machine
  decoded r =
      let u = parse_uri x r.target in
      record initial {
        request = r;
        uri_parts = u;
        authority = is_authority u;
        connects = is_connect r.method;
        absolute = is_absolute u;
        http = is_http u;
      }

  Served-proper : (r : Request) → Served r → (one_shot r ≡ false) × (proper r ≡ true)
  unfolding is_connect
  Served-proper r (inl ((c, a), k)) = (rw (c, a, k) refl, rw (c, a) refl)
  Served-proper r (inr (a, h)) =
      (ground (arith, not_authority (parse_uri x r.target) a), ground (arith, a, h))

  pub resume-connecting :
      (r : Request)
      → Served r
      → resume x client_is_ssl (header r) initial ≡ yield (connection_for r) connecting (decoded r)
  unfolding resume resume_at after_header is_error
  resume-connecting r s =
      let (several, both) = Served-proper r s in
      rw several (
        rw both (
          ap (λ s. yield (async_connect (parse_uri x r.target).host s) connecting (decoded r))
            (service-or_default client_is_ssl (parse_uri x r.target))))

  pub neither-proper :
      (r : Request)
      → (AsksTunnel x client_is_ssl r → ⊥)
      → (AsksProxy x client_is_ssl r → ⊥)
      → (one_shot r ≡ false) × (proper r ≡ false)
  neither-proper r no_tunnel no_proxy = elim (Bool-cases (one_shot r)) [
    | inl o ↦ absurd (no_tunnel (one_shot-asks x client_is_ssl r o).0)
    | inr o ↦ elim (Bool-cases (proper r)) [
      | inl p ↦ elim (proper-asks x client_is_ssl r o p) [
        | inl (tunnel, k) ↦ absurd (no_tunnel tunnel)
        | inr proxy ↦ absurd (no_proxy proxy)
      ]
      | inr p ↦ (o, p)
    ]
  ]

  pub resume-malformed :
      (r : Request)
      → one_shot r ≡ false
      → proper r ≡ false
      → resume x client_is_ssl (header r) initial
        ≡ yield (refusal malformed) writing_malformed (decoded r)
  unfolding resume resume_at after_header is_error
  resume-malformed r several neither = rw several (rw neither refl)
