-- ===== src/Tunnel/Decision.antt =====
-- What the tests of the request header say of the request.
use foxy.Base.{Bool, true, false, not, ◌&&◌, ◌||◌, ◌≡◌, refl, ap, ◌⊎◌, inl, inr, arith}
use foxy.X3.Library.{X3}
use foxy.UriParts.{is_authority, is_absolute, is_http}
use foxy.ParseUri.{parse_uri}
use foxy.Tunnel.{connect, options, other_verb, Verb, Request, is_connect}
use foxy.Tunnel.Order.{AsksTunnel, AsksProxy}

one_shot_cases : (c a k : Bool) → ((c && a) && not k) ≡ true → (c ≡ true) × (a ≡ true) × (k ≡ false)
one_shot_cases c a k h = ground arith

proper_cases :
    (c a k b h : Bool)
    → ((c && a) && not k) ≡ false
    → ((c && a) || (b && h)) ≡ true
    → ((c ≡ true) × (a ≡ true) × (k ≡ true)) ⊎ ((b ≡ true) × (h ≡ true))
proper_cases c a k b h several proper = ground arith

improper_cases :
    (c a b h : Bool)
    → ((c && a) || (b && h)) ≡ false
    → ((c ≡ true) × (a ≡ true) → ⊥) × ((b ≡ true) × (h ≡ true) → ⊥)
improper_cases c a b h improper = (λ p. ground (arith, p), λ p. ground (arith, p))

is_connect-connect : (v : Verb) → is_connect v ≡ true → v ≡ connect
unfolding is_connect
is_connect-connect connect h = refl
is_connect-connect options h = cc
is_connect-connect (other_verb n) h = cc

module _ (x : X3) (client_is_ssl : Bool) where
  -- What the three tests of a header say of the request.
  pub one_shot-asks :
      (r : Request)
      → ((is_connect r.method && is_authority (parse_uri x r.target)) && not r.keep_alive) ≡ true
      → AsksTunnel x client_is_ssl r × (r.keep_alive ≡ false)
  one_shot-asks r h =
      let (c, a, k) =
        one_shot_cases (is_connect r.method) (is_authority (parse_uri x r.target)) r.keep_alive h in
      ((is_connect-connect r.method c, a), k)

  pub proper-asks :
      (r : Request)
      → ((is_connect r.method && is_authority (parse_uri x r.target)) && not r.keep_alive) ≡ false
      → ((is_connect r.method && is_authority (parse_uri x r.target))
          || (is_absolute (parse_uri x r.target) && is_http (parse_uri x r.target)))
        ≡ true
      → (AsksTunnel x client_is_ssl r × (r.keep_alive ≡ true)) ⊎ AsksProxy x client_is_ssl r
  proper-asks r several proper =
      elim (proper_cases (is_connect r.method) (is_authority (parse_uri x r.target)) r.keep_alive
        (is_absolute (parse_uri x r.target)) (is_http (parse_uri x r.target)) several proper) [
          | inl (c, a, k) ↦ inl ((is_connect-connect r.method c, a), k)
          | inr both ↦ inr both
        ]

  pub improper-asks :
      (r : Request)
      → ((is_connect r.method && is_authority (parse_uri x r.target))
          || (is_absolute (parse_uri x r.target) && is_http (parse_uri x r.target)))
        ≡ false
      → (AsksTunnel x client_is_ssl r → ⊥) × (AsksProxy x client_is_ssl r → ⊥)
  unfolding is_connect
  improper-asks r improper =
      let (no_tunnel, no_proxy) =
        improper_cases (is_connect r.method) (is_authority (parse_uri x r.target))
          (is_absolute (parse_uri x r.target)) (is_http (parse_uri x r.target)) improper in
      (λ p. no_tunnel (ap is_connect p.0, p.1), no_proxy)
