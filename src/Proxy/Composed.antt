-- ===== src/Proxy/Composed.antt =====
-- src/proxy.cpp with include/foxy/detail/tunnel.hpp: what the operation for a client does with the
-- completion of a tunnel.
use foxy.Base.{
  Bool, true, false, not, Option, none, some, List, [], ◌∷◌, ◌≡◌, refl, ◌∙◌, Bool-cases, inl, inr,
}
use foxy.X3.Library.{X3}
use foxy.Net.{ErrorCode, success, is_error}
use foxy.Tunnel
use foxy.Tunnel.{Request}
use foxy.Tunnel.Order.{AsksTunnel, AsksProxy}
use foxy.Tunnel.Requests.{report, detection, served}
use foxy.Tunnel.Outcomes.{run-established, run-relay}
use foxy.Proxy.Connection.{
  async_relay, shutdown_session, relaying, closing_session, Machine, Reply, yield, initial, ends,
  resume_at, resume,
}

-- What the tunnel hands to the operation that launched it.
unfoldable pub handed : List Tunnel.Action → Option Reply
handed (Tunnel.complete ec close_tunnel ∷ t) =
    some (record { ec = ec; close_tunnel = close_tunnel })
handed t = none

-- The operation after the tunnel has completed, or `none` while it has not.
unfoldable pub after_tunnel : Tunnel.Machine → Option Machine
unfolding handed
after_tunnel t = elim (handed t.trace) [ none ↦ none | some r ↦ some (resume r initial) ]

after_tunnel-complete :
    (t : Tunnel.Machine) (ec : ErrorCode) (close : Bool) (rest : List Tunnel.Action)
    → t.trace ≡ Tunnel.complete ec close ∷ rest
    → after_tunnel t ≡ some (resume (record { ec = ec; close_tunnel = close }) initial)
unfolding after_tunnel handed
after_tunnel-complete t ec close rest e = rw (e, after_tunnel) refl

module _ (x : X3) (client_is_ssl : Bool) where
  -- A client whose CONNECT has been answered with 200 is relayed next.
  after_tunnel-established :
      (r : Request) (d : Option Bool)
      → AsksTunnel x client_is_ssl r
      → r.keep_alive ≡ true
      → after_tunnel (served x client_is_ssl r (report success ∷ report success ∷ detection d ∷ []))
        ≡ some (yield async_relay relaying initial)
  unfolding resume resume_at ends is_error
  after_tunnel-established r d t k =
      after_tunnel-complete
        (served x client_is_ssl r (report success ∷ report success ∷ detection d ∷ [])) success
        false _ (run-established x client_is_ssl r d t k).0

  -- A client whose request in absolute form has been relayed, with whatever code, is shut down next.
  pub after_tunnel-relay :
      (r : Request) (ec : ErrorCode)
      → AsksProxy x client_is_ssl r
      → after_tunnel (served x client_is_ssl r (report success ∷ report ec ∷ []))
        ≡ some (yield shutdown_session closing_session initial)
  unfolding resume resume_at ends
  after_tunnel-relay r ec p =
      after_tunnel-complete (served x client_is_ssl r (report success ∷ report ec ∷ [])) ec
        (not (is_error ec)) _ (run-relay x client_is_ssl r ec p)
      ∙ elim (Bool-cases (is_error ec)) [ inl bad ↦ rw bad refl | inr fine ↦ rw fine refl ]
