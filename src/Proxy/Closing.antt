-- ===== src/Proxy/Closing.antt =====
-- How a proxied connection goes on and how it ends.
use foxy.Base.{true, false, List, [], ◌∷◌, ◌++◌, ◌≡◌, refl, ◌⊎◌, inl, inr, arith}
use foxy.Net.{
  ErrorCode, success, operation_aborted, eof, need_buffer, stream_truncated, other, is_error,
}
use foxy.Proxy.Connection.{
  Action, async_tunnel, async_relay, shutdown_session, shutdown_client, log_error, tunnelling,
  relaying, closing_client, finished, Machine, Reply, initial, ends, forgive, after_shutdown,
  resume_at, resume, run,
}

-- Tunnels and relays in turn, one for each report, beginning with the other one of `a` and `b`.
abbrev pub in_turn : List Reply → Action → Action → List Action → List Action
in_turn [] a b trace = trace
in_turn (r ∷ rs) a b trace = in_turn rs b a (b ∷ trace)

-- Reports that neither failed nor asked to close the tunnel.
abbrev pub AllGoOn : List Reply → Type 0
AllGoOn [] = Unit
AllGoOn (r ∷ rs) = ((is_error r.ec ≡ false) × (r.close_tunnel ≡ false)) × AllGoOn rs

-- A report that failed, or one that asked to close the tunnel.
abbrev pub Stops : Reply → Type 0
Stops r = (is_error r.ec ≡ true) ⊎ (r.close_tunnel ≡ true)

ends-goes_on : (r : Reply) → (is_error r.ec ≡ false) × (r.close_tunnel ≡ false) → ends r ≡ false
unfolding ends
ends-goes_on r (fine, stays) = rw (fine, stays) refl

ends-Stops : (r : Reply) → Stops r → ends r ≡ true
unfolding ends
ends-Stops r (inl bad) = rw bad refl
ends-Stops r (inr closes) = ground (arith, closes)

-- The last word of a shutdown that reports `ec`: errors other than an end of file are logged.
abbrev pub complaint : ErrorCode → List Action
complaint success = []
complaint eof = []
complaint ec = log_error ec ∷ []

after_shutdown-complaint :
    (ec : ErrorCode) (m : Machine)
    → after_shutdown ec m ≡ record { point = finished; trace = complaint ec ++ m.trace }
unfolding after_shutdown forgive is_error
after_shutdown-complaint success m = refl
after_shutdown-complaint operation_aborted m = refl
after_shutdown-complaint eof m = refl
after_shutdown-complaint need_buffer m = refl
after_shutdown-complaint stream_truncated m = refl
after_shutdown-complaint (other n) m = refl

mutual
  unfolding run resume resume_at

  run_tunnelling :
      (rs : List Reply) (r q s : Reply) (trace : List Action)
      → AllGoOn rs
      → Stops r
      → run (rs ++ (r ∷ q ∷ s ∷ [])) (record { point = tunnelling; trace = trace }) ≡ record {
        point = finished;
        trace =
            complaint s.ec
            ++ (shutdown_client ∷ shutdown_session ∷ in_turn rs async_tunnel async_relay trace);
      }
  run_tunnelling [] r q s trace h e =
      rw (ends-Stops r e, run)
        (after_shutdown-complaint s.ec
          (record { point = closing_client; trace = shutdown_client ∷ shutdown_session ∷ trace }))
  run_tunnelling (k ∷ rs) r q s trace h e =
      rw (ends-goes_on k h.0, run) (run_relaying rs r q s (async_relay ∷ trace) h.1 e)

  run_relaying :
      (rs : List Reply) (r q s : Reply) (trace : List Action)
      → AllGoOn rs
      → Stops r
      → run (rs ++ (r ∷ q ∷ s ∷ [])) (record { point = relaying; trace = trace }) ≡ record {
        point = finished;
        trace =
            complaint s.ec
            ++ (shutdown_client ∷ shutdown_session ∷ in_turn rs async_relay async_tunnel trace);
      }
  run_relaying [] r q s trace h e =
      rw (ends-Stops r e, run)
        (after_shutdown-complaint s.ec
          (record { point = closing_client; trace = shutdown_client ∷ shutdown_session ∷ trace }))
  run_relaying (k ∷ rs) r q s trace h e =
      rw (ends-goes_on k h.0, run) (run_tunnelling rs r q s (async_tunnel ∷ trace) h.1 e)

-- As long as nothing fails and nobody asks to close, tunnels and relays take turns; the first report
-- that has failed or asks to close is followed by the shutdown of both sessions, the client's side first, whatever the
-- first shutdown reports; then the operation is finished, and an error of the second shutdown that is
-- no end of file has been logged.
pub run-closes :
    (rs : List Reply) (r q s : Reply)
    → AllGoOn rs
    → Stops r
    → run (rs ++ (r ∷ q ∷ s ∷ [])) initial ≡ record {
      point = finished;
      trace =
          complaint s.ec
          ++ (shutdown_client
              ∷ shutdown_session
              ∷ in_turn rs async_tunnel async_relay (async_tunnel ∷ []));
    }
run-closes rs r q s h e = run_tunnelling rs r q s (async_tunnel ∷ []) h e
