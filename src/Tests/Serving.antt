-- ===== src/Tests/Serving.antt =====
-- Runs of the proxy.
use foxy.Base.{true, false, List, [], ◌∷◌, ◌++◌, ◌≡◌, refl, inr}
use foxy.Net.{ErrorCode, success, operation_aborted, eof, other, is_error}
use foxy.Proxy.Connection.{
  async_tunnel, async_relay, shutdown_session, shutdown_client, finished, Reply, initial, run,
}
use foxy.Proxy.Closing.{in_turn, complaint, run-closes}
use foxy.Proxy.Loop
use foxy.Proxy.Served.{served, accepted, run-served}

abbrev goes_on : Reply
goes_on = record { ec = success; close_tunnel = false }

abbrev asks_to_close : Reply
asks_to_close = record { ec = success; close_tunnel = true }

abbrev ended : Reply
ended = record { ec = eof; close_tunnel = false }

goes_on-is_error : is_error goes_on.ec ≡ false
unfolding is_error
goes_on-is_error = refl

-- A tunnel, a relay that asks to close, and the two shutdowns.
run-closes_example :
    run ((goes_on ∷ []) ++ (asks_to_close ∷ goes_on ∷ ended ∷ [])) initial ≡ record {
      point = finished;
      trace =
          complaint ended.ec
          ++ (shutdown_client
              ∷ shutdown_session
              ∷ in_turn (goes_on ∷ []) async_tunnel async_relay (async_tunnel ∷ []));
    }
run-closes_example =
    run-closes (goes_on ∷ []) asks_to_close goes_on ended ((goes_on-is_error, refl), tt) (inr refl)

abbrev accepts : List ErrorCode
accepts = success ∷ other 7 ∷ success ∷ operation_aborted ∷ success ∷ []

run-served_example :
    (served (Loop.run (success ∷ accepts) (Loop.start true)).trace ≡ accepted accepts)
    × (served (Loop.run (success ∷ accepts) (Loop.start false)).trace ≡ 0)
run-served_example = run-served success accepts
