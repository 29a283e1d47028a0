-- ===== src/Tests/Calls.antt =====
-- Runs of the sessions' coroutines.
use foxy.Base.{true, false, not, ◌&&◌, ltb, [], ◌∷◌, ◌≡◌, codes}
use foxy.Net.{success, stream_truncated, other}
use foxy.Session.{Answer, shutdown_send, read_some, shutdown_receive, close, run}
use foxy.Session.Client.{connect_op, client_shutdown}
use foxy.Session.Server.{server_handshake, server_shutdown}
use foxy.Session.Ends.{
  outcome, check_answers, connected, client_closed, tls_answers, tls_actions, connect_op-connected,
  shutdown-outcome, shaken, upgrade_answers, server_handshake-accepted,
}

abbrev fine : Answer
fine = record { ec = success; bytes_transferred = 0 }

abbrev refused : Answer
refused = record { ec = other 1; bytes_transferred = 0 }

abbrev truncated : Answer
truncated = record { ec = stream_truncated; bytes_transferred = 0 }

connect_op-connected_example :
    run
      (connect_op true true (codes "foxy.com") (codes "https"))
      (fine ∷ fine ∷ check_answers true fine fine (refused ∷ []))
    ≡ connected true true
        (codes "foxy.com")
        (codes "https")
        success
        success
        success
        success
        (other 1)
connect_op-connected_example =
    connect_op-connected true true (codes "foxy.com") (codes "https") fine fine fine fine refused

shutdown-outcome_example :
    (run (server_shutdown true) (tls_answers true truncated (fine ∷ fine ∷ fine ∷ fine ∷ []))
      ≡ outcome
          (tls_actions true (shutdown_send ∷ read_some ∷ shutdown_receive ∷ close ∷ []))
          success)
    × (run (client_shutdown true) (tls_answers true truncated (fine ∷ fine ∷ []))
        ≡ client_closed true stream_truncated success)
shutdown-outcome_example = shutdown-outcome true truncated fine fine fine fine

-- Of eleven buffered bytes the handshake takes ten.
abbrev took_ten : Answer
took_ten = record { ec = success; bytes_transferred = 10 }

server_handshake-accepted_example :
    run
      (server_handshake false true 11)
      (upgrade_answers (not false && true) fine (took_ten ∷ fine ∷ []))
    ≡ shaken false true (ltb 0 11) took_ten
server_handshake-accepted_example = server_handshake-accepted false true 11 fine took_ten fine
