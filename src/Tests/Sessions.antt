-- ===== src/Tests/Sessions.antt =====
-- Runs of whole sessions, of speak, of a listener and of the helpers they use.
use foxy.Base.{Option, ℕ, true, false, some, List, [], ◌∷◌, ◌++◌, ◌≡◌, refl, codes}
use foxy.Net.{ErrorCode, success, operation_aborted, is_error}
use foxy.TimedOp.{State, initiate, on_complete, on_timer}
use foxy.Session.{
  Answer, Coroutine, complete, completed, resolve, connect, write_request, read_response,
  shutdown_both, close, run,
}
use foxy.Session.Client.{async_request, connect_op, client_shutdown, close_plain}
use foxy.Session.Timed.{settle, Race, starts, answered, expires, Race-refines}
use foxy.Session.Completes.{Completes, acts, at_once}
use foxy.Speak.{speak_op}
use foxy.Speak.Closing.{speak_op-shuts_down}
use foxy.Stream.{MultiStream, make_ssl, is_ssl}
use foxy.Listener.Connection
use foxy.Listener.Sessions.{session_for}
use foxy.Listener.Accepting
use foxy.Listener.Runs.{served, successes, run-successes}

abbrev fine : Answer
fine = record { ec = success; bytes_transferred = 0 }

-- A request that is written and answered before the timer's wait reports that it was aborted.
abbrev raced : State Answer
unfolding settle
raced = on_timer operation_aborted (settle (complete success 0) initiate)

raced-Race : Race async_request (fine ∷ fine ∷ []) (complete success 0) raced
unfolding async_request settle on_complete is_error
raced-Race = expires (answered (answered starts fine) fine) operation_aborted refl

raced-running : raced.running ≡ false
unfolding settle on_timer on_complete
raced-running = refl

raced-waits : raced.waits ≡ false
unfolding settle on_timer on_complete
raced-waits = refl

Race-refines_example :
    (a : Answer) × (raced.called ≡ a ∷ [])
    × ((run async_request (fine ∷ fine ∷ [])).result ≡ completed a)
    × (raced.fault ≡ false)
Race-refines_example = Race-refines raced-Race raced-running raced-waits

-- A user's request that writes and reads once, whatever the code.
abbrev ask : ErrorCode → Coroutine
ask ec = async_request

connects :
    Completes
      (connect_op false true (codes "a.b") (codes "80"))
      (fine ∷ fine ∷ [])
      (resolve (codes "a.b") (codes "80") ∷ connect ∷ [])
      fine
unfolding connect_op is_error
connects = acts (acts (at_once success 0))

asks : Completes (ask success) (fine ∷ fine ∷ []) (write_request ∷ read_response ∷ []) fine
unfolding async_request is_error
asks = acts (acts (at_once success 0))

closes : Completes (client_shutdown false) (fine ∷ fine ∷ []) (shutdown_both ∷ close ∷ []) fine
unfolding client_shutdown close_plain
closes = acts (acts (at_once success 0))

speak_op-shuts_down_example :
    run
      (speak_op false true (codes "a.b") (codes "80") ask)
      ((fine ∷ fine ∷ []) ++ ((fine ∷ fine ∷ []) ++ (fine ∷ fine ∷ [])))
    ≡ record {
      done =
          (resolve (codes "a.b") (codes "80") ∷ connect ∷ [])
          ++ ((write_request ∷ read_response ∷ []) ++ (shutdown_both ∷ close ∷ []));
      result = completed fine;
    }
speak_op-shuts_down_example =
    speak_op-shuts_down false true (codes "a.b") (codes "80") ask (fine ∷ fine ∷ [])
      (fine ∷ fine ∷ []) (fine ∷ fine ∷ []) (resolve (codes "a.b") (codes "80") ∷ connect ∷ [])
      (write_request ∷ read_response ∷ []) (shutdown_both ∷ close ∷ []) fine fine fine connects asks
      closes

-- A socket and a context are numbers.
abbrev tls : MultiStream ℕ ℕ
tls = make_ssl 3 1

abbrev second_context : ℕ
second_context = 2

abbrev socket : ℕ
socket = 3

-- A connection with eleven bytes in its buffer, of which the handshake takes ten.
abbrev ctx : Option ℕ
ctx = some 1

abbrev took_ten : List Answer
took_ten = record { ec = success; bytes_transferred = 10 } ∷ fine ∷ []

handshaking-start :
    (Connection.start (is_ssl (session_for ctx socket).stream)).point ≡ Connection.handshaking
unfolding Connection.start session_for is_ssl
handshaking-start = refl

-- Two connections, a shutdown, and a third connection that had been accepted already.
abbrev accepts : List Accepting.Event
accepts =
    Accepting.accepted success
    ∷ Accepting.accepted success
    ∷ Accepting.shutdown
    ∷ Accepting.accepted success
    ∷ Accepting.accepted operation_aborted
    ∷ []

run-successes_example :
    (served true (Accepting.run accepts (Accepting.start true true)).trace ≡ successes true accepts)
    × ((Accepting.run accepts (Accepting.start false true)).trace ≡ [])
run-successes_example = run-successes accepts true
