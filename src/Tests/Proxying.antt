-- ===== src/Tests/Proxying.antt =====
-- The proxy with its tunnel, its cancellation, and the errors of the decoder.
use foxy.Base.{All, ◌≡◌, refl, true, some, List, [], ◌∷◌, ◌++◌}
use foxy.X3.Reference.{reference}
use foxy.Net.{success, operation_aborted, is_error, is_aborted}
use foxy.Fields.Reference.{beast_reference}
use foxy.Relay
use foxy.Relay.Persistence.{headers, IsPersistent}
use foxy.Proxy.Connection
use foxy.Proxy.Persistence.{after_relay, after_relay-async_tunnel}
use foxy.Proxy.Loop
use foxy.Proxy.Loop.{
  over, Pending, idle, waiting, done, Acceptor, Event, run_post, accept_done, cancel, run_handler,
  resume_loop, after_post, handle, step, perform, opened,
}
use foxy.Proxy.Served.{served}
use foxy.Proxy.Cancel.{if_waiting, perform-cancel}
use foxy.Tests.Outcomes.{semantics, exchange, relayed}

abbrev back_at_tunnel : Connection.Machine
back_at_tunnel =
    Connection.yield Connection.async_tunnel Connection.tunnelling
      (Connection.yield Connection.async_relay Connection.relaying Connection.initial)

relayed-after_relay : after_relay relayed Connection.initial ≡ some back_at_tunnel
unfolding after_relay Relay.run Relay.resume reference Connection.resume is_error
relayed-after_relay = refl

after_relay-async_tunnel_example : All (IsPersistent beast_reference reference semantics) (
    headers beast_reference reference semantics exchange
      (Relay.initial beast_reference reference semantics))
after_relay-async_tunnel_example =
    after_relay-async_tunnel beast_reference reference semantics exchange Connection.initial
      back_at_tunnel relayed-after_relay refl

abbrev acceptor : Acceptor
acceptor = record {
  cancelled = cancelled;
  cancelled_idle = refl;
  cancelled_waiting = refl;
  cancelled_done = λ ec. refl;
}
  where
    cancelled : Pending → Pending
    cancelled idle = idle
    cancelled waiting = done operation_aborted
    cancelled (done ec) = done ec

-- One client has come, the next one too, and its handler is queued.
abbrev before_cancel : List Event
before_cancel = run_post ∷ accept_done success ∷ run_handler ∷ accept_done success ∷ []

-- cancel comes then; the queued client and one more are served.
abbrev after_cancel : List Event
after_cancel = run_handler ∷ accept_done success ∷ run_handler ∷ []

abbrev clients : List Event
clients = accept_done success ∷ []

late_cancel :
    served
      (perform acceptor
        (cancel ∷ after_cancel)
        (perform acceptor before_cancel (opened true))).loop.trace
    ≡ 3
unfolding perform step after_post handle resume_loop Loop.resume_at Loop.after_accept Loop.start
    is_error is_aborted
late_cancel = refl

perform-cancel_example :
    (served
        (perform acceptor
          (cancel ∷ after_cancel)
          (perform acceptor before_cancel (opened true))).loop.trace
      ≡ if_waiting
          (perform acceptor before_cancel (opened true)).pending
          (served (perform acceptor before_cancel (opened true)).loop.trace)
          (served
            (perform acceptor after_cancel
              (perform acceptor before_cancel (opened true))).loop.trace))
    × ((perform acceptor
          (cancel ∷ (clients ++ (run_handler ∷ after_cancel)))
          (perform acceptor before_cancel (opened true))).loop.point
        ≡ if_waiting
            (perform acceptor before_cancel (opened true)).pending
            over
            (perform acceptor
              (clients ++ (run_handler ∷ after_cancel))
              (perform acceptor before_cancel (opened true))).loop.point)
perform-cancel_example = perform-cancel acceptor true before_cancel clients after_cancel
