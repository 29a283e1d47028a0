-- ===== src/Listener/Accepting.antt =====
-- include/foxy/listener.hpp: accept_op, listener::async_accept and listener::shutdown.
use foxy.Base.{Bool, true, false, not, List, [], ◌∷◌, if◌then◌else◌}
use foxy.Net.{ErrorCode, is_error, is_aborted}

-- `serve` posts a server_op over a stream that is TLS or not.
pub data Action : Type 0 where
  async_accept : Action
  log_error : ErrorCode → Action
  serve : Bool → Action

-- The acceptor, whether the loop still waits for an accept, and the actions, the last one first.
pub record Machine : Type 0 where
  pub is_open : Bool
  pub has_ctx : Bool
  pub accepting : Bool
  pub trace : List Action

-- The head of the loop.
unfoldable pub loop_head : Machine → Machine
loop_head m =
    if m.is_open
    then record m { accepting = true; trace = async_accept ∷ m.trace }
    else record m { accepting = false }

-- listener::async_accept: a new accept_op, with the context if there is one.
unfoldable pub start : Bool → Bool → Machine
unfolding loop_head
start is_open has_ctx =
    loop_head (record { is_open = is_open; has_ctx = has_ctx; accepting = false; trace = [] })

-- An error ends the loop, and is logged unless the accept was cancelled.
unfoldable pub after_accept : ErrorCode → Machine → Machine
unfolding loop_head
after_accept ec m =
    if is_error ec
    then (if not (is_aborted ec)
        then record m { accepting = false; trace = log_error ec ∷ m.trace }
        else record m { accepting = false })
    else loop_head (record m { trace = serve m.has_ctx ∷ m.trace })

-- What may happen: an accept reports, or the listener is shut down: its acceptor is cancelled, which
-- makes the pending accept report that it was aborted, and closed.
pub data Event : Type 0 where
  accepted : ErrorCode → Event
  shutdown : Event

unfoldable pub step : Event → Machine → Machine
unfolding after_accept
step (accepted ec) m = if m.accepting then after_accept ec m else m
step shutdown m = record m { is_open = false }

unfoldable pub run : List Event → Machine → Machine
unfolding step
run [] m = m
run (e ∷ es) m = run es (step e m)
