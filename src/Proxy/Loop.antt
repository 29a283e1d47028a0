-- ===== src/Proxy/Loop.antt =====
-- src/proxy.cpp: proxy::async_accept and proxy::loop. The first post only moves the loop onto the
-- strand.
use foxy.Base.{Bool, List, [], ◌∷◌, if◌then◌else◌, ◌≡◌}
use foxy.Net.{ErrorCode, success, operation_aborted, is_error, is_aborted}

pub data Action : Type 0 where
  print_closed : Action
  post_loop : Action
  async_accept : Action
  log_error : ErrorCode → Action
  serve : Action

pub data Point : Type 0 where
  posted : Point
  accepting : Point
  over : Point

-- accept_coro_, and the actions so far, the last one first.
pub record Machine : Type 0 where
  pub point : Point
  pub trace : List Action

abbrev pub accept_next : Machine → Machine
accept_next m = record { point = accepting; trace = async_accept ∷ m.trace }

abbrev pub note : Action → Machine → Machine
note a m = record m { trace = a ∷ m.trace }

-- async_accept, for an acceptor that is open or not.
unfoldable pub start : Bool → Machine
start is_open =
    if is_open
    then record { point = posted; trace = post_loop ∷ [] }
    else record { point = over; trace = print_closed ∷ [] }

unfoldable pub after_accept : ErrorCode → Machine → Machine
after_accept ec m =
    if is_aborted ec
    then record m { point = over }
    else if is_error ec
    then accept_next (note (log_error ec) m)
    else accept_next (note serve m)

unfoldable pub resume_at : Point → ErrorCode → Machine → Machine
unfolding after_accept
resume_at posted ec m = accept_next m
resume_at accepting ec m = after_accept ec m
resume_at over ec m = m

-- loop(ec), for each accept that reports.
unfoldable pub run : List ErrorCode → Machine → Machine
unfolding resume_at
run [] m = m
run (ec ∷ ecs) m = run ecs (resume_at m.point ec m)

-- The accept that was launched last: none is out, it is waiting for a client, or it is done with a
-- code and its handler is queued.
pub data Pending : Type 0 where
  idle : Pending
  waiting : Pending
  done : ErrorCode → Pending

-- Asio's acceptor: cancel() makes the accept that is waiting report operation_aborted; one whose
-- handler is queued already reports what it came to.
pub record Acceptor : Type 0 where
  pub cancelled : Pending → Pending
  pub cancelled_idle : cancelled idle ≡ idle
  pub cancelled_waiting : cancelled waiting ≡ done operation_aborted
  pub cancelled_done : (ec : ErrorCode) → cancelled (done ec) ≡ done ec

-- The loop and what its acceptor is doing.
pub record World : Type 0 where
  pub loop : Machine
  pub pending : Pending

-- What happens on the strand and to the acceptor: the first post runs, an accept is done, the function
-- that proxy::cancel has posted runs, or the queued handler of an accept does.
pub data Event : Type 0 where
  run_post : Event
  accept_done : ErrorCode → Event
  cancel : Event
  run_handler : Event

-- The accept is waiting when the loop has come to it.
abbrev pub launched : Point → Pending
launched posted = idle
launched accepting = waiting
launched over = idle

unfoldable pub resume_loop : ErrorCode → World → World
unfolding resume_at
resume_loop ec w =
    let loop = resume_at w.loop.point ec w.loop in
    record { loop = loop; pending = launched loop.point }

unfoldable pub after_post : Point → World → World
unfolding resume_loop
after_post posted w = resume_loop success w
after_post accepting w = w
after_post over w = w

abbrev pub fulfil : ErrorCode → Pending → Pending
fulfil ec idle = idle
fulfil ec waiting = done ec
fulfil ec (done d) = done d

unfoldable pub handle : Pending → World → World
unfolding resume_loop
handle idle w = w
handle waiting w = w
handle (done ec) w = resume_loop ec w

module _ (acceptor : Acceptor) where
  unfoldable pub step : Event → World → World
  unfolding after_post handle
  step run_post w = after_post w.loop.point w
  step (accept_done ec) w = record w { pending = fulfil ec w.pending }
  step cancel w = record w { pending = acceptor.cancelled w.pending }
  step run_handler w = handle w.pending w

  unfoldable pub perform : List Event → World → World
  unfolding step
  perform [] w = w
  perform (e ∷ es) w = perform es (step e w)

abbrev pub opened : Bool → World
opened is_open = record { loop = start is_open; pending = idle }
