-- ===== src/TimedOp.antt =====
-- include/foxy/detail/timed_op_wrapper_v3.hpp and close_stream.hpp: an operation raced against a
-- timer. The operation and the timer wait are outside; what they report arrives as steps.
pub mod Once
use foxy.Base.{
  Bool, true, false, not, ◌&&◌, Option, none, some, List, [], ◌∷◌, ◌++◌, if◌then◌else◌, ◌≡◌,
}
use foxy.Net.{ErrorCode, is_aborted}

-- `called` lists what the user's handler was invoked with, `waits` says that a timer wait is out,
-- `running` that the operation is, and `fault` that an empty optional was read.
pub record State {ℓ} (R : Type ℓ) : Type ℓ where
  pub results : Option R
  pub timer_complete : Bool
  pub done : Bool
  pub called : List R
  pub stream_open : Bool
  pub waits : Bool
  pub running : Bool
  pub fault : Bool

module _ {ℓ} {R : Type ℓ} where
  -- async_timer_initiation: the timer is armed and the operation launched.
  abbrev pub initiate : State R
  initiate = record {
    results = none;
    timer_complete = false;
    done = false;
    called = [];
    stream_open = true;
    waits = true;
    running = true;
    fault = false;
  }

  -- Invoking the handler with *results.
  unfoldable pub invoke : Option R → State R → State R
  invoke none s = record s { fault = true }
  invoke (some args) s = record s { called = s.called ++ args ∷ [] }

  -- operator()(Args&&...): the operation has completed.
  unfoldable pub on_complete : R → State R → State R
  unfolding invoke
  on_complete args s =
      let s' = record s { results = some args; running = false } in
      if s.done then invoke (some args) s' else record s' { done = true }

  -- What follows the timer's coroutine once it is complete.
  unfoldable pub after_timer : State R → State R
  unfolding invoke
  after_timer s =
      if s.done then invoke s.results s else record s { done = true; stream_open = false }

  -- operator()(on_timer_t, ec): an aborted wait is started anew unless the operation is over.
  unfoldable pub on_timer : ErrorCode → State R → State R
  unfolding after_timer is_aborted
  on_timer ec s =
      let s' = record s { waits = false } in
      if not s.timer_complete && (is_aborted ec && not s.done)
      then record s' { waits = true }
      else after_timer (record s' { timer_complete = true })

  -- Each wait reports once and the operation once, in any order.
  pub data Step (s : State R) : State R → Type ℓ where
    completes : (args : R) → s.running ≡ true → Step s (on_complete args s)
    fires : (ec : ErrorCode) → s.waits ≡ true → Step s (on_timer ec s)

  pub data Reach : State R → Type ℓ where
    here : Reach initiate
    next : {s t : State R} → Reach s → Step s t → Reach t
