-- ===== src/TimedOp/Once.antt =====
-- The user's handler is invoked exactly once, with the operation's own results.
use foxy.Base.{
  Bool, true, false, List, if◌then◌else◌, some, [], ◌∷◌, ◌≡◌, refl, ap, ◌⊎◌, inl, inr, Bool-cases,
}
use foxy.Net.{ErrorCode, is_aborted}
use foxy.TimedOp.{
  State, initiate, invoke, on_complete, after_timer, on_timer, completes, fires, Reach, here, next,
}

pub data Winner : Type 0 where
  nobody operation timer : Winner

abbrev pub after_report : Winner → Winner
after_report nobody = operation
after_report operation = operation
after_report timer = timer

abbrev pub after_wait : ErrorCode → Winner → Winner
after_wait ec nobody = if is_aborted ec then nobody else timer
after_wait ec operation = operation
after_wait ec timer = timer

module _ {ℓ} {R : Type ℓ} where
  -- The operation has reported and the timer has been cancelled.
  abbrev pub answered_state : R → State R
  answered_state args = record initiate { results = some args; done = true; running = false }

  -- The time is up: the stream is closed and the operation has not reported yet.
  abbrev pub expired_state : State R
  expired_state = record initiate {
    timer_complete = true;
    done = true;
    stream_open = false;
    waits = false;
  }

  abbrev pub over_state : R → Bool → State R
  over_state args stream_open = record {
    results = some args;
    timer_complete = true;
    done = true;
    called = args ∷ [];
    stream_open = stream_open;
    waits = false;
    running = false;
    fault = false;
  }

  -- What the operation has reported, latest first.
  abbrev pub reported : {s : State R} → Reach s → List R
  reported here = []
  reported (next r (completes args q)) = args ∷ reported r
  reported (next r (fires ec q)) = reported r

  -- Who came first: a report of the operation, or a wait that ended without being aborted.
  abbrev pub first_end : {s : State R} → Reach s → Winner
  first_end here = nobody
  first_end (next r (completes args q)) = after_report (first_end r)
  first_end (next r (fires ec q)) = after_wait ec (first_end r)

  -- How far a race has come, by who came first and what was reported.
  pub data Phase (s : State R) : Winner → List R → Type ℓ where
    racing : s ≡ initiate → Phase s nobody []
    answered : (args : R) → s ≡ answered_state args → Phase s operation (args ∷ [])
    expired : s ≡ expired_state → Phase s timer []
    answered_over : (args : R) → s ≡ over_state args true → Phase s operation (args ∷ [])
    expired_over : (args : R) → s ≡ over_state args false → Phase s timer (args ∷ [])

  on_complete-Phase :
      (args : R) (s : State R) (w : Winner) (l : List R)
      → Phase s w l
      → s.running ≡ true
      → Phase (on_complete args s) (after_report w) (args ∷ l)
  unfolding on_complete invoke
  on_complete-Phase args s _ _ (racing e) r = answered args (ap (on_complete args) e)
  on_complete-Phase args s _ _ (answered v e) r = absurd (cc (ap (λ t. t.running) e))
  on_complete-Phase args s _ _ (expired e) r = expired_over args (ap (on_complete args) e)
  on_complete-Phase args s _ _ (answered_over v e) r = absurd (cc (ap (λ t. t.running) e))
  on_complete-Phase args s _ _ (expired_over v e) r = absurd (cc (ap (λ t. t.running) e))

  on_timer_racing : (ec : ErrorCode) → Phase (on_timer ec initiate) (after_wait ec nobody) []
  unfolding on_timer after_timer
  on_timer_racing ec = elim (Bool-cases (is_aborted ec)) [
    | inl e ↦ rw e (racing refl)
    | inr e ↦ rw e (expired refl)
  ]

  on_timer_answered :
      (ec : ErrorCode) (args : R) → Phase (on_timer ec (answered_state args)) operation (args ∷ [])
  unfolding on_timer after_timer invoke
  on_timer_answered ec args = elim (Bool-cases (is_aborted ec)) [
    | inl e ↦ answered_over args (rw (e, on_timer))
    | inr e ↦ answered_over args (rw (e, on_timer))
  ]

  on_timer-Phase :
      (ec : ErrorCode) (s : State R) (w : Winner) (l : List R)
      → Phase s w l
      → s.waits ≡ true
      → Phase (on_timer ec s) (after_wait ec w) l
  on_timer-Phase ec s _ _ (racing e) r = rw e (on_timer_racing ec)
  on_timer-Phase ec s _ _ (answered v e) r = rw e (on_timer_answered ec v)
  on_timer-Phase ec s _ _ (expired e) r = absurd (cc (ap (λ t. t.waits) e))
  on_timer-Phase ec s _ _ (answered_over v e) r = absurd (cc (ap (λ t. t.waits) e))
  on_timer-Phase ec s _ _ (expired_over v e) r = absurd (cc (ap (λ t. t.waits) e))

  -- Whatever the order in which the operation and the timer report, and however often an aborted
  -- wait is started anew, the race is in one of five states: nothing has happened; the operation
  -- came first, and the stream is open, before and after the wait has ended; or a wait that was not
  -- aborted ended first, and the stream is closed, before and after the operation has reported. The
  -- handler has been invoked once when both have ended, with what the operation reported, and not
  -- before.
  pub Reach-Phase : {s : State R} (r : Reach s) → Phase s (first_end r) (reported r)
  Reach-Phase here = racing refl
  Reach-Phase (next {s} r (completes args q)) =
      on_complete-Phase args s (first_end r) (reported r) (Reach-Phase r) q
  Reach-Phase (next {s} r (fires ec q)) =
      on_timer-Phase ec s (first_end r) (reported r) (Reach-Phase r) q

  -- When neither the operation nor a wait is out any more, the handler has been invoked exactly
  -- once, with the results that the operation reported, and no empty result was read.
  pub called_once :
      {s : State R}
      → Reach s
      → s.running ≡ false
      → s.waits ≡ false
      → (args : R) × (s.called ≡ args ∷ []) × (s.results ≡ some args) × (s.fault ≡ false)
  called_once {s} r a b = finish (first_end r) (reported r) (Reach-Phase r)
    where
      finish :
          (w : Winner) (l : List R)
          → Phase s w l
          → (args : R) × (s.called ≡ args ∷ []) × (s.results ≡ some args) × (s.fault ≡ false)
      finish _ _ (racing e) = absurd (cc (ap (λ t. t.running) e))
      finish _ _ (answered v e) = absurd (cc (ap (λ t. t.waits) e))
      finish _ _ (expired e) = absurd (cc (ap (λ t. t.running) e))
      finish _ _ (answered_over v e) =
          (v, ap (λ t. t.called) e, ap (λ t. t.results) e, ap (λ t. t.fault) e)
      finish _ _ (expired_over v e) =
          (v, ap (λ t. t.called) e, ap (λ t. t.results) e, ap (λ t. t.fault) e)

  -- A handler that has not been invoked yet is still going to be: the operation or a wait is out.
  pub called_later : {s : State R} → Reach s → s.called ≡ [] → (s.running ≡ true) ⊎ (s.waits ≡ true)
  called_later {s} r a = finish (first_end r) (reported r) (Reach-Phase r)
    where
      finish : (w : Winner) (l : List R) → Phase s w l → (s.running ≡ true) ⊎ (s.waits ≡ true)
      finish _ _ (racing e) = inl (ap (λ t. t.running) e)
      finish _ _ (answered v e) = inr (ap (λ t. t.waits) e)
      finish _ _ (expired e) = inl (ap (λ t. t.running) e)
      finish _ _ (answered_over v e) = absurd (cc (ap (λ t. t.called) e))
      finish _ _ (expired_over v e) = absurd (cc (ap (λ t. t.called) e))
