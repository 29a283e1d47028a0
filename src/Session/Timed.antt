-- ===== src/Session/Timed.antt =====
-- A session's coroutine as the operation of async_timer.
use foxy.Base.{arith, true, false, some, List, [], ◌∷◌, ◌++◌, ◌≡◌, refl, ◌∙◌, ap}
use foxy.Net.{ErrorCode}
use foxy.TimedOp.{
  State, initiate, on_complete, on_timer, after_timer, invoke, completes, fires, Reach, here, next,
}
use foxy.TimedOp.Once.{called_once}
use foxy.Session.{
  Action, Answer, Coroutine, act, complete, throws, terminates, Result, pending, completed, thrown,
  terminated, run,
}

-- A coroutine that has completed hands its answer to the intermediate handler.
unfoldable pub settle : Coroutine → State Answer → State Answer
settle (complete ec n) t = on_complete (record { ec = ec; bytes_transferred = n }) t
settle (act a k) t = t
settle (throws ec) t = t
settle terminates t = t

-- The race after the coroutine `c` has been given some answers and stands where `k` does: its pending
-- action is answered, or the timer's wait reports, in any order.
pub data Race (c : Coroutine) : List Answer → Coroutine → State Answer → Type 0 where
  starts : Race c [] c (settle c initiate)
  answered :
      {rs : List Answer} {a : Action} {k : Answer → Coroutine} {t : State Answer}
      → Race c rs (act a k) t
      → (r : Answer) → Race c (rs ++ r ∷ []) (k r) (settle (k r) t)
  expires :
      {rs : List Answer} {k : Coroutine} {t : State Answer}
      → Race c rs k t
      → (ec : ErrorCode) → t.waits ≡ true
      → Race c rs k (on_timer ec t)

result_of : Coroutine → Result
result_of (complete ec n) = completed (record { ec = ec; bytes_transferred = n })
result_of (act a k) = pending
result_of (throws ec) = thrown ec
result_of terminates = terminated

-- What is left of a coroutine after some answers.
feed : Coroutine → Answer → Coroutine
feed (act a k) r = k r
feed (complete ec n) r = complete ec n
feed (throws ec) r = throws ec
feed terminates r = terminates

left : Coroutine → List Answer → Coroutine
left c [] = c
left c (r ∷ rs) = left (feed c r) rs

run-done : (c : Coroutine) (rs : List Answer) → (run c rs).result ≡ result_of (left c rs)
unfolding run result_of left feed
run-done (complete ec n) [] = refl
run-done (throws ec) [] = refl
run-done terminates [] = refl
run-done (act a k) [] = refl
run-done (complete ec n) (r ∷ rs) = run-done (complete ec n) rs
run-done (throws ec) (r ∷ rs) = run-done (throws ec) rs
run-done terminates (r ∷ rs) = run-done terminates rs
run-done (act a k) (r ∷ rs) = run-done (k r) rs

left-append :
    (c : Coroutine) (rs : List Answer) (r : Answer) → left c (rs ++ r ∷ []) ≡ feed (left c rs) r
unfolding left
left-append c [] r = refl
left-append c (q ∷ rs) r = left-append (feed c q) rs r

-- What the timer's state says of a coroutine that stands at `k`.
abbrev Stands : Coroutine → State Answer → Type 0
Stands (complete ec n) t = t.results ≡ some (record { ec = ec; bytes_transferred = n })
Stands (act a k) t = t.running ≡ true
Stands (throws ec) t = t.running ≡ true
Stands terminates t = t.running ≡ true

on_timer-keeps :
    (ec : ErrorCode) (t : State Answer)
    → ((on_timer ec t).running ≡ t.running) × ((on_timer ec t).results ≡ t.results)
unfolding on_timer after_timer invoke
on_timer-keeps ec t = ground arith

on_complete-results : (args : Answer) (t : State Answer) → (on_complete args t).results ≡ some args
unfolding on_complete invoke
on_complete-results args t = ground arith

settle-Stands : (k : Coroutine) (t : State Answer) → t.running ≡ true → Stands k (settle k t)
unfolding settle
settle-Stands (complete ec n) t h = on_complete-results _ t
settle-Stands (act a k) t h = h
settle-Stands (throws ec) t h = h
settle-Stands terminates t h = h

settle-Reach : (k : Coroutine) {t : State Answer} → Reach t → t.running ≡ true → Reach (settle k t)
unfolding settle
settle-Reach (complete ec n) r h = next r (completes (record { ec = ec; bytes_transferred = n }) h)
settle-Reach (act a k) r h = r
settle-Reach (throws ec) r h = r
settle-Reach terminates r h = r

on_timer-Stands :
    (ec : ErrorCode) (k : Coroutine) (t : State Answer) → Stands k t → Stands k (on_timer ec t)
on_timer-Stands ec (complete e n) t h = (on_timer-keeps ec t).1 ∙ h
on_timer-Stands ec (act a k) t h = (on_timer-keeps ec t).0 ∙ h
on_timer-Stands ec (throws e) t h = (on_timer-keeps ec t).0 ∙ h
on_timer-Stands ec terminates t h = (on_timer-keeps ec t).0 ∙ h

record Simulates (c : Coroutine) (rs : List Answer) (k : Coroutine) (t : State Answer)
    : Type 0 where
  reaches : Reach t
  stands : Stands k t
  residue : left c rs ≡ k

Race-Simulates :
    {c : Coroutine} {rs : List Answer} {k : Coroutine} {t : State Answer}
    → Race c rs k t
    → Simulates c rs k t
unfolding left feed
Race-Simulates {c} starts = record {
  reaches = settle-Reach c here refl;
  stands = settle-Stands c initiate refl;
  residue = refl;
}
Race-Simulates {c} (answered {rs} {a} {k} {t} race r) =
    let s = Race-Simulates race in
    record {
      reaches = settle-Reach (k r) s.reaches s.stands;
      stands = settle-Stands (k r) t s.stands;
      residue = left-append c rs r ∙ ap (λ j. feed j r) s.residue;
    }
Race-Simulates (expires {rs} {k} {t} race ec w) =
    let s = Race-Simulates race in
    record {
      reaches = next s.reaches (fires ec w);
      stands = on_timer-Stands ec k t s.stands;
      residue = s.residue;
    }

Stands-result :
    (k : Coroutine) (t : State Answer) (a : Answer)
    → Stands k t
    → t.running ≡ false
    → t.results ≡ some a
    → result_of k ≡ completed a
unfolding result_of
Stands-result (complete ec n) t a s h e = ground (arith, s, e)
Stands-result (act b k) t a s h e = absurd (cc)
Stands-result (throws ec) t a s h e = absurd (cc)
Stands-result terminates t a s h e = absurd (cc)

-- Under the timer a session's coroutine does what it does on its own: once neither an action nor a
-- wait is out, the user's handler has been invoked once, with the answer that the coroutine completes
-- with when it is given the same answers and no timer, and no empty result was read.
pub Race-refines :
    {c : Coroutine} {rs : List Answer} {k : Coroutine} {t : State Answer}
    → Race c rs k t
    → t.running ≡ false
    → t.waits ≡ false
    → (a : Answer) × (t.called ≡ a ∷ []) × ((run c rs).result ≡ completed a) × (t.fault ≡ false)
Race-refines {c} {rs} {k} {t} race h w =
    let s = Race-Simulates race in
    let (a, called, results, sound) = called_once s.reaches h w in
    (
      a,
      called,
      run-done c rs ∙ ap result_of s.residue ∙ Stands-result k t a s.stands h results,
      sound,
    )
