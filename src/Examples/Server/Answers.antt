-- ===== src/Examples/Server/Answers.antt =====
-- What request_handler of the examples does with a connection.
use foxy.Base.{
  ℕ, zero, suc, ◌≡◌, refl, ◌∙◌, ap, true, false, List, [], ◌∷◌, ◌++◌, ◌⊎◌, inl, inr, length, All,
  arith,
}
use foxy.Net.{success, is_error}
use foxy.Examples.Server.{
  Action, async_read, async_write, complete, writing, finished, Reply, response, loop_head, leave,
  after_read, after_write, resume_at, initial, run,
}

-- A request that was read and answered, and that asks to keep the connection.
abbrev pub IsKept : Reply × Reply → Type 0
IsKept (r, w) = (is_error r.ec ≡ false) × (r.keep_alive ≡ true) × (is_error w.ec ≡ false)

-- A read that fails; or a read behind which the write fails or the connection is not kept.
abbrev pub Ends : List Reply → Type 0
Ends [] = ⊥
Ends (r ∷ []) = is_error r.ec ≡ true
Ends (r ∷ w ∷ []) = (is_error r.ec ≡ false) × ((is_error w.ec ≡ true) ⊎ (r.keep_alive ≡ false))
Ends (r ∷ w ∷ q ∷ rs) = ⊥

abbrev pub replies : List (Reply × Reply) → List Reply
replies [] = []
replies ((r, w) ∷ rounds) = r ∷ w ∷ replies rounds

-- So many requests that were read and answered, the last action first.
abbrev pub answered : ℕ → List Action → List Action
answered zero t = t
answered (suc n) t = answered n (async_write response ∷ async_read ∷ t)

-- The last request is answered too if it was read.
abbrev pub last_actions : List Reply → List Action → List Action
last_actions (r ∷ w ∷ rs) t = async_write response ∷ async_read ∷ t
last_actions rs t = async_read ∷ t

round-kept :
    (r w : Reply) (t : List Action)
    → IsKept (r, w)
    → after_write w (after_read r (loop_head t)) ≡ loop_head (async_write response ∷ async_read ∷ t)
unfolding after_read after_write loop_head
round-kept r w t h = ground (arith, h.0, h.1, h.2)

round-point :
    (r : Reply) (t : List Action)
    → is_error r.ec ≡ false
    → (after_read r (loop_head t)).point ≡ writing
unfolding after_read loop_head
round-point r t h = rw h

run-rounds :
    (rounds : List (Reply × Reply)) (rs : List Reply) (t : List Action)
    → All IsKept rounds
    → run (replies rounds ++ rs) (loop_head t) ≡ run rs (loop_head (answered (length rounds) t))
unfolding run resume_at loop_head
run-rounds [] rs t h = refl
run-rounds ((r, w) ∷ rounds) rs t h =
    let back = replies rounds ++ rs in
    ap (λ p. run back (resume_at p w (after_read r (loop_head t)))) (round-point r t h.0.0)
    ∙ ap (run back) (round-kept r w t h.0)
    ∙ run-rounds rounds rs (async_write response ∷ async_read ∷ t) h.1

run-last :
    (rs : List Reply) (t : List Action)
    → Ends rs
    → ((run rs (loop_head t)).point ≡ finished)
      × ((run rs (loop_head t)).trace ≡ complete success 0 ∷ last_actions rs t)
unfolding run resume_at after_read after_write loop_head leave
run-last [] t h = elim h [ ]
run-last (r ∷ []) t h = rw h (refl, refl)
run-last (r ∷ w ∷ []) t (h, inl e) = rw h (rw e (refl, refl))
run-last (r ∷ w ∷ []) t (h, inr e) = rw h (ground (arith, e))
run-last (r ∷ w ∷ q ∷ rs) t h = elim h [ ]

-- A connection is served request by request, each answered by the one page, until a read or a write
-- fails or a request does not ask to keep the connection; then the handler completes with no error,
-- whatever the failure was.
pub run-answers :
    (rounds : List (Reply × Reply)) (last : List Reply)
    → All IsKept rounds
    → Ends last
    → ((run (replies rounds ++ last) initial).point ≡ finished)
      × ((run (replies rounds ++ last) initial).trace
          ≡ complete success 0 ∷ last_actions last (answered (length rounds) []))
unfolding loop_head
run-answers rounds last h e =
    rw (run-rounds rounds last [] h) (run-last last (answered (length rounds) []) e)
