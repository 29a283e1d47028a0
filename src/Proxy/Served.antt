-- ===== src/Proxy/Served.antt =====
-- Whom the proxy serves.
use foxy.Base.{
  ℕ, suc, ◌+◌, true, false, List, [], ◌∷◌, if◌then◌else◌, ◌≡◌, refl, sym, ◌∙◌, ap, Bool-cases, ◌⊎◌,
  inl, inr, arith,
}
use foxy.Net.{ErrorCode, is_error, is_aborted}
use foxy.Proxy.Loop.{
  Action, print_closed, post_loop, async_accept, log_error, serve, accepting, over, start,
  after_accept, resume_at, run,
}

-- How many connections have been handed to an operation of their own.
abbrev pub served : List Action → ℕ
served [] = 0
served (serve ∷ rest) = suc (served rest)
served (a ∷ rest) = served rest

-- How many accepts have succeeded before one was aborted.
abbrev pub accepted : List ErrorCode → ℕ
accepted [] = 0
accepted (ec ∷ ecs) =
    let rest = accepted ecs in if is_aborted ec then 0 else if is_error ec then rest else suc rest

run_over :
    (ecs : List ErrorCode) (t : List Action)
    → run ecs (record { point = over; trace = t }) ≡ record { point = over; trace = t }
unfolding run resume_at
run_over [] t = refl
run_over (ec ∷ ecs) t = run_over ecs t

-- What an accept leads to, and what it counts.
after_accept-accepted :
    (ec : ErrorCode) (ecs : List ErrorCode) (t : List Action)
    → ((after_accept ec (record { point = accepting; trace = t })
          ≡ record { point = over; trace = t })
        × (accepted (ec ∷ ecs) ≡ 0))
      ⊎ ((t' : List Action) × (after_accept ec (record { point = accepting; trace = t })
            ≡ record { point = accepting; trace = t' })
          × (accepted (ec ∷ ecs) + served t ≡ accepted ecs + served t'))
unfolding after_accept
after_accept-accepted ec ecs t = elim (Bool-cases (is_aborted ec)) [
  | inl stop ↦ inl (rw stop, rw stop)
  | inr go ↦ elim (Bool-cases (is_error ec)) [
    | inl bad ↦ inr (async_accept ∷ log_error ec ∷ t, rw (go, bad), rw (go, bad))
    | inr fine ↦ inr (async_accept ∷ serve ∷ t, rw (go, fine), rw (go, fine) (omega arith))
  ]
]

run_accepting :
    (ecs : List ErrorCode) (t : List Action)
    → served (run ecs (record { point = accepting; trace = t })).trace ≡ accepted ecs + served t
unfolding run resume_at
run_accepting [] t = omega arith
run_accepting (ec ∷ ecs) t = elim (after_accept-accepted ec ecs t) [
  | inl (step, none_left) ↦
      ap (λ m. served (run ecs m).trace) step
      ∙ ap (λ k. served k.trace) (run_over ecs t)
      ∙ omega (arith, none_left)
  | inr (t', step, same) ↦ ap (λ m. served (run ecs m).trace) step ∙ run_accepting ecs t' ∙ sym same
]

-- An open proxy serves every connection that is accepted until an accept is aborted, also those
-- after accepts that failed, and none after it; a closed one serves nobody.
pub run-served :
    (ec : ErrorCode) (ecs : List ErrorCode)
    → (served (run (ec ∷ ecs) (start true)).trace ≡ accepted ecs)
      × (served (run (ec ∷ ecs) (start false)).trace ≡ 0)
unfolding run resume_at start
run-served ec ecs = (
  run_accepting ecs (async_accept ∷ post_loop ∷ []) ∙ omega arith,
  ap (λ k. served k.trace) (run_over ecs (print_closed ∷ [])),
)
