-- ===== src/Listener/Runs.antt =====
-- What a listener and its connections come to.
use foxy.Base.{
  ℕ, suc, ◌+◌, Bool, true, false, List, [], ◌∷◌, if◌then◌else◌, ◌≡◌, refl, ◌∙◌, ap, Bool-cases, inl,
  inr, arith,
}
use foxy.Net.{ErrorCode, is_error, is_aborted}
use foxy.Listener.Connection
use foxy.Listener.Connection.{
  async_handshake, run_handler, async_shutdown, handshaking, handling, shutting_down, finished,
}
use foxy.Listener.Accepting
use foxy.Listener.Accepting.{
  Action, async_accept, log_error, serve, Machine, loop_head, Event, accepted, shutdown, step,
  after_accept,
}

-- The reports of a connection: the handshake's only where there is TLS, and the handler's only where
-- the handshake did not fail.
abbrev pub reports : Bool → ErrorCode → ErrorCode → ErrorCode → List ErrorCode
reports true h u s = if is_error h then h ∷ s ∷ [] else h ∷ u ∷ s ∷ []
reports false h u s = u ∷ s ∷ []

abbrev pub served_trace : Bool → ErrorCode → List Connection.Action
served_trace true h =
    if is_error h
    then async_shutdown ∷ async_handshake ∷ []
    else async_shutdown ∷ run_handler ∷ async_handshake ∷ []
served_trace false h = async_shutdown ∷ run_handler ∷ []

-- Whatever is reported, a connection ends with one shutdown; the handler runs once, after the
-- handshake on a TLS stream and at once on a plain one, unless the handshake fails.
pub run-served_trace :
    (is_ssl : Bool) (h u s : ErrorCode)
    → Connection.run (reports is_ssl h u s) (Connection.start is_ssl)
      ≡ record { point = finished; trace = served_trace is_ssl h }
unfolding Connection.run Connection.start
run-served_trace true h u s = ground arith
run-served_trace false h u s = refl

-- How many connections have been handed to an operation of their own, over such a stream.
abbrev pub served : Bool → List Action → ℕ
served b [] = 0
served true (serve true ∷ rest) = suc (served true rest)
served false (serve false ∷ rest) = suc (served false rest)
served b (a ∷ rest) = served b rest

-- How many accepts succeed on an acceptor, up to the first that fails, or the first that succeeds
-- after the acceptor was closed, which is the last one that is waited for.
abbrev pub successes : Bool → List Event → ℕ
successes is_open [] = 0
successes is_open (shutdown ∷ es) = successes false es
successes is_open (accepted ec ∷ es) =
    let rest = suc (successes is_open es) in if is_error ec then 0 else if is_open then rest else 1

served-serve : (c : Bool) (t : List Action) → served c (serve c ∷ t) ≡ suc (served c t)
served-serve true t = refl
served-serve false t = refl

served-log_error :
    (c : Bool) (ec : ErrorCode) (t : List Action) → served c (log_error ec ∷ t) ≡ served c t
served-log_error true ec t = refl
served-log_error false ec t = refl

served-async_accept : (c : Bool) (t : List Action) → served c (async_accept ∷ t) ≡ served c t
served-async_accept true t = refl
served-async_accept false t = refl

abbrev machine : Bool → Bool → Bool → List Action → Machine
machine o c a t = record { is_open = o; has_ctx = c; accepting = a; trace = t }

run_idle :
    (es : List Event) (o c : Bool) (t : List Action)
    → (Accepting.run es (machine o c false t)).trace ≡ t
unfolding Accepting.run step
run_idle [] o c t = refl
run_idle (accepted ec ∷ es) o c t = run_idle es o c t
run_idle (shutdown ∷ es) o c t = run_idle es false c t

-- An accept that failed ends the loop, logged or not.
after_accept_bad :
    (ec : ErrorCode) (es : List Event) (o c : Bool) (t : List Action)
    → is_error ec ≡ true
    → served c (Accepting.run es (after_accept ec (machine o c true t))).trace ≡ served c t
unfolding after_accept
after_accept_bad ec es o c t bad = elim (Bool-cases (is_aborted ec)) [
  | inl e ↦ rw (bad, e) (ap (served c) (run_idle es o c t))
  | inr e ↦
      rw (bad, e) (ap (served c) (run_idle es o c (log_error ec ∷ t)) ∙ served-log_error c ec t)
]

after_accept_fine :
    (ec : ErrorCode) (m : Machine)
    → is_error ec ≡ false
    → after_accept ec m ≡ loop_head (record m { trace = serve m.has_ctx ∷ m.trace })
unfolding after_accept
after_accept_fine ec m fine = rw fine

-- An accept that succeeded is served, and is the last one on a closed acceptor.
run_fine :
    (ec : ErrorCode) (es : List Event) (o c : Bool) (t : List Action)
    → is_error ec ≡ false
    → ((t' : List Action)
        → served c (Accepting.run es (machine true c true t')).trace
          ≡ successes true es + served c t')
    → served c (Accepting.run es (after_accept ec (machine o c true t))).trace
      ≡ (if o then suc (successes o es) else 1) + served c t
unfolding loop_head
run_fine ec es true c t fine rest =
    ap (λ m. served c (Accepting.run es m).trace)
      (after_accept_fine ec (machine true c true t) fine)
    ∙ rest (async_accept ∷ serve c ∷ t)
    ∙ omega (arith, served-async_accept c (serve c ∷ t), served-serve c t)
run_fine ec es false c t fine rest =
    ap (λ m. served c (Accepting.run es m).trace)
      (after_accept_fine ec (machine false c true t) fine)
    ∙ ap (served c) (run_idle es false c (serve c ∷ t))
    ∙ omega (arith, served-serve c t)

run_accepting :
    (es : List Event) (o c : Bool) (t : List Action)
    → served c (Accepting.run es (machine o c true t)).trace ≡ successes o es + served c t
unfolding Accepting.run step loop_head
run_accepting [] o c t = omega arith
run_accepting (shutdown ∷ es) o c t = run_accepting es false c t
run_accepting (accepted ec ∷ es) o c t = elim (Bool-cases (is_error ec)) [
  | inl bad ↦ rw bad (after_accept_bad ec es o c t bad ∙ omega arith)
  | inr fine ↦ rw fine (run_fine ec es o c t fine (run_accepting es true c))
]

-- A listener with an open acceptor serves, over TLS exactly when it has a context, every connection
-- that it accepts until the first accept that fails; after a shutdown it serves at most the one that
-- had been accepted already. On a closed acceptor it serves nobody.
pub run-successes :
    (es : List Event) (has_ctx : Bool)
    → (served has_ctx (Accepting.run es (Accepting.start true has_ctx)).trace ≡ successes true es)
      × ((Accepting.run es (Accepting.start false has_ctx)).trace ≡ [])
unfolding Accepting.start loop_head
run-successes es has_ctx = (
  run_accepting es true has_ctx (async_accept ∷ []) ∙ omega (arith, served-async_accept has_ctx []),
  run_idle es false has_ctx [],
)
