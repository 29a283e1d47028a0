-- ===== src/Relay/Failures.antt =====
-- What the relay does where the reading or the writing of a body fails.
use foxy.Base.{
  true, false, ◌||◌, List, [], ◌∷◌, ◌≡◌, refl, ◌∙◌, ap, ◌⊎◌, inl, inr, All, arith, if◌then◌else◌,
}
use foxy.X3.Library.{X3}
use foxy.Net.{ErrorCode, success, is_error}
use foxy.Fields.{Beast}
use foxy.Relay.{
  Side, request, response, Semantics, Half, Action, construct, read_header, write_header, read,
  write, complete, finished, Machine, Reply, half, set_half, clear, body_round, after_read,
  after_body, after_write, new_half, outgoing, resume_at, resume, run, initial,
}
use foxy.Relay.Bodies.{
  BodyReports, taken, parts, chunk, no_more, is_taken, IsGoing, replies, relayed, run-rounds,
  run-body,
}
use foxy.Relay.Exchange.{
  Relayed, IsHeaded, IsRelayed, closes, headed, step-head, headed-done, headed-body,
}

-- After parts that were read and written, a read or the write behind it fails.
abbrev pub Fails : BodyReports → Type 0
Fails (taken w) = is_error (clear w.ec) ≡ true
Fails (parts rounds r w) =
    All IsGoing rounds × ((is_error (clear r.ec) ≡ true) ⊎ (is_error (clear w.ec) ≡ true))

-- What the last write reported.
abbrev pub last_code : BodyReports → ErrorCode
last_code (taken w) = clear w.ec
last_code (parts rounds r w) = clear w.ec

one_fails :
    (c d : ErrorCode)
    → (is_error c ≡ true) ⊎ (is_error d ≡ true)
    → (is_error d || is_error (if is_error c then c else success)) ≡ true
one_fails c d (inl h) = rw (h) (rw (h) (ground arith))
one_fails c d (inr h) = rw h refl

module _ (b : Beast) (x : X3) (sem : Semantics) where
  run-finished : (rs : List Reply) (m : Machine) → m.point ≡ finished → run b x sem rs m ≡ m
  unfolding run resume resume_at
  run-finished [] m e = refl
  run-finished (r ∷ rs) m e =
      ap (λ p. run b x sem rs (resume_at b x sem p r m)) e ∙ run-finished rs m e

  -- The relay is over, and has done so much.
  abbrev Over : Machine → List Action → Type 0
  Over m t = (m.point ≡ finished) × (m.trace ≡ t)

  step-failed :
      (side : Side) (r w : Reply) (m : Machine)
      → (half side m).parser_done ≡ false
      → (is_error (clear r.ec) ≡ true) ⊎ (is_error (clear w.ec) ≡ true)
      → Over
          (resume b x sem w (resume b x sem r (body_round side m)))
          (complete (clear w.ec) true ∷ write side (chunk r) ∷ read side ∷ m.trace)
  unfolding resume resume_at body_round half set_half after_read after_write
  step-failed request r w m e h = rw e (rw (one_fails (clear r.ec) (clear w.ec) h) (refl, refl))
  step-failed response r w m e h = rw e (rw (one_fails (clear r.ec) (clear w.ec) h) (refl, refl))

  step-failed_end :
      (side : Side) (w : Reply) (m : Machine)
      → (half side m).parser_done ≡ true
      → is_error (clear w.ec) ≡ true
      → Over
          (resume b x sem w (body_round side m))
          (complete (clear w.ec) true ∷ write side (no_more (half side m).body) ∷ m.trace)
  unfolding resume resume_at body_round half set_half after_read after_write is_error
  step-failed_end request w m e h = rw e (ground (arith, h))
  step-failed_end response w m e h = rw e (ground (arith, h))

  Over-more :
      (rs : List Reply) (m : Machine) (t : List Action) → Over m t → Over (run b x sem rs m) t
  Over-more rs m t (p, e) =
      let same = run-finished rs m p in
      (ap (λ (o : Machine). o.point) same ∙ p, ap (λ (o : Machine). o.trace) same ∙ e)

  run-failed :
      (side : Side) (body : BodyReports) (rest : List Reply) (m : Machine)
      → (half side m).parser_done ≡ is_taken body
      → (half side m).body ≡ new_half.body
      → Fails body
      → Over
          (run b x sem (replies body rest) (body_round side m))
          (complete (last_code body) true ∷ relayed side body m.trace)
  unfolding run
  run-failed side (taken w) rest m e fresh h =
      let (p, t) = Over-more rest _ _ (step-failed_end side w m e h) in
      (p, t ∙ ap (λ c. complete (clear w.ec) true ∷ write side (no_more c) ∷ m.trace) fresh)
  run-failed side (parts rounds r w) rest m e fresh (going, h) =
      let (n, same, kept, left) = run-rounds b x sem side rounds (r ∷ w ∷ rest) m e going in
      let (p, t) = Over-more rest _ _ (step-failed side r w n left h) in
      (
        ap (λ (o : Machine). o.point) same ∙ p,
        ap (λ (o : Machine). o.trace) same
            ∙ t
            ∙ ap (λ s. complete (clear w.ec) true ∷ write side (chunk r) ∷ read side ∷ s)
                kept.trace,
      )

  -- The side on which the relay fails: the request, or the response behind a request that was relayed.
  abbrev pub FailsOn : Side → Relayed → Relayed → Type 0
  FailsOn request q s = IsHeaded b x sem q × Fails q.body
  FailsOn response q s = IsRelayed b x sem q × IsHeaded b x sem s × Fails s.body

  -- What is reported up to the failure, and behind it.
  abbrev pub reported : Side → Relayed → Relayed → List Reply → List Reply
  reported request q s rest = q.head ∷ q.sent ∷ replies q.body rest
  reported response q s rest =
      q.head ∷ q.sent ∷ replies q.body (s.head ∷ s.sent ∷ replies s.body rest)

  abbrev request_done : Relayed → List Action
  request_done q = relayed request q.body (
      write_header request (outgoing b x sem (closes b x sem q) q.head.message [])
      ∷ read_header request
      ∷ construct
      ∷ [])

  abbrev pub failed : Side → Relayed → Relayed → List Action
  failed request q s = complete (last_code q.body) true ∷ request_done q
  failed response q s =
      complete (last_code s.body) true
      ∷ relayed response s.body (
          write_header response
            (outgoing b x sem (closes b x sem q || closes b x sem s) s.head.message [])
          ∷ read_header response
          ∷ request_done q)

  run-on_response :
      (q s : Relayed) (rest : List Reply)
      → IsRelayed b x sem q
      → IsHeaded b x sem s
      → Fails s.body
      → Over (run b x sem (reported response q s rest) (initial b x sem)) (failed response q s)
  unfolding run half after_body set_half
  run-on_response q s rest hq hs h =
      let m = initial b x sem in
      let back = s.head ∷ s.sent ∷ replies s.body rest in
      let (n, first, kept) =
        run-body b x sem request q.body back (headed b x sem request q m)
          (headed-done b x sem request q m ∙ hq.headed.done) (headed-body b x sem request q m refl)
          hq.body in
      let met = after_body request n in
      let whole =
        ap (run b x sem (replies q.body back)) (step-head b x sem request q m refl refl hq.headed)
        ∙ first
        ∙ ap (run b x sem (replies s.body rest))
            (step-head b x sem response s met refl kept.other hs) in
      let (p, t) =
        run-failed response s.body rest (headed b x sem response s met)
          (headed-done b x sem response s met ∙ hs.done)
          (headed-body b x sem response s met (ap (λ (h : Half). h.body) kept.other)) h in
      (
        ap (λ (o : Machine). o.point) whole ∙ p,
        ap (λ (o : Machine). o.trace) whole ∙ t ∙ rw (kept.close_tunnel, kept.trace) refl,
      )

  run-on_request :
      (q s : Relayed) (rest : List Reply)
      → IsHeaded b x sem q
      → Fails q.body
      → Over (run b x sem (reported request q s rest) (initial b x sem)) (failed request q s)
  unfolding run half
  run-on_request q s rest hq h =
      let m = initial b x sem in
      let same =
        ap (run b x sem (replies q.body rest)) (step-head b x sem request q m refl refl hq) in
      let (p, t) =
        run-failed request q.body rest (headed b x sem request q m)
          (headed-done b x sem request q m ∙ hq.done) (headed-body b x sem request q m refl) h in
      (ap (λ (o : Machine). o.point) same ∙ p, ap (λ (o : Machine). o.trace) same ∙ t)

  -- Where a part of a body fails to be read or to be written, after parts that did not, on the request or
  -- on the response behind a relayed request, the relay writes what it was about to write, completes with
  -- the tunnel to be closed, and does nothing more, whatever is reported. The code that it completes with
  -- is that of the last write, also where it was the read that failed.
  pub run-failure :
      (side : Side) (q s : Relayed) (rest : List Reply)
      → FailsOn side q s
      → ((run b x sem (reported side q s rest) (initial b x sem)).point ≡ finished)
        × ((run b x sem (reported side q s rest) (initial b x sem)).trace ≡ failed side q s)
  run-failure request q s rest (hq, h) = run-on_request q s rest hq h
  run-failure response q s rest (hq, hs, h) = run-on_response q s rest hq hs h
