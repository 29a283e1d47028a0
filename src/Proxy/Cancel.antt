-- ===== src/Proxy/Cancel.antt =====
-- src/proxy.cpp: what proxy::cancel does to the accept loop.
use foxy.Base.{Bool, List, [], ◌∷◌, ◌++◌, ◌≡◌, refl, sym, ◌∙◌, ap}
use foxy.Net.{ErrorCode, success, operation_aborted, is_aborted}
use foxy.Proxy.Loop.{
  Action, Point, posted, accepting, over, resume_at, after_accept, Pending, idle, waiting, done,
  Acceptor, World, Event, run_post, accept_done, cancel, run_handler, launched, resume_loop,
  after_post, fulfil, handle, step, perform, opened,
}
use foxy.Proxy.Served.{served}

-- The loop has come to its accept when the accept is out.
abbrev AtAccept : Pending → Point → Type 0
AtAccept idle p = Unit
AtAccept waiting p = p ≡ accepting
AtAccept (done ec) p = p ≡ accepting

launched-AtAccept : (p : Point) → AtAccept (launched p) p
launched-AtAccept posted = tt
launched-AtAccept accepting = refl
launched-AtAccept over = tt

after_post-AtAccept :
    (p : Point) (w : World)
    → AtAccept w.pending w.loop.point
    → AtAccept (after_post p w).pending (after_post p w).loop.point
unfolding after_post resume_loop
after_post-AtAccept posted w h = launched-AtAccept (resume_at w.loop.point success w.loop).point
after_post-AtAccept accepting w h = h
after_post-AtAccept over w h = h

handle-AtAccept :
    (p : Pending) (w : World)
    → AtAccept w.pending w.loop.point
    → AtAccept (handle p w).pending (handle p w).loop.point
unfolding handle resume_loop
handle-AtAccept idle w h = h
handle-AtAccept waiting w h = h
handle-AtAccept (done ec) w h = launched-AtAccept (resume_at w.loop.point ec w.loop).point

fulfil-AtAccept :
    (ec : ErrorCode) (p : Pending) (q : Point) → AtAccept p q → AtAccept (fulfil ec p) q
fulfil-AtAccept ec idle q h = h
fulfil-AtAccept ec waiting q h = h
fulfil-AtAccept ec (done d) q h = h

-- The machine whose accept was cancelled, and the one that has ended.
abbrev aborted_world : List Action → World
aborted_world t = record {
  loop = record { point = accepting; trace = t };
  pending = done operation_aborted;
}

abbrev over_world : List Action → World
over_world t = record { loop = record { point = over; trace = t }; pending = idle }

-- One of two values: the first when an accept is waiting.
abbrev pub if_waiting {ℓ} : {A : Type ℓ} → Pending → A → A → A
if_waiting idle a b = b
if_waiting waiting a b = a
if_waiting (done ec) a b = b

module _ (acceptor : Acceptor) where
  cancelled-AtAccept : (p : Pending) (q : Point) → AtAccept p q → AtAccept (acceptor.cancelled p) q
  cancelled-AtAccept idle q h = rw acceptor.cancelled_idle tt
  cancelled-AtAccept waiting q h = rw acceptor.cancelled_waiting h
  cancelled-AtAccept (done ec) q h = rw (acceptor.cancelled_done ec) h

  perform-AtAccept :
      (es : List Event) (w : World)
      → AtAccept w.pending w.loop.point
      → AtAccept (perform acceptor es w).pending (perform acceptor es w).loop.point
  unfolding perform step
  perform-AtAccept [] w h = h
  perform-AtAccept (run_post ∷ es) w h =
      perform-AtAccept es (after_post w.loop.point w) (after_post-AtAccept w.loop.point w h)
  perform-AtAccept (accept_done ec ∷ es) w h =
      perform-AtAccept es (record w { pending = fulfil ec w.pending })
        (fulfil-AtAccept ec w.pending w.loop.point h)
  perform-AtAccept (cancel ∷ es) w h =
      perform-AtAccept es (record w { pending = acceptor.cancelled w.pending })
        (cancelled-AtAccept w.pending w.loop.point h)
  perform-AtAccept (run_handler ∷ es) w h =
      perform-AtAccept es (handle w.pending w) (handle-AtAccept w.pending w h)

  perform-over :
      (es : List Event) (t : List Action) → perform acceptor es (over_world t) ≡ over_world t
  unfolding perform step after_post handle
  perform-over [] t = refl
  perform-over (run_post ∷ es) t = perform-over es t
  perform-over (accept_done ec ∷ es) t = perform-over es t
  perform-over (cancel ∷ es) t =
      ap
        (λ p.
          perform acceptor es (record { loop = record { point = over; trace = t }; pending = p }))
        acceptor.cancelled_idle
      ∙ perform-over es t
  perform-over (run_handler ∷ es) t = perform-over es t

  handle-aborted :
      (t : List Action) → handle (done operation_aborted) (aborted_world t) ≡ over_world t
  unfolding handle resume_loop resume_at after_accept is_aborted
  handle-aborted t = refl

  perform-aborted :
      (es : List Event) (t : List Action)
      → served (perform acceptor es (aborted_world t)).loop.trace ≡ served t
  unfolding perform step after_post
  perform-aborted [] t = refl
  perform-aborted (run_post ∷ es) t = perform-aborted es t
  perform-aborted (accept_done ec ∷ es) t = perform-aborted es t
  perform-aborted (cancel ∷ es) t =
      ap (λ p. served (perform acceptor es (record (aborted_world t) { pending = p })).loop.trace)
        (acceptor.cancelled_done operation_aborted)
      ∙ perform-aborted es t
  perform-aborted (run_handler ∷ es) t =
      ap (λ w. served (perform acceptor es w).loop.trace) (handle-aborted t ∙ refl)
      ∙ ap (λ w. served w.loop.trace) (perform-over es t)

  -- A cancellation of an accept that is waiting leaves a machine that ends as soon as it is resumed.
  cancel-world :
      (p : Pending) (w : World)
      → w.pending ≡ p
      → AtAccept p w.loop.point
      → step acceptor cancel w ≡ if_waiting p (aborted_world w.loop.trace) w
  unfolding step
  cancel-world idle w e h =
      ap (λ p. record w { pending = p }) (ap acceptor.cancelled e ∙ acceptor.cancelled_idle ∙ sym e)
  cancel-world waiting w e h =
      ap (λ p. record w { pending = p }) (ap acceptor.cancelled e ∙ acceptor.cancelled_waiting)
      ∙ ap
          (λ q. record (aborted_world w.loop.trace) {
            loop = record { point = q; trace = w.loop.trace };
          })
          h
  cancel-world (done ec) w e h =
      ap (λ p. record w { pending = p })
        (ap acceptor.cancelled e ∙ acceptor.cancelled_done ec ∙ sym e)

  perform-handled :
      (gs fs : List Event) (t : List Action)
      → (perform acceptor (gs ++ (run_handler ∷ fs)) (aborted_world t)).loop.point ≡ over
  unfolding perform step after_post
  perform-handled [] fs t =
      ap (λ v. (perform acceptor fs v).loop.point) (handle-aborted t)
      ∙ ap (λ v. v.loop.point) (perform-over fs t)
  perform-handled (run_post ∷ gs) fs t = perform-handled gs fs t
  perform-handled (accept_done ec ∷ gs) fs t = perform-handled gs fs t
  perform-handled (cancel ∷ gs) fs t =
      ap
        (λ p.
          (perform acceptor (gs ++ (run_handler ∷ fs))
            (record (aborted_world t) { pending = p })).loop.point)
        (acceptor.cancelled_done operation_aborted)
      ∙ perform-handled gs fs t
  perform-handled (run_handler ∷ gs) fs t =
      ap (λ v. (perform acceptor (gs ++ (run_handler ∷ fs)) v).loop.point) (handle-aborted t)
      ∙ ap (λ v. v.loop.point) (perform-over (gs ++ (run_handler ∷ fs)) t)

  after_cancel :
      (p : Pending) (w : World) (gs fs : List Event)
      → (served (perform acceptor fs (if_waiting p (aborted_world w.loop.trace) w)).loop.trace
          ≡ if_waiting p (served w.loop.trace) (served (perform acceptor fs w).loop.trace))
        × ((perform acceptor
              (gs ++ (run_handler ∷ fs))
              (if_waiting p (aborted_world w.loop.trace) w)).loop.point
            ≡ if_waiting p over (perform acceptor (gs ++ (run_handler ∷ fs)) w).loop.point)
  after_cancel idle w gs fs = (refl, refl)
  after_cancel waiting w gs fs =
      (perform-aborted fs w.loop.trace, perform-handled gs fs w.loop.trace)
  after_cancel (done ec) w gs fs = (refl, refl)

  -- A cancellation that comes while an accept waits for a client ends the loop: whatever happens
  -- after it, nobody more is served, and the loop is over once the handler of the accept has run. One
  -- that comes at another time, before the first accept or when an accept is done and its handler is
  -- queued, is lost: as many clients are served, and the loop gets as far, as without it.
  pub perform-cancel :
      (is_open : Bool) (es gs fs : List Event)
      → (served (perform acceptor (cancel ∷ fs) (perform acceptor es (opened is_open))).loop.trace
          ≡ if_waiting
              (perform acceptor es (opened is_open)).pending
              (served (perform acceptor es (opened is_open)).loop.trace)
              (served (perform acceptor fs (perform acceptor es (opened is_open))).loop.trace))
        × ((perform acceptor
              (cancel ∷ (gs ++ (run_handler ∷ fs)))
              (perform acceptor es (opened is_open))).loop.point
            ≡ if_waiting
                (perform acceptor es (opened is_open)).pending
                over
                (perform acceptor
                  (gs ++ (run_handler ∷ fs))
                  (perform acceptor es (opened is_open))).loop.point)
  unfolding perform
  perform-cancel is_open es gs fs =
      let w = perform acceptor es (opened is_open) in
      let same = cancel-world w.pending w refl (perform-AtAccept es (opened is_open) tt) in
      let (nobody_more, gets_to) = after_cancel w.pending w gs fs in
      (
        ap (λ v. served (perform acceptor fs v).loop.trace) same ∙ nobody_more,
        ap (λ v. (perform acceptor (gs ++ (run_handler ∷ fs)) v).loop.point) same ∙ gets_to,
      )
