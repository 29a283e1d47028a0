-- ===== src/Relay/Exchange.antt =====
-- What the relay does with a request and its response where nothing fails.
use foxy.Base.{Bool, false, not, ◌||◌, List, [], ◌∷◌, ◌≡◌, refl, ◌∙◌, ap}
use foxy.X3.Library.{X3}
use foxy.Net.{success, is_error}
use foxy.Fields.{Beast, has_foxy_via, export_connect_fields}
use foxy.Relay.{
  Side, request, response, Semantics, Half, Action, construct, read_header, write_header, complete,
  reading_header, writing_header, finished, Machine, Reply, half, set_half, body_round, after_body,
  outgoing, new_half, forward, after_read_header, resume_at, resume, run, initial, initial_with,
}
use foxy.Relay.Bodies.{BodyReports, is_taken, IsBody, replies, relayed, run-body}

-- What is reported on one message: the header and the writing of it, and the body.
pub record Relayed : Type 0 where
  pub head : Reply
  pub sent : Reply
  pub body : BodyReports

-- All the reports behind the request's header.
abbrev pub reports : Relayed → Relayed → List Reply
reports q s = q.sent ∷ replies q.body (s.head ∷ s.sent ∷ replies s.body [])

module _ (b : Beast) (x : X3) (sem : Semantics) where
  abbrev pub closes : Relayed → Bool
  closes e = not (sem.keep_alive e.head.message)

  -- All that the relay does, on top of what it has done, the last action first.
  abbrev pub exchanged : Relayed → Relayed → List Action → List Action
  exchanged q s t =
      complete success (closes q || closes s)
      ∷ relayed response s.body (
          write_header response (outgoing b x sem (closes q || closes s) s.head.message [])
          ∷ read_header response
          ∷ relayed request q.body
              (write_header request (outgoing b x sem (closes q) q.head.message []) ∷ t))

  -- The header is read and written, and the message has not been through foxy.
  pub record IsHeaded (e : Relayed) : Type 0 where
    pub head : is_error e.head.ec ≡ false
    pub fresh : has_foxy_via b x e.head.message.fields ≡ false
    pub sent : is_error e.sent.ec ≡ false
    pub done : e.head.done ≡ is_taken e.body

  -- Nothing fails.
  pub record IsRelayed (e : Relayed) : Type 0 where
    pub headed : IsHeaded e
    pub body : IsBody e.body

  abbrev pub headed : Side → Relayed → Machine → Machine
  headed side e m =
      set_half side
        (record (half side m) {
          message =
              outgoing b x sem (m.close_tunnel || not (sem.keep_alive e.head.message))
                e.head.message [];
          exported = (export_connect_fields b e.head.message.fields []).1;
          parser_done = e.head.done;
        })
        (record m {
          close_tunnel = m.close_tunnel || not (sem.keep_alive e.head.message);
          point = writing_header side;
          trace =
              write_header side (
                outgoing b x sem (m.close_tunnel || not (sem.keep_alive e.head.message))
                  e.head.message [])
              ∷ m.trace;
        })

  pub step-head :
      (side : Side) (e : Relayed) (m : Machine)
      → m.point ≡ reading_header side
      → half side m ≡ new_half
      → IsHeaded e
      → resume b x sem e.sent (resume b x sem e.head m) ≡ body_round side (headed side e m)
  unfolding resume resume_at half set_half after_read_header forward
  step-head request e m p n h = rw (p, n) (rw (h.head) (rw (h.fresh) (rw (h.sent) refl)))
  step-head response e m p n h = rw (p, n) (rw (h.head) (rw (h.fresh) (rw (h.sent) refl)))

  -- The machine that takes over a parser.
  abbrev taking_over : Relayed → Machine
  taking_over q = record {
    req = record new_half { message = q.head.message; parser_done = q.head.done };
    res = new_half;
    ec = success;
    close_tunnel = false;
    point = finished;
    trace = construct ∷ [];
  }

  step-taking_over :
      (q : Relayed)
      → IsHeaded q
      → resume b x sem q.sent (initial_with b x sem q.head.message q.head.done)
        ≡ body_round request (headed request q (taking_over q))
  unfolding resume resume_at half set_half initial_with forward
  step-taking_over q h = rw (h.fresh) (rw (h.sent) refl)

  pub headed-done :
      (side : Side) (e : Relayed) (m : Machine)
      → (half side (headed side e m)).parser_done ≡ e.head.done
  unfolding half set_half
  headed-done request e m = refl
  headed-done response e m = refl

  pub headed-body :
      (side : Side) (e : Relayed) (m : Machine)
      → (half side m).body ≡ new_half.body
      → (half side (headed side e m)).body ≡ new_half.body
  unfolding half set_half
  headed-body request e m n = n
  headed-body response e m n = n

  -- What follows once the request's header has been written, however it came to the machine.
  run-written :
      (q s : Relayed) (m start : Machine)
      → m.close_tunnel ≡ false
      → m.res ≡ new_half
      → (half request m).body ≡ new_half.body
      → IsRelayed q
      → IsRelayed s
      → resume b x sem q.sent start ≡ body_round request (headed request q m)
      → ((run b x sem (q.sent ∷ replies q.body (s.head ∷ s.sent ∷ replies s.body [])) start).point
          ≡ finished)
        × ((run b x sem (q.sent ∷ replies q.body (s.head ∷ s.sent ∷ replies s.body [])) start).trace
            ≡ exchanged q s m.trace)
  unfolding run half after_body set_half
  run-written q s m start open_yet new_yet body_yet hq hs e =
      let back = s.head ∷ s.sent ∷ replies s.body [] in
      let (n, first, kept) =
        run-body b x sem request q.body back (headed request q m)
          (headed-done request q m ∙ hq.headed.done) (headed-body request q m body_yet) hq.body in
      let met = after_body request n in
      let (o, second, kept') =
        run-body b x sem response s.body [] (headed response s met)
          (headed-done response s met ∙ hs.headed.done)
          (headed-body response s met (ap (λ (h : Half). h.body) (kept.other ∙ new_yet))) hs.body in
      let whole =
        ap (run b x sem (replies q.body back)) e
        ∙ first
        ∙ ap (run b x sem (replies s.body []))
            (step-head response s met refl (kept.other ∙ new_yet) hs.headed)
        ∙ second in
      (
        ap (λ (a : Machine). a.point) whole,
        ap (λ (a : Machine). a.trace) whole
            ∙ rw (kept'.close_tunnel, kept'.trace)
                (rw (kept.close_tunnel, kept.trace) (rw open_yet refl)),
      )

  -- A request and its response that nothing interrupts are handed on whole, whether the relay reads the
  -- request's header or takes over a parser: the header of each, as it goes out, then what is read of
  -- the body, in parts as long as what was read, in order, or the end of a body that came with the
  -- header; then the relay completes with no error, and with the tunnel to be closed where one of the
  -- two messages does not ask to keep the connection.
  pub run-exchange :
      (q s : Relayed)
      → IsRelayed q
      → IsRelayed s
      → ((run b x sem (q.head ∷ reports q s) (initial b x sem)).point ≡ finished)
        × ((run b x sem (q.head ∷ reports q s) (initial b x sem)).trace
            ≡ exchanged q s (read_header request ∷ construct ∷ []))
        × ((run b x sem (reports q s) (initial_with b x sem q.head.message q.head.done)).point
            ≡ finished)
        × ((run b x sem (reports q s) (initial_with b x sem q.head.message q.head.done)).trace
            ≡ exchanged q s (construct ∷ []))
  unfolding run half
  run-exchange q s hq hs =
      let (over, acts) =
        run-written q s (initial b x sem) (resume b x sem q.head (initial b x sem)) refl refl refl
          hq hs (step-head request q (initial b x sem) refl refl hq.headed) in
      let (over', acts') =
        run-written q s (taking_over q) (initial_with b x sem q.head.message q.head.done) refl refl
          refl hq hs (step-taking_over q hq.headed) in
      (over, acts, over', acts')
