-- ===== src/Relay/Persistence.antt =====
-- When the relay leaves the tunnel open.
use foxy.Base.{
  Bool, true, false, not, ◌&&◌, ◌||◌, List, [], ◌∷◌, ◌≡◌, refl, sym, ◌∙◌, All, if_cases,
  if◌then◌else◌, arith,
}
use foxy.X3.Library.{X3}
use foxy.Net.{ErrorCode, success, is_error}
use foxy.Fields.{Beast}
use foxy.Relay.{
  Side, request, response, Message, Semantics, Action, complete, Point, reading_header,
  writing_header, reading, writing, finished, Machine, Reply, Half, half, set_half, clear, forward,
  body_round, after_read, after_body, after_write, after_read_header, resume_at, resume, run,
  initial,
}

module _ (b : Beast) (x : X3) (sem : Semantics) where
  -- The headers that the relay has read.
  abbrev noted : Point → Reply → List Message → List Message
  noted (reading_header s) r rest = if is_error r.ec then rest else r.message ∷ rest
  noted p r rest = rest

  abbrev pub headers : List Reply → Machine → List Message
  headers [] m = []
  headers (r ∷ rs) m = noted m.point r (headers rs (resume b x sem r m))

  abbrev pub IsPersistent : Message → Type 0
  IsPersistent m = sem.keep_alive m ≡ true

  -- Whether a report asks for the tunnel to be closed.
  abbrev asks_close : Point → Reply → Bool
  asks_close (reading_header s) r = not (is_error r.ec) && not (sem.keep_alive r.message)
  asks_close p r = false

  body_round-close : (s : Side) (m : Machine) → (body_round s m).close_tunnel ≡ m.close_tunnel
  unfolding body_round set_half half
  body_round-close request m = ground arith
  body_round-close response m = ground arith

  set_half-close :
      (s : Side) (h : Half) (m : Machine) → (set_half s h m).close_tunnel ≡ m.close_tunnel
  unfolding set_half
  set_half-close request h m = refl
  set_half-close response h m = refl

  after_body-close : (s : Side) (m : Machine) → (after_body s m).close_tunnel ≡ m.close_tunnel
  unfolding after_body
  after_body-close request m = refl
  after_body-close response m = refl

  after_write-close :
      (s : Side) (r : Reply) (m : Machine) → (after_write s r m).close_tunnel ≡ m.close_tunnel
  unfolding after_write
  after_write-close s r m =
      let h = record (half s m) { serializer_done = r.done } in
      let kept = set_half-close s h m in
      if_cases (λ (n : Machine). n.close_tunnel ≡ m.close_tunnel)
        (is_error (clear r.ec) || is_error m.ec) _ _ (λ bad. kept)
        λ fine.
          if_cases (λ (n : Machine). n.close_tunnel ≡ m.close_tunnel)
            (not (half s m).parser_done && not r.done) _ _
            (λ more. body_round-close s (set_half s h m) ∙ kept)
            (λ over. after_body-close s (set_half s h m) ∙ kept)

  resume_at-close :
      (p : Point) (r : Reply) (m : Machine)
      → (resume_at b x sem p r m).close_tunnel ≡ m.close_tunnel || asks_close p r
  unfolding resume_at after_read_header forward after_read set_half half
  resume_at-close (reading_header request) r m = ground arith
  resume_at-close (reading_header response) r m = ground arith
  resume_at-close (writing_header s) r m = ground (arith, body_round-close s m)
  resume_at-close (reading request) r m = ground arith
  resume_at-close (reading response) r m = ground arith
  resume_at-close (writing s) r m = ground (arith, after_write-close s r m)
  resume_at-close finished r m = ground arith

  noted-All :
      (p : Point) (r : Reply) (rest : List Message)
      → asks_close p r ≡ false
      → All IsPersistent rest
      → All IsPersistent (noted p r rest)
  noted-All (reading_header s) r rest h k = ground (arith, h, k)
  noted-All (writing_header s) r rest h k = k
  noted-All (reading s) r rest h k = k
  noted-All (writing s) r rest h k = k
  noted-All finished r rest h k = k

  run-open :
      (rs : List Reply) (m : Machine)
      → (run b x sem rs m).close_tunnel ≡ false
      → (m.close_tunnel ≡ false) × All IsPersistent (headers rs m)
  unfolding run resume
  run-open [] m h = (h, tt)
  run-open (r ∷ rs) m h =
      let (open_, persistent) = run-open rs (resume b x sem r m) h in
      let both : m.close_tunnel || asks_close m.point r ≡ false =
        sym (resume_at-close m.point r m) ∙ open_ in
      (
        ground (arith, both),
        noted-All m.point r (headers rs (resume b x sem r m)) (ground (arith, both)) persistent,
      )

  -- A completion that leaves the tunnel open comes without an error, on an open machine.
  Ends : Action → Bool → Type 0
  Ends (complete ec false) close = (ec ≡ success) × (close ≡ false)
  Ends a close = Unit

  Last : List Action → Bool → Type 0
  Last [] close = Unit
  Last (a ∷ before) close = Ends a close

  abbrev Inv : Machine → Type 0
  Inv m = Last m.trace m.close_tunnel

  Ends-success : (close : Bool) → Ends (complete success close) close
  unfolding Ends
  Ends-success true = tt
  Ends-success false = (refl, refl)

  body_round-Inv : (s : Side) (m : Machine) → Inv (body_round s m)
  unfolding body_round set_half half Last Ends
  body_round-Inv request m = ground arith
  body_round-Inv response m = ground arith

  after_body-Inv : (s : Side) (m : Machine) → Inv (after_body s m)
  unfolding after_body Last Ends
  after_body-Inv request m = tt
  after_body-Inv response m = Ends-success m.close_tunnel

  after_write-Inv : (s : Side) (r : Reply) (m : Machine) → Inv (after_write s r m)
  unfolding after_write Last Ends
  after_write-Inv s r m =
      let m' = set_half s (record (half s m) { serializer_done = r.done }) m in
      if_cases Inv (is_error (clear r.ec) || is_error m.ec) _ _ (λ bad. tt)
        λ fine.
          if_cases Inv (not (half s m).parser_done && not r.done) _ _ (λ more. body_round-Inv s m')
            (λ over. after_body-Inv s m')

  forward-Inv : (s : Side) (m : Machine) → Inv (forward b x sem s m)
  unfolding forward set_half half Last Ends
  forward-Inv request m = ground arith
  forward-Inv response m = ground arith

  resume_at-Inv : (p : Point) (r : Reply) (m : Machine) → Inv m → Inv (resume_at b x sem p r m)
  unfolding resume_at after_read_header after_read Last Ends
  resume_at-Inv (reading_header s) r m v =
      if_cases Inv (is_error r.ec) _ _ (λ bad. tt)
        (λ fine.
          forward-Inv s
            (set_half s (record (half s m) { message = r.message; parser_done = r.done }) m))
  resume_at-Inv (writing_header s) r m v =
      if_cases Inv (is_error r.ec) _ _ (λ bad. tt) (λ fine. body_round-Inv s m)
  resume_at-Inv (reading s) r m v = tt
  resume_at-Inv (writing s) r m v = after_write-Inv s r m
  resume_at-Inv finished r m v = v

  run-Inv : (rs : List Reply) (m : Machine) → Inv m → Inv (run b x sem rs m)
  unfolding run resume
  run-Inv [] m v = v
  run-Inv (r ∷ rs) m v = run-Inv rs (resume b x sem r m) (resume_at-Inv m.point r m v)

  -- A relay that completes with the tunnel left open completes without an error, and every header that
  -- it has read, of the request and of the response, asked for a persistent connection.
  pub run-IsPersistent :
      (rs : List Reply) (ec : ErrorCode) (before : List Action)
      → (run b x sem rs (initial b x sem)).trace ≡ complete ec false ∷ before
      → (ec ≡ success) × All IsPersistent (headers rs (initial b x sem))
  unfolding Last Ends
  run-IsPersistent rs ec before e =
      let (fine, still_open) = rw e at (run-Inv rs (initial b x sem) tt) in
      (fine, (run-open rs (initial b x sem) still_open).1)
