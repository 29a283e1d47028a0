-- ===== src/Relay/Bodies.antt =====
-- How the relay hands on a body where nothing fails.
use foxy.Base.{
  ◌-◌, Bool, true, false, not, ◌&&◌, List, [], ◌∷◌, ◌≡◌, refl, ◌∙◌, ap, ◌⊎◌, inl, inr, All,
  if◌then◌else◌, arith,
}
use foxy.X3.Library.{X3}
use foxy.Net.{success, is_error}
use foxy.Fields.{Beast}
use foxy.Relay.{
  Side, request, response, Semantics, Chunk, Half, Action, read, write, writing, Machine, Reply,
  half, set_half, buffer_size, clear, body_round, after_read, after_body, after_write, new_half,
  resume_at, resume, run,
}

-- The part of a body that was read.
abbrev pub chunk : Reply → Chunk
chunk r = record { has_data = true; size = buffer_size - r.left; more = not r.done }

abbrev pub part : Side → Reply → Reply → Machine → Machine
part side r w m =
    set_half side
      (record (half side m) { body = chunk r; parser_done = r.done; serializer_done = w.done })
      (record m {
        ec = success;
        point = writing side;
        trace = write side (chunk r) ∷ read side ∷ m.trace;
      })

-- Neither the read nor the write fails; a full buffer is no failure.
abbrev pub AreFine : Reply × Reply → Type 0
AreFine (r, w) = (is_error (clear r.ec) ≡ false) × (is_error (clear w.ec) ≡ false)

module _ (b : Beast) (x : X3) (sem : Semantics) where
  step :
      (side : Side) (r w : Reply) (m : Machine)
      → (half side m).parser_done ≡ false
      → AreFine (r, w)
      → resume b x sem w (resume b x sem r (body_round side m)) ≡ (
          if not r.done && not w.done
          then body_round side (part side r w m)
          else after_body side (part side r w m))
  unfolding resume resume_at body_round half set_half after_read after_write is_error
  step request r w m e h = rw e (ground (arith, h.0, h.1))
  step response r w m e h = rw e (ground (arith, h.0, h.1))

-- A body that was there with its header, after which nothing is written but the end; or one that is
-- read and written in parts, the last of which ends the parser or the serializer.
pub data BodyReports : Type 0 where
  taken : Reply → BodyReports
  parts : List (Reply × Reply) → Reply → Reply → BodyReports

abbrev pub is_taken : BodyReports → Bool
is_taken (taken w) = true
is_taken (parts rounds r w) = false

abbrev pub IsGoing : Reply × Reply → Type 0
IsGoing (r, w) = AreFine (r, w) × (r.done ≡ false) × (w.done ≡ false)

abbrev pub IsBody : BodyReports → Type 0
IsBody (taken w) = is_error (clear w.ec) ≡ false
IsBody (parts rounds r w) =
    All IsGoing rounds × AreFine (r, w) × ((r.done ≡ true) ⊎ (w.done ≡ true))

abbrev pub replies_rounds : List (Reply × Reply) → List Reply → List Reply
replies_rounds [] rs = rs
replies_rounds ((r, w) ∷ rounds) rs = r ∷ w ∷ replies_rounds rounds rs

-- The reports on a body, and what is reported behind them.
abbrev pub replies : BodyReports → List Reply → List Reply
replies (taken w) rs = w ∷ rs
replies (parts rounds r w) rs = replies_rounds rounds (r ∷ w ∷ rs)

abbrev pub no_more : Chunk → Chunk
no_more c = record c { has_data = false; size = 0 }

abbrev pub copied : Side → List (Reply × Reply) → List Action → List Action
copied side [] t = t
copied side ((r, w) ∷ rounds) t = copied side rounds (write side (chunk r) ∷ read side ∷ t)

-- What the relay does about a body, on top of what it has done, the last action first.
abbrev pub relayed : Side → BodyReports → List Action → List Action
relayed side (taken w) t = write side (record { has_data = false; size = 0; more = true }) ∷ t
relayed side (parts rounds r w) t = write side (chunk r) ∷ read side ∷ copied side rounds t

abbrev pub other_half : Side → Machine → Half
other_half request m = m.res
other_half response m = m.req

-- A machine that is done with a body, for the machine that came to it.
pub record Keeps (side : Side) (m m' : Machine) (t : List Action) : Type 0 where
  pub trace : m'.trace ≡ t
  pub close_tunnel : m'.close_tunnel ≡ m.close_tunnel
  pub other : other_half side m' ≡ other_half side m

module _ (b : Beast) (x : X3) (sem : Semantics) where
  step-going :
      (side : Side) (r w : Reply) (m : Machine)
      → (half side m).parser_done ≡ false
      → IsGoing (r, w)
      → resume b x sem w (resume b x sem r (body_round side m)) ≡ body_round side (part side r w m)
  step-going side r w m e h = step b x sem side r w m e h.0 ∙ rw (h.1) (rw (h.2) refl)

  step-last :
      (side : Side) (r w : Reply) (m : Machine)
      → (half side m).parser_done ≡ false
      → AreFine (r, w)
      → (r.done ≡ true) ⊎ (w.done ≡ true)
      → resume b x sem w (resume b x sem r (body_round side m)) ≡ after_body side (part side r w m)
  step-last side r w m e h (inl k) = step b x sem side r w m e h ∙ rw k refl
  step-last side r w m e h (inr k) = step b x sem side r w m e h ∙ rw k (ground arith)

  part-done :
      (side : Side) (r w : Reply) (m : Machine)
      → r.done ≡ false
      → (half side (part side r w m)).parser_done ≡ false
  unfolding half set_half
  part-done request r w m e = e
  part-done response r w m e = e

  part-Keeps :
      (side : Side) (r w : Reply) (m : Machine)
      → Keeps side m (part side r w m) (write side (chunk r) ∷ read side ∷ m.trace)
  unfolding half set_half
  part-Keeps request r w m = record { trace = refl; close_tunnel = refl; other = refl }
  part-Keeps response r w m = record { trace = refl; close_tunnel = refl; other = refl }

  -- The rounds that leave something to be read.
  pub run-rounds :
      (side : Side) (rounds : List (Reply × Reply)) (rest : List Reply) (m : Machine)
      → (half side m).parser_done ≡ false
      → All IsGoing rounds
      → (m' : Machine) × (run b x sem (replies_rounds rounds rest) (body_round side m)
          ≡ run b x sem rest (body_round side m'))
        × Keeps side m m' (copied side rounds m.trace)
        × ((half side m').parser_done ≡ false)
  unfolding run
  run-rounds side [] rest m e h =
      (m, refl, record { trace = refl; close_tunnel = refl; other = refl }, e)
  run-rounds side ((p, q) ∷ rounds) rest m e h =
      let (m', same, kept, left) =
        run-rounds side rounds rest (part side p q m) (part-done side p q m h.0.1) h.1 in
      let before = part-Keeps side p q m in
      (
        m',
        ap (run b x sem (replies_rounds rounds rest)) (step-going side p q m e h.0) ∙ same,
        record {
          trace = kept.trace ∙ ap (copied side rounds) before.trace;
          close_tunnel = kept.close_tunnel ∙ before.close_tunnel;
          other = kept.other ∙ before.other;
        },
        left,
      )

  run-parts :
      (side : Side) (rounds : List (Reply × Reply)) (r w : Reply) (rest : List Reply) (m : Machine)
      → (half side m).parser_done ≡ false
      → All IsGoing rounds
      → AreFine (r, w)
      → (r.done ≡ true) ⊎ (w.done ≡ true)
      → (m' : Machine) × (run b x sem (replies_rounds rounds (r ∷ w ∷ rest)) (body_round side m)
          ≡ run b x sem rest (after_body side m'))
        × Keeps side m m' (write side (chunk r) ∷ read side ∷ copied side rounds m.trace)
  unfolding run
  run-parts side rounds r w rest m e h f l =
      let (n, same, kept, left) = run-rounds side rounds (r ∷ w ∷ rest) m e h in
      let last = part-Keeps side r w n in
      (
        part side r w n,
        same ∙ ap (run b x sem rest) (step-last side r w n left f l),
        record {
          trace = last.trace ∙ ap (λ t. write side (chunk r) ∷ read side ∷ t) kept.trace;
          close_tunnel = last.close_tunnel ∙ kept.close_tunnel;
          other = last.other ∙ kept.other;
        },
      )

  abbrev pub whole : Side → Reply → Machine → Machine
  whole side w m =
      set_half side
        (record (half side m) { body = no_more (half side m).body; serializer_done = w.done })
        (record m {
          ec = success;
          point = writing side;
          trace = write side (no_more (half side m).body) ∷ m.trace;
        })

  step-taken :
      (side : Side) (w : Reply) (m : Machine)
      → (half side m).parser_done ≡ true
      → is_error (clear w.ec) ≡ false
      → resume b x sem w (body_round side m) ≡ after_body side (whole side w m)
  unfolding resume resume_at body_round half set_half after_write is_error
  step-taken request w m e h = rw e (ground (arith, h))
  step-taken response w m e h = rw e (ground (arith, h))

  whole-Keeps :
      (side : Side) (w : Reply) (m : Machine)
      → Keeps side m (whole side w m) (write side (no_more (half side m).body) ∷ m.trace)
  unfolding half set_half
  whole-Keeps request w m = record { trace = refl; close_tunnel = refl; other = refl }
  whole-Keeps response w m = record { trace = refl; close_tunnel = refl; other = refl }

  pub run-body :
      (side : Side) (body : BodyReports) (rest : List Reply) (m : Machine)
      → (half side m).parser_done ≡ is_taken body
      → (half side m).body ≡ new_half.body
      → IsBody body
      → (m' : Machine) × (run b x sem (replies body rest) (body_round side m)
          ≡ run b x sem rest (after_body side m'))
        × Keeps side m m' (relayed side body m.trace)
  unfolding run
  run-body side (parts rounds r w) rest m e fresh h = run-parts side rounds r w rest m e h.0 h.1 h.2
  run-body side (taken w) rest m e fresh h =
      let kept = whole-Keeps side w m in
      (
        whole side w m,
        ap (run b x sem rest) (step-taken side w m e h),
        record {
          trace = kept.trace ∙ ap (λ c. write side (no_more c) ∷ m.trace) fresh;
          close_tunnel = kept.close_tunnel;
          other = kept.other;
        },
      )
