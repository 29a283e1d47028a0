-- ===== src/Relay.antt =====
-- include/foxy/detail/relay.hpp: relay_op, which hands one request on to the remote and its response
-- back. What the code writes once for the request and once for the response is written once here,
-- for a side; the coroutine is a machine whose points are its yields.
pub mod Order
pub mod Launches
pub mod Safety
pub mod Persistence
pub mod Bodies
pub mod Exchange
pub mod Failures
use foxy.Base.{
  ℕ, ◌-◌, Bool, true, false, not, ◌&&◌, ◌||◌, List, [], ◌∷◌, if◌then◌else◌, Text, codes,
}
use foxy.X3.Library.{X3}
use foxy.Net.{ErrorCode, success, is_error, is_need_buffer}
use foxy.Fields.{Field, Fields, Beast, export_connect_fields, has_foxy_via}

pub data Side : Type 0 where
  request response : Side

-- What foxy reads and writes of a message's header.
pub record Message : Type 0 where
  pub version : ℕ
  pub fields : Fields

-- Boost.Beast: what a header says of persistence and chunking, and the setters that foxy calls,
-- keep_alive(false) and chunked(true).
pub record Semantics : Type 0 where
  pub keep_alive : Message → Bool
  pub chunked : Message → Bool
  pub set_close : Message → Message
  pub set_chunked : Message → Message

-- buffer_body::value_type: whether data is set, size and more.
pub record Chunk : Type 0 where
  pub has_data : Bool
  pub size : ℕ
  pub more : Bool

-- Parser, serializer and exported fields of one side.
pub record Half : Type 0 where
  pub message : Message
  pub exported : Fields
  pub body : Chunk
  pub parser_done : Bool
  pub serializer_done : Bool

-- The operations that the machine launches, its construction and its completion.
pub data Action : Type 0 where
  construct : Action
  read_header : Side → Action
  write_header : Side → Message → Action
  read : Side → Action
  write : Side → Chunk → Action
  complete : ErrorCode → Bool → Action

pub data Point : Type 0 where
  reading_header : Side → Point
  writing_header : Side → Point
  reading : Side → Point
  writing : Side → Point
  finished : Point

-- relay_op::state, the point, and the actions so far, the last one first.
pub record Machine : Type 0 where
  pub req : Half
  pub res : Half
  pub ec : ErrorCode
  pub close_tunnel : Bool
  pub point : Point
  pub trace : List Action

-- What a pending operation reports: the code, the header that was parsed, whether the parser or the
-- serializer is done, and the room that is left in the buffer.
pub record Reply : Type 0 where
  pub ec : ErrorCode
  pub message : Message
  pub done : Bool
  pub left : ℕ

abbrev pub yield : Action → Point → Machine → Machine
yield a p m = record m { point = p; trace = a ∷ m.trace }

unfoldable pub half : Side → Machine → Half
half request m = m.req
half response m = m.res

unfoldable pub set_half : Side → Half → Machine → Machine
set_half request h m = record m { req = h }
set_half response h m = record m { res = h }

abbrev pub buffer_size : ℕ
buffer_size = 2048

-- The value of a new buffer_body, and a new parser and serializer.
abbrev pub new_half : Half
new_half = record {
  message = record { version = 11; fields = [] };
  exported = [];
  body = record { has_data = false; size = 0; more = true };
  parser_done = false;
  serializer_done = false;
}

abbrev pub via : Field
via = record { name = codes "Via"; value = codes "1.1 foxy" }

-- upcall: the tunnel is to be closed.
abbrev pub upcall : ErrorCode → Machine → Machine
upcall ec m = yield (complete ec true) finished m

-- `if (ec == http::error::need_buffer) { ec = {}; }`.
unfoldable pub clear : ErrorCode → ErrorCode
unfolding is_need_buffer
clear ec = if is_need_buffer ec then success else ec

-- The head of the loop over the body.
unfoldable pub body_round : Side → Machine → Machine
unfolding half set_half
body_round side m =
    let h = half side m in
    let cleared = record m { ec = success } in
    if not h.parser_done
    then yield (read side) (reading side) (
        set_half side (record h { body = record h.body { has_data = true; size = buffer_size } })
          cleared)
    else let last = record h.body { has_data = false; size = 0 } in
      yield (write side last) (writing side) (set_half side (record h { body = last }) cleared)

-- Some of the body, or the error in place of it, has been read.
unfoldable pub after_read : Side → Reply → Machine → Machine
unfolding half set_half clear
after_read side r m =
    let h = half side m in
    let chunk : Chunk = record {
      has_data = true;
      size = buffer_size - r.left;
      more = not r.done;
    } in
    let ec = clear r.ec in
    yield (write side chunk) (writing side) (
      set_half side (record h { body = chunk; parser_done = r.done })
        (record m { ec = if is_error ec then ec else m.ec }))

-- What follows the loop: the response's header, or the end.
unfoldable pub after_body : Side → Machine → Machine
after_body request m = yield (read_header response) (reading_header response) m
after_body response m = yield (complete success m.close_tunnel) finished m

unfoldable pub after_write : Side → Reply → Machine → Machine
unfolding half set_half clear body_round after_body
after_write side r m =
    let h = half side m in
    let ec = clear r.ec in
    let m' = set_half side (record h { serializer_done = r.done }) m in
    if is_error ec || is_error m.ec
    then upcall ec m'
    else if not h.parser_done && not r.done
    then body_round side m'
    else after_body side m'

module _ (b : Beast) (x : X3) (sem : Semantics) where
  -- The header that goes out, for the header that came in.
  unfoldable pub outgoing : Bool → Message → Fields → Message
  unfolding export_connect_fields
  outgoing close source exported =
      let kept = record source { fields = (export_connect_fields b source.fields exported).0 } in
      let closed = if close then sem.set_close kept else kept in
      let chunked = if sem.chunked source then sem.set_chunked closed else closed in
      record chunked { fields = b.insert via chunked.fields }

  -- A header is there: hand it on, unless it has been through here.
  unfoldable pub forward : Side → Machine → Machine
  unfolding half set_half outgoing has_foxy_via
  forward side m =
      let h = half side m in
      let close = m.close_tunnel || not (sem.keep_alive h.message) in
      let sent = outgoing close h.message h.exported in
      let stored = (export_connect_fields b h.message.fields h.exported).1 in
      let m' = record m { close_tunnel = close } in
      if has_foxy_via b x h.message.fields
      then upcall success m'
      else yield (write_header side sent) (writing_header side)
          (set_half side (record h { message = sent; exported = stored }) m')

  unfoldable pub after_read_header : Side → Reply → Machine → Machine
  unfolding half set_half forward
  after_read_header side r m =
      let m' =
        set_half side (record (half side m) { message = r.message; parser_done = r.done }) m in
      if is_error r.ec then upcall r.ec m' else forward side m'

  unfoldable pub resume_at : Point → Reply → Machine → Machine
  unfolding after_read_header after_read after_write body_round
  resume_at (reading_header side) r m = after_read_header side r m
  resume_at (writing_header side) r m = if is_error r.ec then upcall r.ec m else body_round side m
  resume_at (reading side) r m = after_read side r m
  resume_at (writing side) r m = after_write side r m
  resume_at finished r m = m

  -- operator()(ec, …): go on from the yield that was reached.
  unfoldable pub resume : Reply → Machine → Machine
  unfolding resume_at
  resume r m = resume_at m.point r m

  unfoldable pub run : List Reply → Machine → Machine
  unfolding resume
  run [] m = m
  run (r ∷ rs) m = run rs (resume r m)

  -- The constructor that has no parser reads the header itself.
  abbrev pub initial : Machine
  initial = yield (read_header request) (reading_header request) (record {
    req = new_half;
    res = new_half;
    ec = success;
    close_tunnel = false;
    point = finished;
    trace = construct ∷ [];
  })

  -- The constructor that takes over a parser whose header is done.
  unfoldable pub initial_with : Message → Bool → Machine
  unfolding forward
  initial_with message parser_done = forward request (record {
    req = record new_half { message = message; parser_done = parser_done };
    res = new_half;
    ec = success;
    close_tunnel = false;
    point = finished;
    trace = construct ∷ [];
  })
