-- ===== src/Tunnel.antt =====
-- include/foxy/detail/tunnel.hpp: tunnel_op, the part of the proxy that reads a client's request and
-- connects to the remote. The coroutine is a machine: `point` is the yield at which it waits, and
-- `resume` is operator() called with what the pending operation reports.
pub mod Order
mod Origin
mod Decision
mod Decided
pub mod Launches
pub mod Safety
pub mod Requests
pub mod Outcomes
pub mod Targets
use foxy.Base.{
  ℕ, Bool, true, false, not, ◌&&◌, ◌||◌, Option, none, some, List, [], ◌∷◌, ◌++◌, if◌then◌else◌,
  Text, codes,
}
use foxy.X3.Library.{X3}
use foxy.UriParts.{UriParts, no_parts, is_empty, is_authority, is_absolute, is_http}
use foxy.ParseUri.{parse_uri}
use foxy.Net.{ErrorCode, success, is_error}

-- http::verb, as far as the code tells the verbs apart.
pub data Verb : Type 0 where
  connect options : Verb
  other_verb : ℕ → Verb

-- What foxy reads and writes of the parsed request.
pub record Request : Type 0 where
  pub target : Text
  pub method : Verb
  pub keep_alive : Bool
  pub host : Option Text

pub data Status : Type 0 where
  ok bad_request : Status

-- The bodies of the responses: none, and the three texts.
pub data Body : Type 0 where
  empty persistent_needed unable_to_connect malformed : Body

pub record Response : Type 0 where
  pub result : Status
  pub body : Body

-- The operations that the machine launches, with their arguments, and its completion.
pub data Action : Type 0 where
  read_header : Action
  write : Response → Action
  async_connect : Text → Text → Action
  relay : Request → Action
  detect_ssl : Action
  complete : ErrorCode → Bool → Action

pub data Point : Type 0 where
  reading_header : Point
  writing_persistent : Point
  connecting : Point
  writing_unable : Point
  writing_malformed : Point
  relaying : Point
  writing_ok : Point
  detecting : Point
  finished : Point

-- tunnel_op::state, the point, and the actions so far, the last one first.
pub record Machine : Type 0 where
  pub request : Request
  pub uri_parts : UriParts
  pub is_ssl : Option Bool
  pub authority : Bool
  pub connects : Bool
  pub absolute : Bool
  pub http : Bool
  pub close_tunnel : Bool
  pub point : Point
  pub trace : List Action

-- What a pending operation reports: an error code; for a read, the request too; for the detection,
-- the tribool, with `none` for indeterminate.
pub record Reply : Type 0 where
  pub ec : ErrorCode
  pub request : Request
  pub is_ssl : Option Bool

abbrev pub no_request : Request
no_request = record { target = []; method = other_verb 0; keep_alive = false; host = none }

-- BOOST_ASIO_CORO_YIELD: launch an operation and wait.
abbrev pub yield : Action → Point → Machine → Machine
yield a p m = record m { point = p; trace = a ∷ m.trace }

unfoldable pub is_connect : Verb → Bool
is_connect connect = true
is_connect v = false

unfoldable pub is_options : Verb → Bool
is_options options = true
is_options v = false

-- The head of the loop: parser and response are made anew.
abbrev pub loop_head : Machine → Machine
loop_head m = yield read_header reading_header (record m { request = no_request })

abbrev pub initial : Machine
initial = loop_head (record {
  request = no_request;
  uri_parts = no_parts;
  is_ssl = none;
  authority = false;
  connects = false;
  absolute = false;
  http = false;
  close_tunnel = false;
  point = finished;
  trace = [];
})

-- upcall: the code that was reported goes to the handler.
unfoldable pub upcall : ErrorCode → Machine → Machine
upcall ec m = yield (complete ec m.close_tunnel) finished m

-- What follows the loop; ec holds no error after each `break`.
unfoldable pub after_loop : Machine → Machine
after_loop m =
    if not m.close_tunnel
    then yield detect_ssl detecting m
    else yield (complete success m.close_tunnel) finished m

-- The host to connect to and the service: the port, or else the scheme.
unfoldable pub service : Bool → UriParts → Text
service client_is_ssl u =
    if is_empty u.port then (if client_is_ssl then codes "https" else codes "http") else u.port

-- The origin form of an absolute target, and the Host field.
unfoldable pub origin_target : Verb → UriParts → Text
unfolding is_options is_empty
origin_target v u =
    let path =
      if is_empty u.path then (if is_options v then codes "*" else codes "/") else u.path in
    if is_empty u.query then path else path ++ (b'?' ∷ u.query)

unfoldable pub host_field : UriParts → Text
unfolding is_empty
host_field u = if is_empty u.port then u.host else u.host ++ (b':' ∷ u.port)

unfoldable pub after_connect : ErrorCode → Machine → Machine
unfolding origin_target host_field
after_connect ec m =
    let sent = record m.request {
      target = origin_target m.request.method m.uri_parts;
      keep_alive = false;
      host = some (host_field m.uri_parts);
    } in
    if is_error ec
    then yield (write (record { result = bad_request; body = unable_to_connect })) writing_unable m
    else if m.absolute && m.http
    then yield (relay sent) relaying (record m { request = sent })
    else yield (write (record { result = ok; body = empty })) writing_ok m

-- After a refusal has been written: the next request, if the connection persists.
unfoldable pub after_refusal : ErrorCode → Machine → Machine
unfolding upcall after_loop
after_refusal ec m =
    if is_error ec then upcall ec m else if m.request.keep_alive then loop_head m else after_loop m

module _ (x : X3) (client_is_ssl : Bool) where
  unfoldable pub after_header : Reply → Machine → Machine
  unfolding upcall service
  after_header r m =
      let u = parse_uri x r.request.target in
      let m' = record m {
        request = r.request;
        uri_parts = u;
        authority = is_authority u;
        connects = is_connect r.request.method;
        absolute = is_absolute u;
        http = is_http u;
      } in
      if is_error r.ec
      then upcall r.ec (record m { request = r.request })
      else if (m'.connects && m'.authority) && not r.request.keep_alive
      then yield (write (record { result = bad_request; body = persistent_needed }))
          writing_persistent (record m' { close_tunnel = true })
      else if (m'.connects && m'.authority) || (m'.absolute && m'.http)
      then yield (async_connect u.host (service client_is_ssl u)) connecting m'
      else yield (write (record { result = bad_request; body = malformed })) writing_malformed m'

  unfoldable pub resume_at : Point → Reply → Machine → Machine
  unfolding after_header after_connect after_refusal upcall after_loop
  resume_at reading_header r m = after_header r m
  resume_at writing_persistent r m = if is_error r.ec then upcall r.ec m else after_loop m
  resume_at connecting r m = after_connect r.ec m
  resume_at writing_unable r m = after_refusal r.ec m
  resume_at writing_malformed r m = after_refusal r.ec m
  resume_at relaying r m =
      if is_error r.ec then upcall r.ec m else after_loop (record m { close_tunnel = true })
  resume_at writing_ok r m =
      if is_error r.ec
      then upcall r.ec (record m { close_tunnel = true })
      else after_loop (record m { close_tunnel = false })
  resume_at detecting r m =
      yield (complete success m.close_tunnel) finished (record m { is_ssl = r.is_ssl })
  resume_at finished r m = m

  -- operator()(ec, …): go on from the yield that was reached.
  unfoldable pub resume : Reply → Machine → Machine
  unfolding resume_at
  resume r m = resume_at m.point r m

  unfoldable pub run : List Reply → Machine → Machine
  unfolding resume
  run [] m = m
  run (r ∷ rs) m = run rs (resume r m)
