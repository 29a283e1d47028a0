-- ===== src/Examples/Fleet.antt =====
-- examples/https_server/main.cpp: client_op, of which many run against one listener, with the counter
-- that they share. An interleaving is a list of the clients that are resumed, each with the error code
-- of its pending operation; the increment is atomic.
pub mod Counted
pub mod Shutdown
use foxy.Base.{ℕ, zero, suc, ◌+◌, ◌*◌, ◌-◌, Bool, List, [], ◌∷◌, ltb, ◌==◌, if◌then◌else◌}
use foxy.Net.{ErrorCode, is_error}

abbrev pub num_client_requests : ℕ
num_client_requests = 10

abbrev pub num_clients : ℕ
num_clients = 128

-- A request says whether it asks to keep the connection.
pub data Action : Type 0 where
  async_connect : Action
  async_request : Bool → Action
  async_shutdown : Action

pub data Point : Type 0 where
  connecting : Point
  requesting : Point
  shutting_down : Point
  finished : Point

-- The frame of a client, with what it has launched, the last one first.
pub record Client : Type 0 where
  pub point : Point
  pub req_count : ℕ
  pub trace : List Action

-- The atomic counter, and how often the listener was shut down.
pub record Shared : Type 0 where
  pub req_count : ℕ
  pub shutdowns : ℕ

abbrev pub yield : Action → Point → Client → Client
yield a p c = record c { point = p; trace = a ∷ c.trace }

-- Up to the first yield.
abbrev pub started : Client
started = record { point = connecting; req_count = 0; trace = async_connect ∷ [] }

-- The head of the for loop, and what stands behind the loop.
unfoldable pub loop_head : Client → Client
loop_head c =
    if ltb c.req_count num_client_requests
    then yield (async_request (ltb c.req_count (num_client_requests - 1))) requesting c
    else yield async_shutdown shutting_down c

unfoldable pub count_request : Shared → Shared
count_request s =
    let curr_req_count = s.req_count + 1 in
    if curr_req_count == num_clients * num_client_requests
    then record { req_count = curr_req_count; shutdowns = s.shutdowns + 1 }
    else record s { req_count = curr_req_count }

-- A connection that failed ends the client; a request that failed ends the loop.
unfoldable pub resume_at : Point → ErrorCode → Client → Shared → Client × Shared
unfolding loop_head count_request
resume_at connecting ec c s =
    if is_error ec
    then (record c { point = finished }, s)
    else (loop_head (record c { req_count = 0 }), s)
resume_at requesting ec c s =
    if is_error ec
    then (yield async_shutdown shutting_down c, s)
    else (loop_head (record c { req_count = c.req_count + 1 }), count_request s)
resume_at shutting_down ec c s = (record c { point = finished }, s)
resume_at finished ec c s = (c, s)

-- One client of the list is resumed.
unfoldable pub resume : ℕ → ErrorCode → List Client → Shared → List Client × Shared
unfolding resume_at
resume i ec [] s = ([], s)
resume zero ec (c ∷ cs) s = let d = resume_at c.point ec c s in (d.0 ∷ cs, d.1)
resume (suc i) ec (c ∷ cs) s = let d = resume i ec cs s in (c ∷ d.0, d.1)

unfoldable pub run : List (ℕ × ErrorCode) → List Client → Shared → List Client × Shared
unfolding resume
run [] cs s = (cs, s)
run ((i, ec) ∷ rs) cs s = let d = resume i ec cs s in run rs d.0 d.1

-- The loop of main that posts the clients.
unfoldable pub posted : ℕ → List Client
posted zero = []
posted (suc n) = started ∷ posted n

abbrev pub no_requests : Shared
no_requests = record { req_count = 0; shutdowns = 0 }
