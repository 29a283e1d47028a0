-- ===== src/Examples/Server.antt =====
-- examples/server/main.cpp and examples/https_server/main.cpp: request_handler, which answers each
-- request of a connection with the same page. The two differ in what they print.
pub mod Answers
use foxy.Base.{ℕ, Bool, true, not, List, [], ◌∷◌, if◌then◌else◌, Text, codes, length}
use foxy.Net.{ErrorCode, success, is_error}

-- prepare_payload announces the length of the body.
pub record Response : Type 0 where
  pub result : ℕ
  pub version : ℕ
  pub body : Text
  pub content_length : ℕ

pub data Action : Type 0 where
  async_read : Action
  async_write : Response → Action
  complete : ErrorCode → ℕ → Action

pub data Point : Type 0 where
  reading : Point
  writing : Point
  finished : Point

-- What the pending operation reports; after a read, whether the request asks to keep the connection.
pub record Reply : Type 0 where
  pub ec : ErrorCode
  pub keep_alive : Bool

-- The frame holds the request that was read; of it the handler asks keep_alive alone. The actions so
-- far stand with the last one first.
pub record Machine : Type 0 where
  pub point : Point
  pub request_keep_alive : Bool
  pub trace : List Action

abbrev pub page : Text
page = codes "<html><p>Hello, world!</p></html>"

abbrev pub response : Response
response = record { result = 200; version = 11; body = page; content_length = length page }

-- The head of `while (true)`: both messages are new, and http::request is HTTP/1.1 at first.
unfoldable pub loop_head : List Action → Machine
loop_head trace = record { point = reading; request_keep_alive = true; trace = async_read ∷ trace }

-- What stands behind the loop.
unfoldable pub leave : Machine → Machine
leave m = record m { point = finished; trace = complete success 0 ∷ m.trace }

unfoldable pub after_read : Reply → Machine → Machine
unfolding leave
after_read r m = if is_error r.ec then leave m else record {
  point = writing;
  request_keep_alive = r.keep_alive;
  trace = async_write response ∷ m.trace;
}

unfoldable pub after_write : Reply → Machine → Machine
unfolding leave loop_head
after_write r m =
    if is_error r.ec
    then leave m
    else if not m.request_keep_alive
    then leave m
    else loop_head m.trace

unfoldable pub resume_at : Point → Reply → Machine → Machine
unfolding after_read after_write
resume_at reading r m = after_read r m
resume_at writing r m = after_write r m
resume_at finished r m = m

abbrev pub initial : Machine
initial = record { point = reading; request_keep_alive = true; trace = async_read ∷ [] }

unfoldable pub run : List Reply → Machine → Machine
unfolding resume_at
run [] m = m
run (r ∷ rs) m = run rs (resume_at m.point r m)
