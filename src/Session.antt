-- ===== src/Session.antt =====
-- include/foxy/impl/client_session and impl/server_session: the coroutines that the sessions hand to
-- a timed operation. A coroutine performs actions, each of which answers with an error code and a
-- count: an operation that it waits for, or a call that sets `ec` or throws it.
pub mod Client
pub mod Server
pub mod Ends
pub mod Timed
pub mod Completes
use foxy.Base.{ℕ, List, [], ◌∷◌, Text}
use foxy.Net.{ErrorCode}

pub data Action : Type 0 where
  resolve : Text → Text → Action
  connect : Action
  set_sni_hostname : Text → Action
  set_server_hostname : Text → Action
  handshake : Action
  handshake_buffered : Action
  upgrade : Action
  consume : ℕ → Action
  write_request : Action
  read_response : Action
  ssl_shutdown : Action
  shutdown_both : Action
  shutdown_send : Action
  shutdown_receive : Action
  read_some : Action
  close : Action
  read_header : Action
  read : Action
  write_header : Action
  write : Action
  detect_ssl : Action

pub record Answer : Type 0 where
  pub ec : ErrorCode
  pub bytes_transferred : ℕ

pub data Coroutine : Type 0 where
  act : Action → (Answer → Coroutine) → Coroutine
  complete : ErrorCode → ℕ → Coroutine
  throws : ErrorCode → Coroutine
  terminates : Coroutine

-- How a coroutine stands: it waits, has handed an answer to the handler, or has left by an exception,
-- which std::terminate ends if it leaves a function that is noexcept.
pub data Result : Type 0 where
  pending : Result
  completed : Answer → Result
  thrown : ErrorCode → Result
  terminated : Result

-- What has been done when the answers are used up, in order, and how the coroutine stands.
pub record Outcome : Type 0 where
  pub done : List Action
  pub result : Result

abbrev pub after : Action → Outcome → Outcome
after a o = record o { done = a ∷ o.done }

unfoldable pub run : Coroutine → List Answer → Outcome
run (complete ec n) rs = record {
  done = [];
  result = completed (record { ec = ec; bytes_transferred = n });
}
run (throws ec) rs = record { done = []; result = thrown ec }
run terminates rs = record { done = []; result = terminated }
run (act a k) [] = record { done = a ∷ []; result = pending }
run (act a k) (r ∷ rs) = after a (run (k r) rs)

-- One operation of Boost.Beast, whose answer goes to the handler.
unfoldable pub once : Action → Coroutine
once a = act a λ r. complete r.ec r.bytes_transferred

-- basic_session: async_read_header, async_read, async_write_header and async_write.
unfoldable pub async_read_header : Coroutine
unfolding once
async_read_header = once read_header

unfoldable pub async_read : Coroutine
unfolding once
async_read = once read

unfoldable pub async_write_header : Coroutine
unfolding once
async_write_header = once write_header

unfoldable pub async_write : Coroutine
unfolding once
async_write = once write
