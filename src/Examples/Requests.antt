-- ===== src/Examples/Requests.antt =====
-- The clients of the examples that make one request: user-install/main.cpp, allocators/client.cpp,
-- hello_world/main.cpp, and the client in server/main.cpp. Their sessions are not TLS.
pub mod Closed
use foxy.Base.{
  ℕ, Bool, true, false, ◌&&◌, not, List, [], ◌∷◌, ltb, ◌==◌, if◌then◌else◌, Text, codes, length,
}
use foxy.Net.{ErrorCode, is_error}

pub data Action : Type 0 where
  async_connect : Text → Text → Action
  async_request : Text → Action
  shutdown_both : Action
  close : Action
  print_response : Action
  print_error : ErrorCode → Action
  shutdown_listener : Action

-- How a client ends; an exception leaves the coroutine that it runs in.
pub data Ending : Type 0 where
  returned : Ending
  thrown : ErrorCode → Ending
  valid : Bool → Ending

-- The answer to an action: an error code, and of a request the status and the body of the response.
pub record Answer : Type 0 where
  pub ec : ErrorCode
  pub result : ℕ
  pub body : Text

pub data Client : Type 0 where
  act : Action → (Answer → Client) → Client
  ends : Ending → Client

-- What was done before the answers were used up, and the ending if there is one.
pub record Outcome : Type 0 where
  pub done : List Action
  pub endings : List Ending

unfoldable pub run : Client → List Answer → Outcome
run (ends e) answers = record { done = []; endings = e ∷ [] }
run (act a k) [] = record { done = a ∷ []; endings = [] }
run (act a k) (r ∷ answers) = let rest = run (k r) answers in record rest { done = a ∷ rest.done }

-- A call without an error code throws; an action that cannot fail is `say`.
abbrev pub try : Action → Client → Client
try a k = act a λ r. if is_error r.ec then ends (thrown r.ec) else k

abbrev pub say : Action → Client → Client
say a k = act a λ _. k

-- socket.shutdown and socket.close, the overloads that throw.
unfoldable pub close_socket : Client → Client
close_socket k = try shutdown_both (try close k)

-- user-install: request_op.
unfoldable pub upcall : ErrorCode → Client
upcall ec = if is_error ec then say (print_error ec) (ends returned) else ends returned

unfoldable pub request_op : Client
unfolding close_socket upcall
request_op = act (async_connect (codes "google.com") (codes "http")) λ r.
    if is_error r.ec
    then upcall r.ec
    else act (async_request (codes "www.google.com"))
        λ q. if is_error q.ec then upcall q.ec else close_socket (say print_response (upcall q.ec))

-- hello_world: the coroutine of main. No Host field is set.
unfoldable pub hello_world : Client
unfolding close_socket
hello_world =
    try (async_connect (codes "www.google.com") (codes "http"))
      (try (async_request []) (close_socket (say print_response (ends returned))))

-- server: the client that main spawns beside the listener.
unfoldable pub server_client : Client
unfolding close_socket
server_client = try (async_connect (codes "127.0.0.1") (codes "1337")) (
    try (async_request [])
      (say print_response (close_socket (say shutdown_listener (ends returned)))))

-- allocators: client_op, for the ends_with of boost::string_view. The parser keeps the response, and
-- the socket is left to the destructor.
module _ (ends_with : Text → Text → Bool) where
  unfoldable pub is_page : Answer → Bool
  is_page r = r.result == 200 && ltb 0 (length r.body) && ends_with r.body (codes "</html>")

  unfoldable pub client_op : Client
  unfolding is_page
  client_op = act (async_connect (codes "www.google.com") (codes "80")) λ r.
      if is_error r.ec
      then ends (valid false)
      else act (async_request (codes "www.google.com"))
          λ q. if is_error q.ec then ends (valid false) else ends (valid (is_page q))

-- allocators: what main returns for was_valid.
unfoldable pub exit_code : Bool → ℕ
exit_code was_valid = if not was_valid then 1 else 0
