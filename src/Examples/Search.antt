-- ===== src/Examples/Search.antt =====
-- examples/listener/main.cpp: the handler that makes a search of what a client posts. The replies of
-- a list resume the operations in turn; the timeout that it sets for the session is Session's matter.
pub mod Target
pub mod Outcomes
use foxy.Base.{ℕ, Bool, not, List, [], ◌∷◌, ◌++◌, ◌==◌, if◌then◌else◌, Text, codes, length}
use foxy.Net.{ErrorCode, success, is_error}
use foxy.UriParts.{is_empty}
use foxy.Utf8.{Utf, Karma}
use foxy.Utf8.CodePoint.{begin, view_end, code_points}
use foxy.Pct.Encode.{encode_query}

-- prepare_payload announces the length of the body.
pub record Response : Type 0 where
  pub result : ℕ
  pub body : Text
  pub content_length : ℕ

pub data Action : Type 0 where
  async_read : Action
  async_write : Response → Action
  async_connect : Text → Text → Action
  -- The target and the Host field of the GET request.
  async_request : Text → Text → Action
  async_shutdown : Action
  complete : ErrorCode → ℕ → Action

pub data Point : Type 0 where
  reading : Point
  refusing : Point
  connecting : Point
  requesting : Point
  reporting : Point
  answering : Point
  closing_after_error : Point
  closing : Point
  finished : Point

-- What the pending operation reports: of a read whether the verb is POST and the body, of a request
-- the status and the body of the response.
pub record Reply : Type 0 where
  pub ec : ErrorCode
  pub bytes_transferred : ℕ
  pub is_post : Bool
  pub result : ℕ
  pub body : Text

-- The point, and the actions so far, the last one first.
pub record Machine : Type 0 where
  pub point : Point
  pub target : Text
  pub trace : List Action

abbrev pub yield : Action → Point → Machine → Machine
yield a p m = record m { point = p; trace = a ∷ m.trace }

abbrev pub initial : Machine
initial = record { point = reading; target = []; trace = async_read ∷ [] }

-- `return self.complete(ec, bytes_transferred)`.
abbrev pub completed : Reply → Machine → Machine
completed r m = yield (complete r.ec r.bytes_transferred) finished m

abbrev pub prepared : ℕ → Text → Response
prepared result body = record { result = result; body = body; content_length = length body }

abbrev pub google : Text
google = codes "www.google.com"

module _ (t : Utf) (k : Karma) where
  -- The body's code points, encoded behind the path of the request.
  unfoldable pub search_target : Text → Text
  unfolding code_points encode_query
  search_target body =
      encode_query t k (code_points t (length body) (begin body) (view_end body)) (codes "/webhp?")

  unfoldable pub after_read : Reply → Machine → Machine
  unfolding search_target is_empty
  after_read r m =
      if is_error r.ec
      then completed r m
      else if not r.is_post
      then yield (async_write (prepared 405 (codes "The server only supports POST requests!\n")))
          refusing m
      else if is_empty r.body
      then yield (async_write (prepared 400 (codes "The client body must not be empty!\n")))
          refusing m
      else yield (async_connect google (codes "https")) connecting
          (record m { target = search_target r.body })

  -- The response to the search is handed on, or what went wrong is.
  unfoldable pub after_request : Reply → Machine → Machine
  after_request r m =
      if is_error r.ec
      then yield (async_write (prepared 400 (codes "Error communicating with google!\n"))) reporting
          m
      else if not (r.result == 200)
      then yield (async_write (prepared 400 (codes "Error is: " ++ (r.body ++ codes "\n"))))
          answering m
      else yield (async_write (prepared 200 r.body)) answering m

  -- The codes of the connection, of the writes and of the last shutdown are not looked at.
  unfoldable pub resume_at : Point → Reply → Machine → Machine
  unfolding after_read after_request
  resume_at reading r m = after_read r m
  resume_at refusing r m = completed r m
  resume_at connecting r m = yield (async_request m.target google) requesting m
  resume_at requesting r m = after_request r m
  resume_at reporting r m = yield async_shutdown closing_after_error m
  resume_at answering r m = yield async_shutdown closing m
  resume_at closing_after_error r m = completed r m
  resume_at closing r m = yield (complete success 0) finished m
  resume_at finished r m = m

  unfoldable pub run : List Reply → Machine → Machine
  unfolding resume_at
  run [] m = m
  run (r ∷ rs) m = run rs (resume_at m.point r m)
