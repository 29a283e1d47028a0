-- ===== src/Speak/Closing.antt =====
-- That speak shuts its session down.
use foxy.Base.{Bool, List, [], ◌∷◌, ◌++◌, ◌≡◌, refl, Text, append-nil}
use foxy.Net.{
  ErrorCode, success, operation_aborted, eof, need_buffer, stream_truncated, other, is_error,
}
use foxy.Session.{Action, Answer, Coroutine, complete, completed, run}
use foxy.Session.Completes.{bind, Completes, at_once, acts, Completes-bind, Completes-run}
use foxy.Session.Client.{connect_op, client_shutdown}
use foxy.Speak.{handed_code, bound, speak_op}

handed_code_same : (ec : ErrorCode) → handed_code ec ≡ ec
unfolding handed_code is_error
handed_code_same success = refl
handed_code_same operation_aborted = refl
handed_code_same eof = refl
handed_code_same need_buffer = refl
handed_code_same stream_truncated = refl
handed_code_same (other n) = refl

-- The answers that reach a coroutine whose arguments are bound.
abbrev pub all_answered : Answer → List Answer → List Answer
all_answered r [] = []
all_answered r (q ∷ qs) = r ∷ all_answered r qs

Completes-bound :
    (r : Answer) (qs : List Answer) {c : Coroutine} {done : List Action} {z : Answer}
    → Completes c (all_answered r qs) done z
    → Completes (bound r c) qs done z
unfolding bound
Completes-bound r [] (at_once ec n) = at_once ec n
Completes-bound r (q ∷ qs) (acts c) = acts (Completes-bound r qs c)

-- Whatever code the connection completes with, the user's request is run with that code, which also
-- takes the place of what the request's own operations report; and whatever code the request
-- completes with, the session is shut down after it: speak does the actions of the connection, of the
-- request and of the shutdown, in this order.
pub speak_op-shuts_down :
    (is_ssl verify : Bool) (host service : Text) (request : ErrorCode → Coroutine)
    (rs qs ss : List Answer) (connecting asking closing : List Action) (a b c : Answer)
    → Completes (connect_op is_ssl verify host service) rs connecting a
    → Completes
        (request a.ec)
        (all_answered (record { ec = a.ec; bytes_transferred = 0 }) qs)
        asking
        b
    → Completes (client_shutdown is_ssl) ss closing c
    → run (speak_op is_ssl verify host service request) (rs ++ (qs ++ ss)) ≡ record {
      done = connecting ++ (asking ++ closing);
      result = completed (record { ec = c.ec; bytes_transferred = 0 });
    }
unfolding speak_op
speak_op-shuts_down is_ssl verify host service request rs qs ss connecting asking closing a b c
      connects asks closes =
    let handed : ErrorCode → Coroutine = λ ec.
      bound (record { ec = handed_code ec; bytes_transferred = 0 }) (request (handed_code ec)) in
    let last : Completes (bind (client_shutdown is_ssl) (λ c. complete c.ec 0)) ss closing
        (record { ec = c.ec; bytes_transferred = 0 }) =
      rw⁻¹ (append-nil ss) (
        rw⁻¹ (append-nil closing)
          (Completes-bind (λ c. complete c.ec 0) closes (at_once c.ec 0))) in
    let asked : Completes (handed a.ec) qs asking b =
      rw (handed_code_same a.ec)
        (Completes-bound (record { ec = a.ec; bytes_transferred = 0 }) qs asks) in
    Completes-run (
      Completes-bind
        (λ a. bind (handed a.ec) λ b. bind (client_shutdown is_ssl) λ c. complete c.ec 0) connects
        (Completes-bind (λ b. bind (client_shutdown is_ssl) λ c. complete c.ec 0) asked last))
