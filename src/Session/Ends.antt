-- ===== src/Session/Ends.antt =====
-- What the sessions' coroutines come to, whatever they are answered.
use foxy.Base.{
  not, ◌&&◌, ltb, ℕ, Bool, true, false, List, [], ◌∷◌, if◌then◌else◌, ◌≡◌, refl, ap, ◌∙◌, Text,
  arith,
}
use foxy.Net.{
  ErrorCode, success, operation_aborted, eof, need_buffer, stream_truncated, other, is_error,
}
use foxy.Session.{
  handshake_buffered, upgrade, consume, Action, resolve, connect, set_sni_hostname,
  set_server_hostname, handshake, ssl_shutdown, shutdown_both, shutdown_send, shutdown_receive,
  read_some, close, Answer, Outcome, after, run, completed, thrown, terminated,
}
use foxy.Session.Client.{connect_op, ignore_truncated, client_shutdown}
use foxy.Session.Server.{
  accept_handshake, handshake_over_buffer, handshake_alone, server_handshake, server_shutdown,
}

abbrev pub outcome : List Action → ErrorCode → Outcome
outcome done ec = record {
  done = done;
  result = completed (record { ec = ec; bytes_transferred = 0 });
}

-- The answers to the checks of the host's name, if they were asked for, in front of the others.
abbrev pub check_answers : Bool → Answer → Answer → List Answer → List Answer
check_answers true n m rs = n ∷ m ∷ rs
check_answers false n m rs = rs

-- What comes after the connection: the checks that were asked for, then the handshake.
abbrev pub secured : Bool → Text → ErrorCode → ErrorCode → ErrorCode → Outcome
secured true host n m h =
    if is_error n
    then record { done = set_sni_hostname host ∷ []; result = thrown n }
    else if is_error m
    then record { done = set_sni_hostname host ∷ set_server_hostname host ∷ []; result = thrown m }
    else outcome (set_sni_hostname host ∷ set_server_hostname host ∷ handshake ∷ []) h
secured false host n m h = outcome (handshake ∷ []) h

-- What async_connect should come to, by the first step that fails.
abbrev pub connected :
    Bool → Bool → Text → Text → ErrorCode → ErrorCode → ErrorCode → ErrorCode → ErrorCode → Outcome
connected is_ssl verify host service r q n m h =
    if is_error r
    then outcome (resolve host service ∷ []) r
    else if is_error q
    then outcome (resolve host service ∷ connect ∷ []) q
    else if is_ssl
    then after (resolve host service) (after connect (secured verify host n m h))
    else outcome (resolve host service ∷ connect ∷ []) q

-- async_connect completes with the code of the first of resolution, connection and handshake that
-- fails, and does nothing after it; without a failure it has done all of them, the handshake exactly
-- on a TLS stream, and there the checks of the host's name before it exactly when they are asked for.
-- A check that fails throws its code, and there is no handshake.
pub connect_op-connected :
    (is_ssl verify : Bool) (host service : Text) (r q n m h : Answer)
    → run (connect_op is_ssl verify host service) (r ∷ q ∷ check_answers verify n m (h ∷ []))
      ≡ connected is_ssl verify host service r.ec q.ec n.ec m.ec h.ec
unfolding connect_op run
connect_op-connected true true host service r q n m h = ground arith
connect_op-connected true false host service r q n m h = ground arith
connect_op-connected false true host service r q n m h = ground arith
connect_op-connected false false host service r q n m h = ground arith

-- What the shutdown of a client should come to, by the code of the TLS shutdown: a truncated stream
-- counts as a success, and after any other error the socket is left open.
abbrev pub client_closed : Bool → ErrorCode → ErrorCode → Outcome
client_closed false tls last = outcome (shutdown_both ∷ close ∷ []) last
client_closed true success last = outcome (ssl_shutdown ∷ shutdown_both ∷ close ∷ []) last
client_closed true stream_truncated last = outcome (ssl_shutdown ∷ shutdown_both ∷ close ∷ []) last
client_closed true operation_aborted last = outcome (ssl_shutdown ∷ []) operation_aborted
client_closed true eof last = outcome (ssl_shutdown ∷ []) eof
client_closed true need_buffer last = outcome (ssl_shutdown ∷ []) need_buffer
client_closed true (other n) last = outcome (ssl_shutdown ∷ []) (other n)

client_closed-ignore_truncated :
    (tls last : ErrorCode)
    → client_closed true tls last ≡ (
        if is_error (ignore_truncated tls)
        then outcome (ssl_shutdown ∷ []) (ignore_truncated tls)
        else outcome (ssl_shutdown ∷ shutdown_both ∷ close ∷ []) last)
unfolding ignore_truncated is_error
client_closed-ignore_truncated success last = refl
client_closed-ignore_truncated operation_aborted last = refl
client_closed-ignore_truncated eof last = refl
client_closed-ignore_truncated need_buffer last = refl
client_closed-ignore_truncated stream_truncated last = refl
client_closed-ignore_truncated (other n) last = refl

abbrev pub tls_answers : Bool → Answer → List Answer → List Answer
tls_answers true r rs = r ∷ rs
tls_answers false r rs = rs

abbrev pub tls_actions : Bool → List Action → List Action
tls_actions true done = ssl_shutdown ∷ done
tls_actions false done = done

-- A server's shutdown ends TLS where there is TLS, stops sending, reads once, stops receiving and
-- closes the socket, whatever goes wrong on the way, and completes with the code of the closing. A
-- client's does so without the reading, except that an error of the TLS shutdown other than a
-- truncated stream ends it at once, with that error and the socket left open.
pub shutdown-outcome :
    (is_ssl : Bool) (t p q s c : Answer)
    → (run (server_shutdown is_ssl) (tls_answers is_ssl t (p ∷ q ∷ s ∷ c ∷ []))
        ≡ outcome
            (tls_actions is_ssl (shutdown_send ∷ read_some ∷ shutdown_receive ∷ close ∷ []))
            c.ec)
      × (run (client_shutdown is_ssl) (tls_answers is_ssl t (p ∷ c ∷ []))
          ≡ client_closed is_ssl t.ec c.ec)
unfolding server_shutdown client_shutdown run
shutdown-outcome true t p q s c = ground (arith, client_closed-ignore_truncated t.ec c.ec)
shutdown-outcome false t p q s c = ground arith

abbrev pub upgrade_actions : Bool → List Action → List Action
upgrade_actions true done = upgrade ∷ done
upgrade_actions false done = done

abbrev pub upgrade_answers : Bool → Answer → List Answer → List Answer
upgrade_answers true u rs = u ∷ rs
upgrade_answers false u rs = rs

-- What a server's handshake should come to: the upgrade first, if there is one, and the buffer used up
-- by as much as the handshake took from it.
abbrev pub accepted : Bool → Bool → Answer → Outcome
accepted upgrades true h = record {
  done =
      upgrade_actions upgrades
        (handshake_buffered ∷ (if is_error h.ec then [] else consume h.bytes_transferred ∷ []));
  result =
      completed (record {
        ec = h.ec;
        bytes_transferred = if is_error h.ec then 0 else h.bytes_transferred;
      });
}
accepted upgrades false h = outcome (upgrade_actions upgrades (handshake ∷ [])) h.ec

accepted-upgraded :
    (over_buffer : Bool) (h : Answer)
    → after upgrade (accepted false over_buffer h) ≡ accepted true over_buffer h
accepted-upgraded true h = refl
accepted-upgraded false h = refl

no_error : (ec : ErrorCode) → is_error ec ≡ false → ec ≡ success
unfolding is_error
no_error success h = refl
no_error operation_aborted h = cc
no_error eof h = cc
no_error need_buffer h = cc
no_error stream_truncated h = cc
no_error (other n) h = cc

run-accept_handshake :
    (buffered : ℕ) (h c : Answer)
    → run (accept_handshake buffered) (h ∷ c ∷ []) ≡ accepted false (ltb 0 buffered) h
unfolding accept_handshake handshake_over_buffer handshake_alone run
run-accept_handshake buffered h c = ground (arith, no_error h.ec)

-- What it comes to for a stream that is TLS or not, with a context or not.
abbrev pub shaken : Bool → Bool → Bool → Answer → Outcome
shaken true has_ctx over_buffer h = accepted false over_buffer h
shaken false true over_buffer h = accepted true over_buffer h
shaken false false over_buffer h = record { done = []; result = terminated }

-- A server's handshake upgrades a plain stream exactly when it has a TLS context, shakes hands over
-- what the detection has left in the buffer, if anything, takes exactly the bytes that were used off
-- the buffer after a success and none after a failure, and completes with the handshake's code. On a
-- plain stream with no context it terminates the program.
pub server_handshake-accepted :
    (is_ssl has_ctx : Bool) (buffered : ℕ) (u h c : Answer)
    → run
        (server_handshake is_ssl has_ctx buffered)
        (upgrade_answers (not is_ssl && has_ctx) u (h ∷ c ∷ []))
      ≡ shaken is_ssl has_ctx (ltb 0 buffered) h
unfolding server_handshake run
server_handshake-accepted true true buffered u h c = run-accept_handshake buffered h c
server_handshake-accepted true false buffered u h c = run-accept_handshake buffered h c
server_handshake-accepted false false buffered u h c = refl
server_handshake-accepted false true buffered u h c =
    ap (after upgrade) (run-accept_handshake buffered h c) ∙ accepted-upgraded (ltb 0 buffered) h
