-- ===== src/Session/Server.antt =====
-- include/foxy/impl/server_session/: async_detect_ssl, async_handshake and async_shutdown.
use foxy.Base.{ℕ, Bool, not, ◌&&◌, ltb, if◌then◌else◌}
use foxy.Net.{success, is_error}
use foxy.Session.{
  handshake, handshake_buffered, upgrade, consume, ssl_shutdown, shutdown_send, shutdown_receive,
  read_some, close, Coroutine, act, complete, terminates, once, detect_ssl,
}

-- What the detection has left in the buffer is used up by the handshake.
unfoldable pub handshake_over_buffer : Coroutine
handshake_over_buffer = act handshake_buffered λ r.
    if is_error r.ec
    then complete r.ec 0
    else act (consume r.bytes_transferred) λ q. complete success r.bytes_transferred

unfoldable pub handshake_alone : Coroutine
handshake_alone = act handshake λ r. if is_error r.ec then complete r.ec 0 else complete success 0

unfoldable pub accept_handshake : ℕ → Coroutine
unfolding handshake_over_buffer handshake_alone
accept_handshake buffered = if ltb 0 buffered then handshake_over_buffer else handshake_alone

-- async_handshake, for a stream that is TLS or not, with a context or not. With neither there is no
-- TLS stream to ask for, and multi_stream::ssl is noexcept.
unfoldable pub server_handshake : Bool → Bool → ℕ → Coroutine
unfolding accept_handshake
server_handshake is_ssl has_ctx buffered =
    if not is_ssl && has_ctx
    then (act upgrade λ r. accept_handshake buffered)
    else if is_ssl
    then accept_handshake buffered
    else terminates

-- async_detect_ssl: the count is 1 where TLS has been detected.
unfoldable pub async_detect_ssl : Coroutine
unfolding once
async_detect_ssl = once detect_ssl

-- The stages of closing the connection.
unfoldable pub tear_down : Coroutine
tear_down =
    act shutdown_send
      λ _. act read_some λ _. act shutdown_receive λ _. act close λ r. complete r.ec 0

unfoldable pub server_shutdown : Bool → Coroutine
unfolding tear_down
server_shutdown is_ssl = if is_ssl then (act ssl_shutdown λ r. tear_down) else tear_down
