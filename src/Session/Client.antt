-- ===== src/Session/Client.antt =====
-- include/foxy/impl/client_session/: async_connect, async_request and async_shutdown.
use foxy.Base.{Bool, if◌then◌else◌, Text}
use foxy.Net.{ErrorCode, success, stream_truncated, is_error}
use foxy.Session.{
  resolve, connect, set_sni_hostname, set_server_hostname, handshake, write_request, read_response,
  ssl_shutdown, shutdown_both, close, Coroutine, act, complete, throws,
}

-- The handshake at the end of connect_op.
unfoldable pub client_handshake : Coroutine
client_handshake = act handshake λ r. complete r.ec 0

-- Both calls are the overloads that throw.
unfoldable pub check_name : Text → Coroutine
unfolding client_handshake
check_name host = act (set_sni_hostname host) λ p.
    if is_error p.ec
    then throws p.ec
    else act (set_server_hostname host) λ q. if is_error q.ec then throws q.ec else client_handshake

unfoldable pub secure : Bool → Text → Coroutine
unfolding check_name client_handshake
secure verify_peer_cert host = if verify_peer_cert then check_name host else client_handshake

-- connect_op, for a stream that is TLS or not.
unfoldable pub connect_op : Bool → Bool → Text → Text → Coroutine
unfolding secure
connect_op is_ssl verify_peer_cert host service = act (resolve host service) λ r.
    if is_error r.ec
    then complete r.ec 0
    else act connect λ q.
      if is_error q.ec
      then complete q.ec 0
      else if is_ssl
      then secure verify_peer_cert host
      else complete q.ec 0

unfoldable pub async_request : Coroutine
async_request =
    act write_request
      λ r. if is_error r.ec then complete r.ec 0 else act read_response λ q. complete q.ec 0

unfoldable pub ignore_truncated : ErrorCode → ErrorCode
ignore_truncated stream_truncated = success
ignore_truncated ec = ec

-- Both directions are shut down and the socket is closed.
unfoldable pub close_plain : Coroutine
close_plain = act shutdown_both λ q. act close λ r. complete r.ec 0

unfoldable pub after_ssl_shutdown : ErrorCode → Coroutine
unfolding close_plain
after_ssl_shutdown ec = if is_error ec then complete ec 0 else close_plain

unfoldable pub client_shutdown : Bool → Coroutine
unfolding close_plain ignore_truncated after_ssl_shutdown
client_shutdown is_ssl =
    if is_ssl
    then (act ssl_shutdown λ r. after_ssl_shutdown (ignore_truncated r.ec))
    else close_plain
