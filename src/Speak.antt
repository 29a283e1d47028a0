-- ===== src/Speak.antt =====
-- include/foxy/speak.hpp: speak_op, which connects, runs the user's request and shuts down. Each of
-- the three is handed over in turn; the request is the user's coroutine for the code of the
-- connection.
pub mod Closing
use foxy.Base.{Bool, Text, if◌then◌else◌}
use foxy.Net.{ErrorCode, success, is_error}
use foxy.Session.{Answer, Coroutine, act, complete, throws, terminates}
use foxy.Session.Completes.{bind}
use foxy.Session.Client.{connect_op, client_shutdown}

-- `ec ? ec : boost::system::error_code{}`.
unfoldable pub handed_code : ErrorCode → ErrorCode
handed_code ec = if is_error ec then ec else success

-- std::bind(request, _1, ec, 0): each resumption passes the bound arguments and drops its own.
unfoldable pub bound : Answer → Coroutine → Coroutine
bound r (act a k) = act a (λ q. bound r (k r))
bound r (complete ec n) = complete ec n
bound r (throws ec) = throws ec
bound r terminates = terminates

-- The operation ends with the shutdown and hands nothing on; the code of the shutdown is kept.
unfoldable pub speak_op : Bool → Bool → Text → Text → (ErrorCode → Coroutine) → Coroutine
unfolding bind bound handed_code connect_op client_shutdown
speak_op is_ssl verify_peer_cert host service request_factory =
    bind (connect_op is_ssl verify_peer_cert host service) λ a.
      bind
        (bound (record { ec = handed_code a.ec; bytes_transferred = 0 })
          (request_factory (handed_code a.ec)))
        λ b. bind (client_shutdown is_ssl) λ c. complete c.ec 0
