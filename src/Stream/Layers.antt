-- ===== src/Stream/Layers.antt =====
-- Which socket a stream is over.
use foxy.Base.{Bool, true, false, Option, none, some, ◌≡◌, refl}
use foxy.Stream.{
  MultiStream, stream_type, ssl_stream_type, SessionOpts, make_ssl, is_ssl, ssl, get_stream, plain,
  upgrade, closed_stream, stream_for, new_session,
}

abbrev pub holds {κ} : {A : Type κ} → Option A → Bool
holds none = false
holds (some a) = true

module _ {ℓ} {Socket Context : Type ℓ} where
  -- The socket at the bottom.
  abbrev pub socket_of : MultiStream Socket Context → Socket
  socket_of (stream_type s) = s
  socket_of (ssl_stream_type t) = t.next_layer

  -- plain() never fails and is the socket at the bottom, also after an upgrade, which never fails
  -- either and leaves a TLS stream with the given context over the same socket; the timer closes that
  -- socket too; and ssl() fails exactly on a stream that is not TLS.
  pub upgrade-plain :
      (ctx : Context) (s : MultiStream Socket Context)
      → (plain s ≡ some (socket_of s))
        × (upgrade ctx s ≡ some (make_ssl (socket_of s) ctx))
        × (plain (make_ssl (socket_of s) ctx) ≡ some (socket_of s))
        × (closed_stream s ≡ some (socket_of s))
        × (holds (ssl s) ≡ is_ssl s)
  unfolding plain upgrade closed_stream is_ssl ssl get_stream
  upgrade-plain ctx (stream_type s) = (refl, refl, refl, refl, refl)
  upgrade-plain ctx (ssl_stream_type t) = (refl, refl, refl, refl, refl)

  stream_for-is_ssl :
      (c : Option Context) (socket : Socket)
      → (is_ssl (stream_for c socket) ≡ holds c) × (plain (stream_for c socket) ≡ some socket)
  unfolding stream_for plain is_ssl ssl get_stream
  stream_for-is_ssl none socket = (refl, refl)
  stream_for-is_ssl (some ctx) socket = (refl, refl)

  -- A new session has a TLS stream exactly when its options hold a context, over the given socket.
  new_session-is_ssl :
      (socket : Socket) (opts : SessionOpts Context)
      → (is_ssl (new_session socket opts).stream ≡ holds opts.ssl_ctx)
        × (plain (new_session socket opts).stream ≡ some socket)
  unfolding new_session
  new_session-is_ssl socket opts = stream_for-is_ssl opts.ssl_ctx socket
