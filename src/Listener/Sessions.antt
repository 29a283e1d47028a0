-- ===== src/Listener/Sessions.antt =====
-- include/foxy/listener.hpp: the session that the accept loop makes for a connection.
use foxy.Base.{
  ℕ, Bool, true, false, ltb, Option, none, some, List, [], ◌∷◌, ◌≡◌, ◌≢◌, refl, Bool-cases, inl,
  inr, arith, ◌∙◌, sym, ap,
}
use foxy.Session.{Answer, Result, terminated, run}
use foxy.Session.Server.{server_handshake, accept_handshake, handshake_alone, handshake_over_buffer}
use foxy.Stream.{Session, is_ssl, stream_for, session_over}
use foxy.Stream.Layers.{holds}
use foxy.Listener.Connection.{handshaking, start}

abbrev is_terminated : Result → Bool
is_terminated terminated = true
is_terminated r = false

module _ {ℓ} {Socket Context : Type ℓ} where
  -- multi_stream(f.socket, *ctx) or multi_stream(f.socket), with session_opts{ctx, 30 s, false}.
  unfoldable pub session_for : Option Context → Socket → Session Socket Context
  unfolding stream_for
  session_for ctx socket =
      session_over (stream_for ctx socket)
        (record { ssl_ctx = ctx; timeout = 30000; verify_peer_cert = false })

-- Running the two coroutines of a handshake that has a TLS stream.
handshake_over_buffer-safe :
    (rs : List Answer) → is_terminated (run handshake_over_buffer rs).result ≡ false
unfolding handshake_over_buffer run
handshake_over_buffer-safe [] = refl
handshake_over_buffer-safe (r ∷ []) = ground arith
handshake_over_buffer-safe (r ∷ q ∷ rs) = ground arith

handshake_alone-safe : (rs : List Answer) → is_terminated (run handshake_alone rs).result ≡ false
unfolding handshake_alone run
handshake_alone-safe [] = refl
handshake_alone-safe (r ∷ rs) = ground arith

accept_handshake-safe :
    (n : ℕ) (rs : List Answer) → is_terminated (run (accept_handshake n) rs).result ≡ false
unfolding accept_handshake
accept_handshake-safe n rs = elim (Bool-cases (ltb 0 n)) [
  | inl e ↦ rw e (handshake_over_buffer-safe rs)
  | inr e ↦ rw e (handshake_alone-safe rs)
]

-- Whatever the buffer holds and whatever is answered, the handshake that a connection of the
-- listener begins with does not terminate the program: it is begun only on the TLS stream that the
-- listener makes where it has a context.
pub session_for-server_handshake {ℓ} :
    {Socket Context : Type ℓ} (ctx : Option Context) (socket : Socket) (buffered : ℕ)
    (rs : List Answer)
    → (start (is_ssl (session_for ctx socket).stream)).point ≡ handshaking
    → (run
        (server_handshake
          (is_ssl (session_for ctx socket).stream)
          (holds (session_for ctx socket).opts.ssl_ctx)
          buffered)
        rs).result
      ≢ terminated
unfolding session_for stream_for is_ssl server_handshake start
session_for-server_handshake none socket buffered rs h = absurd (cc)
session_for-server_handshake (some ctx) socket buffered rs h = λ e.
    absurd
      (let bad : true ≡ false = sym (ap is_terminated e) ∙ accept_handshake-safe buffered rs in cc)
