-- ===== src/Stream.antt =====
-- include/foxy/multi_stream.hpp, session_opts.hpp, session.hpp and impl/session.impl.hpp: a stream
-- that is a socket or a TLS stream over one, and the session that holds it. Sockets and TLS contexts
-- are the libraries'.
pub mod Layers
use mathlib.Core.Option
use foxy.Base.{ℕ, Bool, true, false, Option, none, some, [], Text, if◌then◌else◌}

-- boost::beast::ssl_stream: the socket beneath it and the context.
pub record TlsStream {ℓ} (Socket Context : Type ℓ) : Type ℓ where
  pub next_layer : Socket
  pub context : Context

-- variant2::variant<stream_type, ssl_stream_type>.
pub data MultiStream {ℓ} (Socket Context : Type ℓ) : Type ℓ where
  stream_type : Socket → MultiStream Socket Context
  ssl_stream_type : TlsStream Socket Context → MultiStream Socket Context

-- session_opts; the timeout in milliseconds.
pub record SessionOpts {ℓ} (Context : Type ℓ) : Type ℓ where
  pub ssl_ctx : Option Context
  pub timeout : ℕ
  pub verify_peer_cert : Bool

pub record Session {ℓ} (Socket Context : Type ℓ) : Type ℓ where
  pub opts : SessionOpts Context
  pub stream : MultiStream Socket Context
  pub buffer : Text

abbrev pub default_opts {ℓ} : {Context : Type ℓ} → SessionOpts Context
default_opts = record { ssl_ctx = none; timeout = 1000; verify_peer_cert = true }

module _ {ℓ} {Socket Context : Type ℓ} where
  -- The constructor with a context.
  abbrev pub make_ssl : Socket → Context → MultiStream Socket Context
  make_ssl socket ctx = ssl_stream_type (record { next_layer = socket; context = ctx })

  -- stream_.index() == 1.
  unfoldable pub is_ssl : MultiStream Socket Context → Bool
  is_ssl (stream_type s) = false
  is_ssl (ssl_stream_type t) = true

  -- variant2::get, which throws where the other alternative is held.
  unfoldable pub get_stream : MultiStream Socket Context → Option Socket
  get_stream (stream_type s) = some s
  get_stream (ssl_stream_type t) = none

  -- ssl() is noexcept: `none` ends the program.
  unfoldable pub ssl : MultiStream Socket Context → Option (TlsStream Socket Context)
  ssl (stream_type s) = none
  ssl (ssl_stream_type t) = some t

  unfoldable pub plain : MultiStream Socket Context → Option Socket
  unfolding is_ssl ssl get_stream
  plain s = if is_ssl s then Option.map (λ t. t.next_layer) (ssl s) else get_stream s

  unfoldable pub upgrade :
      Context → MultiStream Socket Context → Option (MultiStream Socket Context)
  unfolding plain
  upgrade ctx s = Option.map (λ socket. make_ssl socket ctx) (plain s)

  -- async_read_some, async_write_some and get_executor: variant2::visit.
  unfoldable pub visit {κ} :
      {A : Type κ} → (Socket → A) → (TlsStream Socket Context → A) → MultiStream Socket Context → A
  visit f g (stream_type s) = f s
  visit f g (ssl_stream_type t) = g t

  -- The stream that async_timer closes when the time is up.
  unfoldable pub closed_stream : MultiStream Socket Context → Option Socket
  unfolding is_ssl ssl plain
  closed_stream s = if is_ssl s then Option.map (λ t. t.next_layer) (ssl s) else plain s

  -- opts.ssl_ctx ? stream_type(executor, *opts.ssl_ctx) : stream_type(executor).
  unfoldable pub stream_for : Option Context → Socket → MultiStream Socket Context
  stream_for (some ctx) socket = make_ssl socket ctx
  stream_for none socket = stream_type socket

  -- basic_session(executor, opts, …) and (io, opts, …), over the socket that the executor gives.
  unfoldable pub new_session : Socket → SessionOpts Context → Session Socket Context
  unfolding stream_for
  new_session socket opts = record {
    opts = opts;
    stream = stream_for opts.ssl_ctx socket;
    buffer = [];
  }

  -- basic_session(stream, opts, …).
  abbrev pub session_over :
      MultiStream Socket Context → SessionOpts Context → Session Socket Context
  session_over stream opts = record { opts = opts; stream = stream; buffer = [] }
