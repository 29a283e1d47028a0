-- ===== src/Lib.antt =====
-- foxy: HTTP client and server sessions, a forward proxy, a URI parser and percent coding, over
-- Boost.Asio, Boost.Beast, Boost.Spirit and Boost.Locale.
--
-- The parts, the files of the program and the modules that model them:
--   * include/foxy/uri.hpp: every grammar rule of namespace foxy::uri is a value of the same name in
--     Uri.Standard, and every rule of foxy::uri::unicode in Uri.Unicode; the raw directive is in
--     Uri.Raw. X3 holds the grammars, the laws that Spirit X3 documents (the record X3, a parameter),
--     and what follows from them: for a grammar whose loops have solid bodies, `run` is the parse.
--   * include/foxy/uri_parts.hpp: UriParts. src/parse_uri.cpp: ParseUri, where parse_complete and
--     parse_authority of the two character types share one body over the rules that they name. The
--     parts are a parameter that the code mutates; a parser that fails is `none`. ParseUri.Written is
--     the description of a URI that the parser is compared with: its parts, and the text for them.
--   * include/foxy/utf8.hpp: Utf8, over Boost.Locale and Karma as the records Utf and Karma.
--     include/foxy/code_point_iterator.hpp and code_point_view.hpp: Utf8.CodePoint.
--   * include/foxy/pct_encode.hpp: Pct.Encode. include/foxy/pct_decode.hpp and error.hpp: Pct.Decode
--     and, for the category and the overload that throws, Pct.Decode.Errors.
--   * include/foxy/detail/timed_op_wrapper_v3.hpp and close_stream.hpp: TimedOp, a step relation
--     whose steps are the reports of the operation and of the timer waits, in any order.
--   * include/foxy/detail/tunnel.hpp: Tunnel. A coroutine is a machine: a point for each yield, and
--     a function that goes on from there with what the pending operation reports.
--   * include/foxy/detail/export_connect_fields.hpp and has_token.hpp: Fields, over what they use of
--     Boost.Beast (the record Beast).
--   * include/foxy/detail/relay.hpp: Relay, a machine like the tunnel, written once for the request and
--     once for the response as the two sides; what Beast reads from a header is the record Semantics.
--   * src/proxy.cpp: Proxy.Connection is the operation for one client, Proxy.Loop the accept loop
--     with cancel; Proxy.Composed, Proxy.Persistence and Proxy.Rounds put the operation together with the
--     tunnel and the relay.
--   * include/foxy/impl/client_session/ and impl/server_session/: Session, with a type of coroutines
--     whose actions answer with an error code and a count; Session.Client and Session.Server.
--     Session.Timed puts a coroutine under the timer of TimedOp; include/foxy/impl/session/ is in
--     Session too. An exception that leaves a coroutine, and std::terminate, are results of theirs.
--   * include/foxy/multi_stream.hpp, session_opts.hpp, session.hpp and impl/session.impl.hpp: Stream,
--     where sockets and contexts of TLS are any types.
--   * include/foxy/listener.hpp: Listener.Connection is server_op, Listener.Accepting is accept_op and
--     listener. include/foxy/speak.hpp: Speak, whose three operations are coroutines in sequence.
--   * examples/: Examples. Server is request_handler of server/main.cpp and https_server/main.cpp, Fleet
--     is client_op of the latter with the counter that its clients share, Search is the handler of
--     listener/main.cpp, IpParser is uri_combinators/ip_parser.cpp, and Requests has the clients that
--     make one request.
--   * src/log.cpp: Log.
--
-- The tunnel asks ParseUri for the parts of a request's target, hands an HTTP request to the relay,
-- and the relay moves fields by Fields. A session's operation is a coroutine that TimedOp races with a
-- timer, and the stream that it closes is a MultiStream of Stream. The listener and the speaker launch
-- the sessions' operations. Net has the error codes that these parts tell apart.
--
-- Characters and code points are natural numbers, a string_view is the text that it shows, and a
-- position in it is the text that is left. Bytes are taken modulo 256 where the code stores a char.
-- Fuel: the decoder, the loop over the code points and the kleene star take at least one character a
-- round, so the length of the text is fuel enough, which X3.Progress.many_enough, Pct.Decode.Halts
-- and the lemmas on the code points show. So does the list of addresses in Examples.IpParser.
--
-- Not modelled: include/foxy/utility.hpp and src/utility.cpp, whose namespace certify is a port of
-- Boost.Certify, so that its calls are actions of the client session, and make_ssl_ctx, which sets
-- options of OpenSSL; type traits; the copy of allocate_unique.hpp, which
-- is not this program's; tests and fuzzing; and allocators, executors and move semantics,
-- which do not change what is computed.
pub mod Base
pub mod X3
pub mod Uri
pub mod UriParts
pub mod ParseUri
pub mod Utf8
pub mod Pct
pub mod Net
pub mod TimedOp
pub mod Tunnel
pub mod Examples
pub mod Fields
pub mod Relay
pub mod Stream
pub mod Session
pub mod Proxy
pub mod Listener
pub mod Log
pub mod Speak
pub mod Tests
