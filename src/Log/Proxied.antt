-- ===== src/Log/Proxied.antt =====
-- What the proxy writes to std::cerr for one client.
use foxy.Base.{ap, refl, ◌∙◌, ◌≡◌, List, [], ◌∷◌, ◌++◌, Text, codes}
use foxy.Net.{ErrorCode, success, operation_aborted, eof, need_buffer, stream_truncated, other}
use foxy.Log
use foxy.Proxy.Connection.{
  Action, async_tunnel, async_relay, shutdown_session, shutdown_client, log_error, Reply, initial,
  run,
}
use foxy.Proxy.Closing.{AllGoOn, Stops, complaint, in_turn, run-closes}

-- Of the actions of async_connect_op, the last one first.
abbrev pub written : (ErrorCode → Text) → List Action → Text
written message [] = []
written message (log_error ec ∷ trace) =
    written message trace ++ Log.log_error message ec (codes "proxy client shutdown")
written message (a ∷ trace) = written message trace

-- The line for the code of a shutdown, or nothing for a code that is no error or that a peer that
-- hangs up early brings about.
abbrev pub line : (ErrorCode → Text) → ErrorCode → Text
line message success = []
line message eof = []
line message stream_truncated = []
line message ec = codes "proxy client shutdown" ++ (codes " : " ++ (message ec ++ codes "\n"))

module _ (message : ErrorCode → Text) where
  written-in_turn :
      (rs : List Reply) (a b : Action) (trace : List Action)
      → written message (a ∷ []) ≡ []
      → written message (b ∷ []) ≡ []
      → written message trace ≡ []
      → written message (in_turn rs a b trace) ≡ []
  written-in_turn [] a b trace ha hb h = h
  written-in_turn (r ∷ rs) a b trace ha hb h =
      written-in_turn rs b a (b ∷ trace) hb ha (written-cons b trace hb h)
    where
      written-cons :
          (b : Action) (trace : List Action)
          → written message (b ∷ []) ≡ []
          → written message trace ≡ []
          → written message (b ∷ trace) ≡ []
      written-cons async_tunnel trace hb h = h
      written-cons async_relay trace hb h = h
      written-cons shutdown_session trace hb h = h
      written-cons shutdown_client trace hb h = h
      written-cons (log_error ec) trace hb h = rw h hb

  written-complaint :
      (ec : ErrorCode) (trace : List Action)
      → written message trace ≡ []
      → written message (complaint ec ++ trace) ≡ line message ec
  unfolding Log.log_error
  written-complaint success trace h = h
  written-complaint operation_aborted trace h = rw h
  written-complaint eof trace h = h
  written-complaint need_buffer trace h = rw h
  written-complaint stream_truncated trace h = rw h
  written-complaint (other n) trace h = rw h

  -- A client of the proxy that has been served leaves one line at most: for the code of the last
  -- shutdown, unless that is no error, an end of file or a truncated stream.
  pub run-written :
      (rs : List Reply) (r q s : Reply)
      → AllGoOn rs
      → Stops r
      → written message (run (rs ++ (r ∷ q ∷ s ∷ [])) initial).trace ≡ line message s.ec
  run-written rs r q s h e =
      ap (λ m. written message m.trace) (run-closes rs r q s h e)
      ∙ written-complaint s.ec
          (shutdown_client
            ∷ shutdown_session
            ∷ in_turn rs async_tunnel async_relay (async_tunnel ∷ []))
          (written-in_turn rs async_tunnel async_relay (async_tunnel ∷ []) refl refl refl)
