-- ===== src/Log.antt =====
-- include/foxy/log.hpp and src/log.cpp: what log_error writes to std::cerr, for the messages that the
-- error codes have.
pub mod Proxied
use foxy.Base.{Bool, true, false, [], ◌++◌, if◌then◌else◌, Text, codes}
use foxy.Net.{ErrorCode, stream_truncated}

unfoldable pub is_truncated : ErrorCode → Bool
is_truncated stream_truncated = true
is_truncated ec = false

-- A short read of TLS is not worth a line.
unfoldable pub log_error : (ErrorCode → Text) → ErrorCode → Text → Text
unfolding is_truncated
log_error message ec what =
    if is_truncated ec then [] else what ++ (codes " : " ++ (message ec ++ codes "\n"))
