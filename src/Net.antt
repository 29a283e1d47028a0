-- ===== src/Net.antt =====
-- What the sessions and the proxy share: the error codes that the code tells apart.
use foxy.Base.{ℕ, Bool, true, false}

-- boost::system::error_code: no error, the codes that foxy compares with, and any other.
pub data ErrorCode : Type 0 where
  success : ErrorCode
  operation_aborted : ErrorCode
  eof : ErrorCode
  need_buffer : ErrorCode
  stream_truncated : ErrorCode
  other : ℕ → ErrorCode

-- `if (ec)`.
unfoldable pub is_error : ErrorCode → Bool
is_error success = false
is_error operation_aborted = true
is_error eof = true
is_error need_buffer = true
is_error stream_truncated = true
is_error (other n) = true

unfoldable pub is_aborted : ErrorCode → Bool
is_aborted operation_aborted = true
is_aborted ec = false

unfoldable pub is_need_buffer : ErrorCode → Bool
is_need_buffer need_buffer = true
is_need_buffer ec = false
