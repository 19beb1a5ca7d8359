-- ===== src/Errors.antt =====
-- include/sfp/status.hpp, include/sfp/system_error.hpp and src/system_error.cpp: the statuses of the
-- library as error codes, among those of Boost.Asio that the queue tests for.
use Prim.Native.String.{String}
use libsfp.Base.{ℕ, zero, suc, Bool, true, false, not, ◌==◌}

pub data Status : Type 0 where
  ok handshake_failed : Status

-- An error code of Boost: none, the four of `boost::asio::error` that the code names, any other
-- one, and the values of the library's own category.
pub data ErrorCode : Type 0 where
  no_error : ErrorCode
  operation_aborted network_down message_size timed_out : ErrorCode
  other_error : ℕ → ErrorCode
  sfp_error : ℕ → ErrorCode

-- The conversion of an error code to `bool`: whether its value is not 0.
unfoldable pub is_error : ErrorCode → Bool
is_error no_error = false
is_error (sfp_error value) = not (value == 0)
is_error _ = true

-- `boost::asio::error::operation_aborted == ec`.
unfoldable pub is_aborted : ErrorCode → Bool
is_aborted operation_aborted = true
is_aborted _ = false

-- `static_cast<int>(status)`.
unfoldable pub status_code : Status → ℕ
status_code ok = 0
status_code handshake_failed = 1

unfoldable pub make_error_code : Status → ErrorCode
unfolding status_code
make_error_code status = sfp_error (status_code status)

-- `ErrorCategory::name` and `ErrorCategory::message`.
abbrev pub category_name : String
category_name = "sfp"

unfoldable pub message : ℕ → String
message zero = "OK"
message (suc zero) = "HANDSHAKE_FAILED"
message (suc (suc ev)) = "(unknown status)"
