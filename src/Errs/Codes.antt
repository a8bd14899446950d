-- ===== src/Errs/Codes.antt =====
-- pkg/errs/const.go, `Error` of pkg/errs/error.go and its two status functions. A code is a
-- natural number; Go's `int` also has negative values, which take the same default branches.
use aeus.Common.{ℕ, List, [], ◌∷◌, ◌==◌, if◌then◌else◌, any, Bytes}

abbrev pub Code : Type 0
Code = ℕ

abbrev pub code_ok : Code
code_ok = 0

abbrev pub code_exit : Code
code_exit = 1000

abbrev pub code_invalid : Code
code_invalid = 1001

abbrev pub code_exists : Code
code_exists = 1002

abbrev pub code_unavailable : Code
code_unavailable = 1003

abbrev pub code_incompatible : Code
code_incompatible = 1004

abbrev pub code_internal : Code
code_internal = 1005

abbrev pub code_too_large : Code
code_too_large = 1006

abbrev pub code_unsupported_format : Code
code_unsupported_format = 1007

abbrev pub code_malformed : Code
code_malformed = 1008

abbrev pub code_missing_field : Code
code_missing_field = 1009

abbrev pub code_out_of_range : Code
code_out_of_range = 1010

abbrev pub code_conflict : Code
code_conflict = 1011

abbrev pub code_unprocessable : Code
code_unprocessable = 1012

abbrev pub code_not_implemented : Code
code_not_implemented = 1013

abbrev pub code_timeout : Code
code_timeout = 2001

abbrev pub code_expired : Code
code_expired = 2002

abbrev pub code_canceled : Code
code_canceled = 2003

abbrev pub code_deadline_exceeded : Code
code_deadline_exceeded = 2004

abbrev pub code_rate_limited : Code
code_rate_limited = 3001

abbrev pub code_quota_exceeded : Code
code_quota_exceeded = 3002

abbrev pub code_unauthorized : Code
code_unauthorized = 4001

abbrev pub code_token_expired : Code
code_token_expired = 4002

abbrev pub code_permission_denied : Code
code_permission_denied = 4003

abbrev pub code_not_found : Code
code_not_found = 4004

abbrev pub code_access_denied : Code
code_access_denied = 4005

abbrev pub code_token_invalid : Code
code_token_invalid = 4006

abbrev pub code_precondition_failed : Code
code_precondition_failed = 4007

abbrev pub code_too_many_attempts : Code
code_too_many_attempts = 4010

abbrev pub code_network_unreachable : Code
code_network_unreachable = 5001

abbrev pub code_connection_refused : Code
code_connection_refused = 5002

abbrev pub code_database_error : Code
code_database_error = 6001

abbrev pub code_unique_violation : Code
code_unique_violation = 6002

abbrev pub code_deadlock : Code
code_deadlock = 6003

abbrev pub code_cache_error : Code
code_cache_error = 6004

abbrev pub code_upstream_error : Code
code_upstream_error = 8001

-- `Error`; the cause is another error, of which only the text counts here.
pub record Error : Type 0 where
  pub code : Code
  pub message : Bytes

-- `switch c { case l₀...: return r₀; ...; default: return d }`.
abbrev pub switch : List (List Code × ℕ) → ℕ → Code → ℕ
switch [] d c = d
switch ((labels, r) ∷ rest) d c = if any (◌==◌ c) labels then r else switch rest d c

abbrev pub http_cases : List (List Code × ℕ)
http_cases =
    (code_not_found ∷ [], 404)
    ∷ (code_permission_denied ∷ code_access_denied ∷ [], 403)
    ∷ (code_token_expired ∷ code_unauthorized ∷ code_token_invalid ∷ [], 401)
    ∷ (code_invalid ∷ code_malformed ∷ code_missing_field ∷ code_out_of_range ∷ [], 400)
    ∷ (code_too_large ∷ [], 413)
    ∷ (code_unsupported_format ∷ [], 415)
    ∷ (code_exists ∷ code_conflict ∷ code_unique_violation ∷ [], 409)
    ∷ (code_unprocessable ∷ [], 422)
    ∷ (code_precondition_failed ∷ [], 412)
    ∷ (code_rate_limited ∷ code_quota_exceeded ∷ code_too_many_attempts ∷ [], 429)
    ∷ (code_timeout ∷ code_deadline_exceeded ∷ [], 504)
    ∷ (code_canceled ∷ [], 499)
    ∷ (
      code_unavailable ∷ code_database_error ∷ code_cache_error ∷ code_deadlock
          ∷ code_upstream_error ∷ [],
      503,
    )
    ∷ (code_not_implemented ∷ [], 501)
    ∷ []

-- `(*Error).HTTPStatus`.
unfoldable pub http_status : Code → ℕ
http_status c = switch http_cases 500 c

abbrev pub grpc_cases : List (List Code × ℕ)
grpc_cases =
    (code_not_found ∷ [], 5)
    ∷ (code_exists ∷ code_unique_violation ∷ [], 6)
    ∷ (code_permission_denied ∷ code_access_denied ∷ [], 7)
    ∷ (
      code_invalid ∷ code_malformed ∷ code_missing_field ∷ code_out_of_range ∷ code_too_large
          ∷ code_unsupported_format ∷ code_unprocessable ∷ [],
      3,
    )
    ∷ (code_conflict ∷ code_deadlock ∷ [], 10)
    ∷ (code_precondition_failed ∷ [], 9)
    ∷ (code_rate_limited ∷ code_quota_exceeded ∷ code_too_many_attempts ∷ [], 8)
    ∷ (code_timeout ∷ code_deadline_exceeded ∷ [], 4)
    ∷ (code_canceled ∷ [], 1)
    ∷ (code_unavailable ∷ code_database_error ∷ code_cache_error ∷ code_upstream_error ∷ [], 14)
    ∷ (code_not_implemented ∷ [], 12)
    ∷ (code_token_expired ∷ code_unauthorized ∷ code_token_invalid ∷ [], 16)
    ∷ (code_internal ∷ [], 13)
    ∷ []

-- `(*Error).GRPCStatus`.
unfoldable pub grpc_status : Code → ℕ
grpc_status c = switch grpc_cases 2 c
