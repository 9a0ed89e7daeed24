-- ===== src/Api/Http.antt =====
-- What a request ends in, as the program inspects it: axios errors and other causes.
use g_manager.Common.{ℕ, String, Bool, true, false, Option, none, some, ◌==◌, leb}

pub record Response : Type 0 where
  pub status : ℕ
  pub message : Option String
  pub request_id : Option String

-- An error that axios raised, with the response if there was one; any other Error, with its
-- message; anything else that was thrown.
pub data Cause : Type 0 where
  http : Option Response → Cause
  failure : String → Cause
  unknown : Cause

-- axios.isAxiosError
abbrev pub is_axios_error : Cause → Bool
is_axios_error (http _) = true
is_axios_error _ = false

-- !cause.response, of an axios error
abbrev pub has_no_response : Cause → Bool
has_no_response (http none) = true
has_no_response _ = false

-- cause.response?.status
abbrev pub status_of : Cause → Option ℕ
status_of (http (some r)) = some r.status
status_of _ = none

abbrev pub status_is : ℕ → Cause → Bool
status_is n c = elim (status_of c) [ none ↦ false | some s ↦ s == n ]

-- (status ?? 0) >= n, for n above 0
abbrev pub status_from : ℕ → Cause → Bool
status_from n c = elim (status_of c) [ none ↦ false | some s ↦ leb n s ]

-- String(cause.response?.data?.message ?? '')
abbrev pub message_or_empty : Cause → String
message_or_empty (http (some r)) = elim r.message [ none ↦ "" | some m ↦ m ]
message_or_empty _ = ""
