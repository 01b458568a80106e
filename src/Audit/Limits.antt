-- ===== src/Audit/Limits.antt =====
-- `RATE_LIMITS`, `check_rate_limit` and `validate_write` of backend/services/audit_service.py. A
-- time is a number of microseconds; a size is the number of bytes of the encoded text.
use kemory_community.Prelude.{
  ℕ, ◌+◌, ◌-◌, ◌*◌, Text, text, text_eq, Bool, true, false, ◌&&◌, Option, none, some, List, [], ◌∷◌,
  ◌++◌, keep, length, leb, ltb, ◌==◌, if◌then◌else◌,
}
use kemory_community.Audit.Schema.{AuditLog, Env}

pub record Limits : Type 0 where
  pub max_requests : ℕ
  pub window_seconds : ℕ

abbrev hourly : ℕ → Limits
hourly n = record { max_requests = n; window_seconds = 3600 }

-- `RATE_LIMITS.get(action, RATE_LIMITS["default"])`
unfoldable pub rate_limits : Text → Limits
unfolding text_eq
rate_limits action =
    if text_eq action (text "memory:write")
    then hourly 100
    else if text_eq action (text "memory:read")
    then hourly 1000
    else if text_eq action (text "memory:delete")
    then hourly 50
    else if text_eq action (text "memory:search")
    then hourly 500
    else if text_eq action (text "permission:evaluate")
    then hourly 2000
    else hourly 200

pub record RateLimitStatus : Type 0 where
  pub agent_id : ℕ
  pub window_seconds : ℕ
  pub max_requests : ℕ
  pub current_count : ℕ
  pub remaining : ℕ
  pub reset_at : ℕ
  pub is_limited : Bool

abbrev pub seconds : ℕ → ℕ
seconds n = n * 1_000_000

abbrev pub by_agent : ℕ → Option ℕ → Bool
by_agent agent_id none = false
by_agent agent_id (some a) = a == agent_id

-- The WHERE of the count. The start of the window is compared with the window added on the other
-- side, where nothing stops at 0.
unfoldable pub in_window : ℕ → ℕ → Text → ℕ → ℕ → AuditLog → Bool
in_window user_id agent_id action window_seconds now log =
    log.user_id == user_id
    && by_agent agent_id log.agent_id
    && text_eq log.action action
    && leb now (log.created_at + seconds window_seconds)

-- The clock is read a second time, `later`, for the end of the window.
unfoldable pub check_rate_limit : ℕ → ℕ → Text → ℕ → ℕ → List AuditLog → RateLimitStatus
unfolding in_window
check_rate_limit user_id agent_id action now later rows =
    let limits = rate_limits action in
    let current_count =
      length (keep (in_window user_id agent_id action limits.window_seconds now) rows) in
    record {
      agent_id = agent_id;
      window_seconds = limits.window_seconds;
      max_requests = limits.max_requests;
      current_count = current_count;
      remaining = limits.max_requests - current_count;
      reset_at = later + seconds limits.window_seconds;
      is_limited = leb limits.max_requests current_count;
    }

-- The texts of the errors and warnings, with the numbers that they print; the last one prints the
-- difference of its two times.
pub data WriteError : Type 0 where
  content_too_large metadata_too_large : ℕ → WriteError
  rate_limit_exceeded : ℕ → ℕ → WriteError

pub data WriteWarning : Type 0 where
  content_near_limit : ℕ → WriteWarning
  high_write_frequency : ℕ → ℕ → WriteWarning

pub record WriteValidationResult : Type 0 where
  pub is_valid : Bool
  pub errors : List WriteError
  pub warnings : List WriteWarning

abbrev pub max_content_size : ℕ
max_content_size = 100_000

abbrev pub max_metadata_size : ℕ
max_metadata_size = 10_000

abbrev pub min_write_interval : ℕ
min_write_interval = 1

unfoldable pub content_errors : ℕ → List WriteError
content_errors size = if ltb max_content_size size then content_too_large size ∷ [] else []

-- Above four fifths of the limit.
unfoldable pub content_warnings : ℕ → List WriteWarning
content_warnings size =
    if ltb max_content_size size
    then []
    else if ltb 80_000 size
    then content_near_limit size ∷ []
    else []

-- None, and an empty dict, is no metadata.
unfoldable pub metadata_errors : Option ℕ → List WriteError
metadata_errors none = []
metadata_errors (some size) =
    if ltb max_metadata_size size then metadata_too_large size ∷ [] else []

abbrev pub first_time : List AuditLog → Option ℕ
first_time [] = none
first_time (r ∷ rs) = some r.created_at

-- The time of the agent's last write.
unfoldable pub last_write : Env → ℕ → ℕ → List AuditLog → Option ℕ
last_write env user_id agent_id rows = first_time (
    env.latest_first (
      keep
        (λ r.
          r.user_id == user_id
          && by_agent agent_id r.agent_id
          && text_eq r.action (text "memory:write"))
        rows))

unfoldable pub frequency_warnings : Option ℕ → ℕ → List WriteWarning
frequency_warnings none now = []
frequency_warnings (some last) now =
    if ltb now (last + seconds min_write_interval) then high_write_frequency last now ∷ [] else []

unfoldable pub rate_errors : RateLimitStatus → List WriteError
rate_errors status =
    if status.is_limited
    then rate_limit_exceeded status.current_count status.max_requests ∷ []
    else []

abbrev pub is_empty : List WriteError → Bool
is_empty [] = true
is_empty (e ∷ es) = false

-- The sizes of the encoded content and of the encoded metadata, if there is any; `now` is read
-- before the last write's age is tested, `then_` and `later` in the rate limit's check.
unfoldable pub validate_write :
    Env → ℕ → Option ℕ → ℕ → ℕ → ℕ → ℕ → ℕ → List AuditLog → WriteValidationResult
validate_write env content_size metadata_size user_id agent_id now then_ later rows =
    let rate_status = check_rate_limit user_id agent_id (text "memory:write") then_ later rows in
    let errors =
      content_errors content_size ++ metadata_errors metadata_size ++ rate_errors rate_status in
    record {
      is_valid = is_empty errors;
      errors = errors;
      warnings =
          content_warnings content_size
          ++ frequency_warnings (last_write env user_id agent_id rows) now;
    }
