-- ===== src/Gatekeeper/Schema.antt =====
-- The rows and values of backend/services/gatekeeper_service.py, backend/models/permission.py and
-- backend/models/consent.py. A UUID is a number, a time is in microseconds since the epoch.
use kemory_community.Prelude.{ℕ, ◌≤◌, Text, Bool, Option, List, [], ◌∷◌, All, In}

pub record TimeWindow : Type 0 where
  pub start_hour : Option ℕ
  pub end_hour : Option ℕ

-- The JSON object of the column `conditions`, with values of the documented types; the program reads
-- no other key.
pub record Conditions : Type 0 where
  pub time_window : Option TimeWindow

pub record PermissionRule : Type 0 where
  pub rule_id : ℕ
  pub user_id : ℕ
  pub org_id : Text
  pub agent_id : Option ℕ
  pub scope : Text
  pub action : Text
  pub priority : ℕ
  pub namespace_filter : Option Text
  pub conditions : Option Conditions
  pub is_active : Bool
  pub updated_at : ℕ

pub record PermissionRuleCreate : Type 0 where
  pub agent_id : Option Text
  pub scope : Text
  pub action : Text
  pub priority : ℕ
  pub namespace_filter : Option Text
  pub conditions : Option Conditions

pub record PermissionRuleUpdate : Type 0 where
  pub scope : Option Text
  pub action : Option Text
  pub priority : Option ℕ
  pub namespace_filter : Option Text
  pub conditions : Option Conditions
  pub is_active : Option Bool

pub record EvaluationRequest : Type 0 where
  pub agent_id : Option Text
  pub scope : Text
  pub resource : Option Text
  pub namespace : Option Text

pub data Status : Type 0 where
  pending approved denied timeout : Status

pub record ConsentRequest : Type 0 where
  pub consent_id : ℕ
  pub user_id : ℕ
  pub agent_id : ℕ
  pub requested_scope : Text
  pub requested_resource : Option Text
  pub rule_id : ℕ
  pub priority : ℕ
  pub status : Status
  pub expires_at : ℕ
  pub resolved_at : Option ℕ

pub data Outcome : Type 0 where
  allowed denied jit_pending jit_approved jit_denied jit_timeout : Outcome

-- The texts of `reason`, with the values that they print.
pub data Reason : Type 0 where
  bearer_flow default_deny expired approved_by_user denied_by_user : Reason
  allowed_by denied_by : ℕ → ℕ → Reason
  consent_required : ℕ → Reason

pub record GatekeeperDecision : Type 0 where
  pub allowed : Bool
  pub outcome : Outcome
  pub matched_rule_id : Option ℕ
  pub reason : Reason
  pub consent_id : Option ℕ

-- The counters of an agent's row in the registry.
pub record AgentStats : Type 0 where
  pub agent_id : ℕ
  pub total_reads : ℕ
  pub total_writes : ℕ
  pub denied_requests : ℕ

-- The tables that the service reads and writes.
pub record Vault : Type 0 where
  pub rules : List PermissionRule
  pub consents : List ConsentRequest
  pub agents : List AgentStats

-- The `ValueError`s of the service.
pub data Error : Type 0 where
  invalid_scope invalid_action bad_uuid rule_not_found consent_not_found : Error
  already_resolved : Status → Error

pub data Result (A : Type 0) : Type 0 where
  ok : A → Result A
  err : Error → Result A

-- Rows in the order of their priority.
abbrev pub Sorted : List PermissionRule → Type 0
Sorted [] = Unit
Sorted (r ∷ rs) = All (λ s. r.priority ≤ s.priority) rs × Sorted rs

-- What the service takes from the Python library, the settings and the database. The parser
-- `uuid.UUID` answers `none` where it raises; `by_priority` is ORDER BY priority ASC, which
-- returns the rows that it is given, in some order that the priorities allow.
pub record Env : Type 0 where
  pub parse_uuid : Text → Option ℕ
  pub fnmatch : Text → Text → Bool
  pub tenant_legacy_sentinel : Text
  pub by_priority : List PermissionRule → List PermissionRule
  pub by_priority-Sorted : (rs : List PermissionRule) → Sorted (by_priority rs)
  pub in-by_priority :
      (r : PermissionRule) (rs : List PermissionRule) → In r rs → In r (by_priority rs)
  pub in-of_by_priority :
      (r : PermissionRule) (rs : List PermissionRule) → In r (by_priority rs) → In r rs
