-- ===== src/Audit/Log.antt =====
-- `compute_hash_chain` and `log_audit_event` of backend/services/audit_service.py. The table is the
-- list of its rows, in the order in which they were added.
use kemory_community.Prelude.{ℕ, Text, text, Option, none, some, List, [], ◌∷◌, ◌++◌, keep, ◌==◌}
use kemory_community.Audit.Schema.{AuditLog, AuditEvent, TenantScope, Env}

-- `x or y` for an optional text, where None and the empty text are false
unfoldable pub or_else : Option Text → Text → Text
or_else none y = y
or_else (some []) y = y
or_else (some (c ∷ s)) y = c ∷ s

-- The text that is hashed.
unfoldable pub payload : Text → Text → Text → Text → Text
payload previous_hash action resource_id timestamp =
    previous_hash ++ b':' ∷ (action ++ b':' ∷ (resource_id ++ b':' ∷ timestamp))

unfoldable pub compute_hash_chain : Env → Text → Text → Text → Text → Text
compute_hash_chain env previous_hash action resource_id timestamp =
    env.sha256_hex (payload previous_hash action resource_id timestamp)

-- The organisation and the team that are recorded.
abbrev given_or : Option Text → Option Text → Option Text
given_or (some t) u = some t
given_or none u = u

-- `current_org_id() or None`
abbrev text_or_none : Text → Option Text
text_or_none [] = none
text_or_none (c ∷ s) = some (c ∷ s)

unfoldable pub event_org : AuditEvent → TenantScope → Option Text
event_org e scope = given_or e.org_id (text_or_none scope.org_id)

abbrev only_team : List Text → Option Text
only_team (t ∷ []) = some t
only_team ts = none

unfoldable pub event_team : AuditEvent → TenantScope → Option Text
event_team e scope = given_or e.team_id (only_team scope.team_ids)

abbrev pub first_hash : List AuditLog → Option Text
first_hash [] = none
first_hash (r ∷ rs) = some r.hash_chain

abbrev pub owned : ℕ → List AuditLog → List AuditLog
owned user_id rows = keep (λ r. r.user_id == user_id) rows

-- The hash of the user's latest row, or GENESIS.
unfoldable pub previous_hash : Env → ℕ → List AuditLog → Text
unfolding or_else
previous_hash env user_id rows =
    or_else (first_hash (env.latest_first (owned user_id rows))) (text "GENESIS")

unfoldable pub new_row : Env → AuditEvent → TenantScope → ℕ → ℕ → List AuditLog → AuditLog
unfolding event_org event_team
new_row env e scope new_id now rows = record {
  audit_id = new_id;
  user_id = e.user_id;
  agent_id = e.agent_id;
  org_id = event_org e scope;
  team_id = event_team e scope;
  action = e.action;
  resource_type = e.resource_type;
  resource_id = e.resource_id;
  namespace = e.namespace;
  outcome = e.outcome;
  details = e.details;
  ip_address = e.ip_address;
  hash_chain =
      compute_hash_chain env (previous_hash env e.user_id rows) e.action
        (or_else e.resource_id (text "none")) (env.isoformat now);
  created_at = now;
}

unfoldable pub log_audit_event :
    Env → AuditEvent → TenantScope → ℕ → ℕ → List AuditLog → AuditLog × List AuditLog
log_audit_event env e scope new_id now rows =
    let row = new_row env e scope new_id now rows in (row, rows ++ row ∷ [])
