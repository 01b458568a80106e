-- ===== src/Gatekeeper/Evaluate.antt =====
-- `evaluate` and `_increment_agent_stats` of backend/services/gatekeeper_service.py. The clock is
-- read as one time, `now`, in a call; `evaluation_time_ms` is left out.
use kemory_community.Prelude.{
  ℕ, ◌+◌, Text, text, text_eq, has_infix, Bool, true, false, not, ◌&&◌, Option, none, some, List,
  [], ◌∷◌, keep, ◌==◌, if◌then◌else◌,
}
use kemory_community.Gatekeeper.Schema.{
  PermissionRule, EvaluationRequest, ConsentRequest, GatekeeperDecision, AgentStats, Vault, Env,
  Status, allowed, denied, jit_pending, bearer_flow, default_deny, allowed_by, denied_by,
  consent_required, bad_uuid, Result, ok, err,
}
use kemory_community.Gatekeeper.Scope.{applies, is_blank}
use kemory_community.Gatekeeper.Rules.{names_agent}

-- One column of the row is raised by one.
unfoldable pub count_request : Text → Bool → AgentStats → AgentStats
unfolding has_infix
count_request scope granted row =
    if not granted
    then record row { denied_requests = row.denied_requests + 1 }
    else if has_infix scope (text "write")
    then record row { total_writes = row.total_writes + 1 }
    else record row { total_reads = row.total_reads + 1 }

unfoldable pub increment_agent_stats : ℕ → Text → Bool → List AgentStats → List AgentStats
unfolding count_request
increment_agent_stats agent_id scope granted [] = []
increment_agent_stats agent_id scope granted (row ∷ rows) =
    (if row.agent_id == agent_id then count_request scope granted row else row)
    ∷ increment_agent_stats agent_id scope granted rows

abbrev counted : ℕ → Text → Bool → Vault → Vault
counted agent_id scope granted db = record db {
  agents = increment_agent_stats agent_id scope granted db.agents;
}

abbrev pub allow_decision : PermissionRule → GatekeeperDecision
allow_decision rule = record {
  allowed = true;
  outcome = allowed;
  matched_rule_id = some rule.rule_id;
  reason = allowed_by rule.rule_id rule.priority;
  consent_id = none;
}

abbrev pub deny_decision : PermissionRule → GatekeeperDecision
deny_decision rule = record {
  allowed = false;
  outcome = denied;
  matched_rule_id = some rule.rule_id;
  reason = denied_by rule.rule_id rule.priority;
  consent_id = none;
}

abbrev pub jit_decision : PermissionRule → ℕ → GatekeeperDecision
jit_decision rule consent_id = record {
  allowed = false;
  outcome = jit_pending;
  matched_rule_id = some rule.rule_id;
  reason = consent_required rule.rule_id;
  consent_id = some consent_id;
}

abbrev pub default_decision : GatekeeperDecision
default_decision = record {
  allowed = false;
  outcome = denied;
  matched_rule_id = none;
  reason = default_deny;
  consent_id = none;
}

abbrev pub bearer_decision : GatekeeperDecision
bearer_decision = record {
  allowed = true;
  outcome = allowed;
  matched_rule_id = none;
  reason = bearer_flow;
  consent_id = none;
}

-- Sixty seconds.
abbrev pub consent_ttl : ℕ
consent_ttl = 60_000_000

-- The row that a rule with action "jit" opens.
abbrev pub new_consent : ℕ → EvaluationRequest → ℕ → ℕ → ℕ → PermissionRule → ConsentRequest
new_consent user_id request agent_id now new_id rule = record {
  consent_id = new_id;
  user_id = user_id;
  agent_id = agent_id;
  requested_scope = request.scope;
  requested_resource = if is_blank request.resource then request.namespace else request.resource;
  rule_id = rule.rule_id;
  priority = rule.priority;
  status = Status.pending;
  expires_at = now + consent_ttl;
  resolved_at = none;
}

-- The loop over the fetched rules. A rule with an action that is none of the three is passed over.
unfoldable pub decide :
    Env
    → ℕ
    → EvaluationRequest
    → ℕ
    → ℕ
    → ℕ
    → Vault
    → List PermissionRule
    → GatekeeperDecision × Vault
decide env user_id request agent_id now new_id db [] =
    (default_decision, counted agent_id request.scope false db)
decide env user_id request agent_id now new_id db (rule ∷ rules) =
    let rest = decide env user_id request agent_id now new_id db rules in
    if not (applies env request agent_id now rule)
    then rest
    else if text_eq rule.action (text "allow")
    then (allow_decision rule, counted agent_id request.scope true db)
    else if text_eq rule.action (text "deny")
    then (deny_decision rule, counted agent_id request.scope false db)
    else if text_eq rule.action (text "jit")
    then (
      jit_decision rule new_id,
      record db { consents = new_consent user_id request agent_id now new_id rule ∷ db.consents },
    )
    else rest

-- The WHERE of the query: the user's active rules.
unfoldable pub is_fetched : ℕ → PermissionRule → Bool
is_fetched user_id rule = rule.user_id == user_id && rule.is_active

unfoldable pub fetch_rules : Env → ℕ → Vault → List PermissionRule
unfolding is_fetched
fetch_rules env user_id db = env.by_priority (keep (is_fetched user_id) db.rules)

abbrev pub text_or_empty : Option Text → Text
text_or_empty none = []
text_or_empty (some t) = t

abbrev evaluate_agent :
    Env → ℕ → EvaluationRequest → ℕ → ℕ → Vault → Option ℕ → Result GatekeeperDecision × Vault
evaluate_agent env user_id request now new_id db none = (err bad_uuid, db)
evaluate_agent env user_id request now new_id db (some agent_id) =
    let (d, db') = decide env user_id request agent_id now new_id db (fetch_rules env user_id db) in
    (ok d, db')

unfoldable pub evaluate :
    Env → ℕ → EvaluationRequest → ℕ → ℕ → Vault → Result GatekeeperDecision × Vault
unfolding names_agent
evaluate env user_id request now new_id db =
    if not (names_agent request.agent_id)
    then (ok bearer_decision, db)
    else evaluate_agent env user_id request now new_id db
        (env.parse_uuid (text_or_empty request.agent_id))
