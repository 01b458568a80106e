-- ===== src/Tests/Gatekeeper.antt =====
-- Tests of the permission engine. The environment sorts by insertion.
pub mod Order
use kemory_community.Prelude.{
  ℕ, ◌≤◌, ◌≡◌, ◌≢◌, refl, ap, ◌↔◌, Bool, true, false, Option, none, some, List, [], ◌∷◌, Text, text,
  text_eq, text_in, starts_with, has_infix, In, here, there, length, keep, arith, ◌⊎◌, inl, inr,
  ◌++◌, if◌then◌else◌, ◌==◌, ◌+◌,
}
use kemory_community.Gatekeeper.Schema.{
  PermissionRule, EvaluationRequest, ConsentRequest, GatekeeperDecision, AgentStats, Vault, Env,
  Status, pending, timeout, PermissionRuleCreate, PermissionRuleUpdate, Outcome, jit_approved,
  Reason, approved_by_user, ok, err, already_resolved,
}
use kemory_community.Gatekeeper.Scope.{
  applies, matches_agent, matches_scope, matches_namespace, matches_conditions, validate_action,
  validate_scope, ends_with, drop_last,
}
use kemory_community.Gatekeeper.Rules.{create_rule, update_rule, delete_rule, names_agent}
use kemory_community.Gatekeeper.Evaluate.{
  evaluate, fetch_rules, is_fetched, decide, default_decision, allow_decision, text_or_empty,
  increment_agent_stats, count_request,
}
use kemory_community.Gatekeeper.Consent.{
  resolve_consent, settled, settle, set_status, find_consent, is_consent,
}
use kemory_community.Gatekeeper.Priority.{
  binds, decision_of, evaluate_priority, evaluate_default_deny,
}
use kemory_community.Gatekeeper.Effects.{
  evaluate_allowed_by_rule, evaluate-requests, requests, rows_of,
}
use kemory_community.Gatekeeper.Covers.{Covers, matches_scope_iff}
use kemory_community.Gatekeeper.Lifecycle.{resolve_allowed}
use kemory_community.Gatekeeper.Reach.{Reach, Step, next, resolved, Reach-IsSettled}
use kemory_community.Gatekeeper.Validity.{AllValid, Reach-AllValid, owned_by, rules_isolated}
use Order.{sort, sort-Sorted, In-sort, In-of_sort}

abbrev pub env : Env
env = record {
  parse_uuid = λ t. if text_eq t (text "agent") then some 5 else none;
  fnmatch = λ n p. text_eq n p;
  tenant_legacy_sentinel = text "legacy";
  by_priority = sort;
  by_priority-Sorted = sort-Sorted;
  in-by_priority = In-sort;
  in-of_by_priority = In-of_sort;
}

abbrev rule : ℕ → Text → Text → ℕ → PermissionRule
rule id scope action priority = record {
  rule_id = id;
  user_id = 7;
  org_id = text "org";
  agent_id = none;
  scope = scope;
  action = action;
  priority = priority;
  namespace_filter = none;
  conditions = none;
  is_active = true;
  updated_at = 0;
}

abbrev deny_all : PermissionRule
deny_all = rule 1 (text "admin:*") (text "deny") 90

abbrev allow_write : PermissionRule
allow_write = rule 2 (text "memory:write") (text "allow") 10

abbrev ask_delete : PermissionRule
ask_delete = rule 3 (text "memory:delete") (text "jit") 20

abbrev stats : AgentStats
stats = record { agent_id = 5; total_reads = 1; total_writes = 2; denied_requests = 3 }

abbrev vault : Vault
vault = record {
  rules = deny_all ∷ allow_write ∷ ask_delete ∷ [];
  consents = [];
  agents = stats ∷ [];
}

abbrev request : Text → EvaluationRequest
request scope = record {
  agent_id = some (text "agent");
  scope = scope;
  resource = none;
  namespace = none;
}

-- The allowing rule has the smaller priority number, though the denying one was stored first.
evaluate_write : evaluate env 7 (request (text "memory:write")) 100 40 vault ≡ (
  ok (allow_decision allow_write),
  record vault { agents = record stats { total_writes = 3 } ∷ [] },
)
unfolding evaluate fetch_rules is_fetched decide applies matches_agent matches_scope
    matches_namespace matches_conditions names_agent sort text_eq increment_agent_stats
    count_request has_infix starts_with ends_with drop_last
evaluate_write = refl

abbrev ask : EvaluationRequest
ask = request (text "memory:write")

-- A rule of this vault applies to the request and has a known action.
deny_all-binds : binds env 7 ask 5 100 40 vault deny_all ≡ true
unfolding applies matches_agent matches_scope matches_namespace matches_conditions validate_action
    text_eq ends_with
deny_all-binds = refl

evaluate_priority_example :
    (r : PermissionRule) × (In r vault.rules × (r.user_id ≡ 7) × (r.is_active ≡ true))
    × (binds env 7 ask 5 100 40 vault r ≡ true)
    × (r.priority ≤ 90)
    × ((evaluate env 7 ask 100 40 vault).0 ≡ ok (decision_of r 40))
unfolding names_agent text_eq
evaluate_priority_example =
    evaluate_priority env 7 ask 5 100 40 vault deny_all refl refl (here refl) refl refl
      deny_all-binds

abbrev bare : Vault
bare = record { rules = []; consents = []; agents = stats ∷ [] }

no_rules :
    (s : PermissionRule)
    → In s bare.rules
    → s.user_id ≡ 7
    → s.is_active ≡ true
    → binds env 7 ask 5 100 40 bare s ≡ true
    → ⊥
no_rules s m own active b = elim m [ ]

evaluate_default_deny_example : (evaluate env 7 ask 100 40 bare).0 ≡ ok default_decision
unfolding names_agent text_eq
evaluate_default_deny_example = evaluate_default_deny env 7 ask 5 100 40 bare refl refl no_rules

evaluate_allowed_by_rule_example :
    (r : PermissionRule) × In r vault.rules
    × (r.user_id ≡ 7)
    × (r.is_active ≡ true)
    × (applies env ask 5 100 r ≡ true)
    × (r.action ≡ text "allow")
    × ((allow_decision allow_write).matched_rule_id ≡ some r.rule_id)
unfolding names_agent text_eq
evaluate_allowed_by_rule_example =
    evaluate_allowed_by_rule env 7 ask 5 100 40 vault (allow_decision allow_write) refl refl
      (ap (λ p. p.0) evaluate_write) refl

abbrev counted : Vault
counted = record vault { agents = record stats { total_writes = 3 } ∷ [] }

evaluate-requests_example :
    requests 5 counted.agents
    ≡ requests 5 vault.agents + (if ◌==◌ 5 5 then rows_of 5 vault.agents else 0)
unfolding names_agent text_eq
evaluate-requests_example =
    evaluate-requests env 7 ask 5 100 40 vault 5 (allow_decision allow_write) counted refl refl
      evaluate_write refl

matches_scope_iff_example :
    (matches_scope (text "graph:read:*") (text "graph:read:own") ≡ true)
    ↔ Covers (text "graph:read:*") (text "graph:read:own")
matches_scope_iff_example = matches_scope_iff (text "graph:read:*") (text "graph:read:own")

-- A scope "memory:*" is one that `matches_scope` reads as a prefix and `validate_scope` refuses.
wildcard_refused :
    (validate_scope (text "memory:*") ≡ false)
    × (matches_scope (text "memory:*") (text "memory:read") ≡ true)
unfolding validate_scope matches_scope
wildcard_refused = (refl, refl)

abbrev consent : ConsentRequest
consent = record {
  consent_id = 40;
  user_id = 7;
  agent_id = 5;
  requested_scope = text "memory:delete";
  requested_resource = none;
  rule_id = 3;
  priority = 20;
  status = pending;
  expires_at = 60;
  resolved_at = none;
}

abbrev waiting : Vault
waiting = record bare { consents = consent ∷ [] }

abbrev approved_vault : Vault
approved_vault = record bare {
  consents = record consent { status = Status.approved; resolved_at = some 60 } ∷ [];
}

abbrev approval : GatekeeperDecision
approval = settled true jit_approved approved_by_user 40

approve : resolve_consent 40 7 true 60 waiting ≡ (ok approval, approved_vault)
unfolding resolve_consent find_consent
approve = refl

resolve_allowed_example : (consent.status ≡ pending) × (true ≡ true) × (60 ≤ consent.expires_at)
unfolding find_consent is_consent
resolve_allowed_example =
    resolve_allowed 40 7 true 60 waiting approval consent refl (ap (λ p. p.0) approve) refl

abbrev settled_consent : ConsentRequest
settled_consent = record consent { status = Status.approved; resolved_at = some 60 }

approved-ne-pending : Status.approved ≢ pending
approved-ne-pending e = cc

Reach-IsSettled_example :
    find_consent 40 7 (resolve_consent 40 7 false 61 approved_vault).1 ≡ some settled_consent
unfolding find_consent is_consent
Reach-IsSettled_example =
    Reach-IsSettled env 40 7 settled_consent {start = approved_vault} refl approved-ne-pending
      (next Reach.here (resolved approved_vault 40 7 false 61))

vault-AllValid : AllValid vault
unfolding validate_scope validate_action text_eq
vault-AllValid = ((refl, refl), ((refl, refl), ((refl, refl), tt)))

abbrev bad_update : PermissionRuleUpdate
bad_update = record {
  scope = some (text "graph:read");
  action = some (text "maybe");
  priority = none;
  namespace_filter = none;
  conditions = none;
  is_active = none;
}

-- An update that fails on its action has assigned the scope.
Reach-AllValid_example : AllValid (update_rule 2 7 bad_update 100 vault).1
Reach-AllValid_example =
    Reach-AllValid env vault-AllValid (next Reach.here (Step.updated vault 2 7 bad_update 100))

abbrev create : PermissionRuleCreate
create = record {
  agent_id = none;
  scope = text "graph:read";
  action = text "allow";
  priority = 1;
  namespace_filter = none;
  conditions = none;
}

rules_isolated_example :
    (keep (owned_by 8) (create_rule env 7 create [] 50 100 vault).1.rules
      ≡ keep (owned_by 8) vault.rules)
    × (keep (owned_by 8) (update_rule 2 7 bad_update 100 vault).1.rules
        ≡ keep (owned_by 8) vault.rules)
    × (keep (owned_by 8) (delete_rule 2 7 vault).1.rules ≡ keep (owned_by 8) vault.rules)
rules_isolated_example = rules_isolated env 7 8 2 50 100 create bad_update [] vault (omega arith)
