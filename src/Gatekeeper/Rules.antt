-- ===== src/Gatekeeper/Rules.antt =====
-- The CRUD operations on permission rules of backend/services/gatekeeper_service.py. Each returns
-- its result and the tables: what was assigned before a raise stays assigned in the session.
use kemory_community.Prelude.{
  ℕ, Text, text, text_eq, Bool, true, false, not, ◌&&◌, ◌||◌, Option, none, some, List, [], ◌∷◌,
  keep, ◌==◌, if◌then◌else◌,
}
use kemory_community.Gatekeeper.Schema.{
  PermissionRule, PermissionRuleCreate, PermissionRuleUpdate, Vault, Env, invalid_scope,
  invalid_action, bad_uuid, rule_not_found, Result, ok, err,
}
use kemory_community.Gatekeeper.Scope.{validate_scope, validate_action}

-- `None`, an empty text, "None" and "none" stand for no agent.
unfoldable pub names_agent : Option Text → Bool
unfolding text_eq
names_agent none = false
names_agent (some t) = not (text_eq t [] || text_eq t (text "None") || text_eq t (text "none"))

-- `uuid.UUID(request.agent_id) if request.agent_id … else None`, where the parser may raise
abbrev parsed : Option ℕ → Result (Option ℕ)
parsed none = err bad_uuid
parsed (some a) = ok (some a)

abbrev text_of : Option Text → Text
text_of none = []
text_of (some t) = t

unfoldable pub rule_agent : Env → Option Text → Result (Option ℕ)
unfolding names_agent
rule_agent env agent_id =
    if names_agent agent_id then parsed (env.parse_uuid (text_of agent_id)) else ok none

abbrev new_rule : Env → ℕ → PermissionRuleCreate → Text → ℕ → ℕ → Option ℕ → PermissionRule
new_rule env user_id request org_id new_id now agent_id = record {
  rule_id = new_id;
  user_id = user_id;
  org_id = if text_eq org_id [] then env.tenant_legacy_sentinel else org_id;
  agent_id = agent_id;
  scope = request.scope;
  action = request.action;
  priority = request.priority;
  namespace_filter = request.namespace_filter;
  conditions = request.conditions;
  is_active = true;
  updated_at = now;
}

abbrev add_rule :
    Vault → (Option ℕ → PermissionRule) → Result (Option ℕ) → Result PermissionRule × Vault
add_rule db build (err e) = (err e, db)
add_rule db build (ok agent_id) =
    let rule = build agent_id in (ok rule, record db { rules = rule ∷ db.rules })

-- An absent `org_id` is the empty text.
unfoldable pub create_rule :
    Env → ℕ → PermissionRuleCreate → Text → ℕ → ℕ → Vault → Result PermissionRule × Vault
unfolding rule_agent
create_rule env user_id request org_id new_id now db =
    if not (validate_scope request.scope)
    then (err invalid_scope, db)
    else if not (validate_action request.action)
    then (err invalid_action, db)
    else add_rule db (new_rule env user_id request org_id new_id now)
        (rule_agent env request.agent_id)

-- The WHERE of `_get_rule_for_user`.
unfoldable pub is_rule : ℕ → ℕ → PermissionRule → Bool
is_rule rule_id user_id rule = rule.rule_id == rule_id && rule.user_id == user_id

abbrev pub first : List PermissionRule → Result PermissionRule
first [] = err rule_not_found
first (r ∷ rs) = ok r

unfoldable pub get_rule_for_user : ℕ → ℕ → Vault → Result PermissionRule
unfolding is_rule
get_rule_for_user rule_id user_id db = first (keep (is_rule rule_id user_id) db.rules)

abbrev or_kept {ℓ} : {A : Type ℓ} → Option A → A → A
or_kept none old = old
or_kept (some new) old = new

-- `Some other` conditions replace the old ones, `None` keeps them.
abbrev or_kept_option {ℓ} : {A : Type ℓ} → Option A → Option A → Option A
or_kept_option none old = old
or_kept_option (some new) old = some new

abbrev pub accepts : (Text → Bool) → Option Text → Bool
accepts valid none = true
accepts valid (some t) = valid t

-- The assignments of `update_rule`, in their order, on the row.
unfoldable pub assign_scope : PermissionRuleUpdate → PermissionRule → PermissionRule
assign_scope request rule = record rule { scope = or_kept request.scope rule.scope }

unfoldable pub assign_rest : PermissionRuleUpdate → ℕ → PermissionRule → PermissionRule
assign_rest request now rule = record rule {
  action = or_kept request.action rule.action;
  priority = or_kept request.priority rule.priority;
  namespace_filter = or_kept_option request.namespace_filter rule.namespace_filter;
  conditions = or_kept_option request.conditions rule.conditions;
  is_active = or_kept request.is_active rule.is_active;
  updated_at = now;
}

-- The row that the session holds under the key changes in place.
unfoldable pub replace_rule :
    ℕ → ℕ → (PermissionRule → PermissionRule) → List PermissionRule → List PermissionRule
unfolding is_rule
replace_rule rule_id user_id f [] = []
replace_rule rule_id user_id f (r ∷ rs) =
    (if is_rule rule_id user_id r then f r else r) ∷ replace_rule rule_id user_id f rs

abbrev update_found :
    ℕ → ℕ → PermissionRuleUpdate → ℕ → Vault → Result PermissionRule → Result PermissionRule × Vault
update_found rule_id user_id request now db (err e) = (err e, db)
update_found rule_id user_id request now db (ok rule) =
    if not (accepts validate_scope request.scope)
    then (err invalid_scope, db)
    else let scoped = replace_rule rule_id user_id (assign_scope request) db.rules in
      if not (accepts validate_action request.action)
      then (err invalid_action, record db { rules = scoped })
      else (
        ok (assign_rest request now (assign_scope request rule)),
        record db { rules = replace_rule rule_id user_id (assign_rest request now) scoped },
      )

unfoldable pub update_rule :
    ℕ → ℕ → PermissionRuleUpdate → ℕ → Vault → Result PermissionRule × Vault
update_rule rule_id user_id request now db =
    update_found rule_id user_id request now db (get_rule_for_user rule_id user_id db)

unfoldable pub remove_rule : ℕ → ℕ → List PermissionRule → List PermissionRule
unfolding is_rule
remove_rule rule_id user_id rules = keep (λ r. not (is_rule rule_id user_id r)) rules

abbrev delete_found : ℕ → ℕ → Vault → Result PermissionRule → Result (Unit {0}) × Vault
delete_found rule_id user_id db (err e) = (err e, db)
delete_found rule_id user_id db (ok rule) =
    (ok tt, record db { rules = remove_rule rule_id user_id db.rules })

unfoldable pub delete_rule : ℕ → ℕ → Vault → Result (Unit {0}) × Vault
delete_rule rule_id user_id db =
    delete_found rule_id user_id db (get_rule_for_user rule_id user_id db)

abbrev is_asked : Option ℕ → Option ℕ → Bool
is_asked none a = true
is_asked (some b) none = false
is_asked (some b) (some a) = a == b

abbrev is_scope : Option Text → Text → Bool
is_scope none s = true
is_scope (some t) s = text_eq s t

-- The WHEREs of `list_rules`; an admin's view drops the first.
unfoldable pub is_listed : ℕ → Option ℕ → Option Text → Bool → PermissionRule → Bool
unfolding text_eq
is_listed user_id agent_id scope admin_view rule =
    (admin_view || rule.user_id == user_id)
    && is_asked agent_id rule.agent_id
    && is_scope scope rule.scope

unfoldable pub list_rules : Env → ℕ → Option ℕ → Option Text → Bool → Vault → List PermissionRule
unfolding is_listed
list_rules env user_id agent_id scope admin_view db =
    env.by_priority (keep (is_listed user_id agent_id scope admin_view) db.rules)
