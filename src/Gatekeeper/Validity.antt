-- ===== src/Gatekeeper/Validity.antt =====
-- What the operations on permission rules keep: the validity of every stored rule, and the rules of
-- the other users.
use kemory_community.Prelude.{
  ℕ, ◌≡◌, ◌≢◌, refl, ◌∙◌, Bool, true, List, [], ◌∷◌, keep, Text, All, All-keep, Bool-cases,
  Option-cases, inl, inr, ◌⊎◌, ◌==◌, arith, not,
}
use kemory_community.Gatekeeper.Schema.{
  PermissionRule, Vault, Env, EvaluationRequest, PermissionRuleCreate, PermissionRuleUpdate, Error,
  Result, ok, err,
}
use kemory_community.Gatekeeper.Scope.{validate_scope, validate_action}
use kemory_community.Gatekeeper.Rules.{
  create_rule, update_rule, delete_rule, get_rule_for_user, replace_rule, remove_rule, assign_scope,
  assign_rest, is_rule, names_agent, accepts,
}
use kemory_community.Gatekeeper.Consent.{resolve_consent, settle}
use kemory_community.Gatekeeper.Evaluate.{evaluate, fetch_rules, text_or_empty}
use kemory_community.Gatekeeper.Effects.{decide-Wrote}
use kemory_community.Gatekeeper.Reach.{
  Step, created, updated, deleted, evaluated, resolved, Reach, here, next,
}

-- The scope and the action of the rule are recognised.
abbrev pub IsValid : PermissionRule → Type 0
IsValid r = (validate_scope r.scope ≡ true) × (validate_action r.action ≡ true)

abbrev pub AllValid : Vault → Type 0
AllValid db = All IsValid db.rules

Result-cases : {A : Type 0} (r : Result A) → ((a : A) × (r ≡ ok a)) ⊎ ((e : Error) × (r ≡ err e))
Result-cases (ok a) = inl (a, refl)
Result-cases (err e) = inr (e, refl)

create-AllValid :
    (env : Env) (user_id : ℕ) (request : PermissionRuleCreate) (org_id : Text) (new_id now : ℕ)
    (db : Vault)
    → AllValid db
    → AllValid (create_rule env user_id request org_id new_id now db).1
unfolding create_rule
create-AllValid env user_id request org_id new_id now db h = ground arith

All-replace :
    (rule_id user_id : ℕ) (f : PermissionRule → PermissionRule) (rs : List PermissionRule)
    → ((r : PermissionRule) → IsValid r → IsValid (f r))
    → All IsValid rs
    → All IsValid (replace_rule rule_id user_id f rs)
unfolding replace_rule
All-replace rule_id user_id f [] keeps h = tt
All-replace rule_id user_id f (r ∷ rs) keeps h =
    ground (arith, keeps r h.0, All-replace rule_id user_id f rs keeps h.1)

assign_scope-IsValid :
    (request : PermissionRuleUpdate) (r : PermissionRule)
    → accepts validate_scope request.scope ≡ true
    → IsValid r
    → IsValid (assign_scope request r)
unfolding assign_scope
assign_scope-IsValid request r ok_scope h = ground arith

assign_rest-IsValid :
    (request : PermissionRuleUpdate) (now : ℕ) (r : PermissionRule)
    → accepts validate_action request.action ≡ true
    → IsValid r
    → IsValid (assign_rest request now r)
unfolding assign_rest
assign_rest-IsValid request now r ok_action h = ground arith

-- The rows that `update_rule` leaves: those before it, or with the scope assigned, or with all.
update_rules :
    (rule_id user_id : ℕ) (request : PermissionRuleUpdate) (now : ℕ) (db : Vault)
    → let after = (update_rule rule_id user_id request now db).1.rules in
      let scoped = replace_rule rule_id user_id (assign_scope request) db.rules in
      (after ≡ db.rules)
      ⊎ ((accepts validate_scope request.scope ≡ true) × (after ≡ scoped))
      ⊎ ((accepts validate_scope request.scope ≡ true)
          × (accepts validate_action request.action ≡ true)
          × (after ≡ replace_rule rule_id user_id (assign_rest request now) scoped))
unfolding update_rule
update_rules rule_id user_id request now db =
    elim (Result-cases (get_rule_for_user rule_id user_id db)) [
      | inr (e, missing) ↦ inl (ground arith)
      | inl (r, found) ↦ elim (Bool-cases (accepts validate_scope request.scope)) [
        | inr bad ↦ inl (ground arith)
        | inl s ↦ elim (Bool-cases (accepts validate_action request.action)) [
          | inr bad ↦ inr (inl (s, ground arith))
          | inl a ↦ inr (inr (s, a, ground arith))
        ]
      ]
    ]

update-AllValid :
    (rule_id user_id : ℕ) (request : PermissionRuleUpdate) (now : ℕ) (db : Vault)
    → AllValid db
    → AllValid (update_rule rule_id user_id request now db).1
update-AllValid rule_id user_id request now db h =
    elim (update_rules rule_id user_id request now db) [
      | inl same ↦ rw same h
      | inr (inl (s, scoped)) ↦ rw scoped (
          All-replace rule_id user_id (assign_scope request) db.rules
            (λ r. assign_scope-IsValid request r s) h)
      | inr (inr (s, a, all)) ↦ rw all (
          All-replace rule_id user_id (assign_rest request now) _
            (λ r. assign_rest-IsValid request now r a)
            (All-replace rule_id user_id (assign_scope request) db.rules
              (λ r. assign_scope-IsValid request r s) h))
    ]

delete-AllValid :
    (rule_id user_id : ℕ) (db : Vault) → AllValid db → AllValid (delete_rule rule_id user_id db).1
unfolding delete_rule remove_rule
delete-AllValid rule_id user_id db h =
    ground (arith, All-keep IsValid (λ r. not (is_rule rule_id user_id r)) db.rules h)

rules-evaluate :
    (env : Env) (user_id : ℕ) (request : EvaluationRequest) (now new_id : ℕ) (db : Vault)
    → (evaluate env user_id request now new_id db).1.rules ≡ db.rules
unfolding evaluate
rules-evaluate env user_id request now new_id db =
    elim (Bool-cases (names_agent request.agent_id)) [
      | inr f ↦ ground arith
      | inl t ↦ elim (Option-cases (env.parse_uuid (text_or_empty request.agent_id))) [
        | inl bad ↦ ground arith
        | inr (a, e) ↦ ground (
          arith,
          (decide-Wrote env user_id request a now new_id db (fetch_rules env user_id db)).1,
        )
      ]
    ]

rules-resolve :
    (consent_id user_id : ℕ) (is_approved : Bool) (now : ℕ) (db : Vault)
    → (resolve_consent consent_id user_id is_approved now db).1.rules ≡ db.rules
unfolding resolve_consent settle
rules-resolve consent_id user_id is_approved now db = ground arith

Step-AllValid : (env : Env) {s t : Vault} → Step env s t → AllValid s → AllValid t
Step-AllValid env (created db user_id request org_id new_id now) h =
    create-AllValid env user_id request org_id new_id now db h
Step-AllValid env (updated db rule_id user_id request now) h =
    update-AllValid rule_id user_id request now db h
Step-AllValid env (deleted db rule_id user_id) h = delete-AllValid rule_id user_id db h
Step-AllValid env (evaluated db user_id request now new_id fresh) h =
    rw (rules-evaluate env user_id request now new_id db) h
Step-AllValid env (resolved db j v is_approved now) h = rw (rules-resolve j v is_approved now db) h

-- From tables whose rules all have a recognised scope and action, every sequence of operations,
-- failing ones included, leads to such tables.
pub Reach-AllValid : (env : Env) {start t : Vault} → AllValid start → Reach env start t → AllValid t
Reach-AllValid env h here = h
Reach-AllValid env h (next r s) = Step-AllValid env s (Reach-AllValid env h r)

-- The rules of a user.
abbrev pub owned_by : ℕ → PermissionRule → Bool
owned_by user_id r = r.user_id == user_id

keep-replace :
    (rule_id user_id other : ℕ) (f : PermissionRule → PermissionRule) (rs : List PermissionRule)
    → user_id ≢ other
    → ((r : PermissionRule) → (f r).user_id ≡ r.user_id)
    → keep (owned_by other) (replace_rule rule_id user_id f rs) ≡ keep (owned_by other) rs
unfolding replace_rule
keep-replace rule_id user_id other f [] ne same = refl
keep-replace rule_id user_id other f (r ∷ rs) ne same =
    ground (arith, keep-replace rule_id user_id other f rs ne same, same r)

keep-remove :
    (rule_id user_id other : ℕ) (rs : List PermissionRule)
    → user_id ≢ other
    → keep (owned_by other) (remove_rule rule_id user_id rs) ≡ keep (owned_by other) rs
unfolding remove_rule is_rule
keep-remove rule_id user_id other [] ne = refl
keep-remove rule_id user_id other (r ∷ rs) ne =
    ground (arith, keep-remove rule_id user_id other rs ne)

keep-create :
    (env : Env) (user_id other : ℕ) (request : PermissionRuleCreate) (org_id : Text)
    (new_id now : ℕ) (db : Vault)
    → user_id ≢ other
    → keep (owned_by other) (create_rule env user_id request org_id new_id now db).1.rules
      ≡ keep (owned_by other) db.rules
unfolding create_rule
keep-create env user_id other request org_id new_id now db ne = ground arith

keep-update :
    (rule_id user_id other now : ℕ) (request : PermissionRuleUpdate) (db : Vault)
    → user_id ≢ other
    → keep (owned_by other) (update_rule rule_id user_id request now db).1.rules
      ≡ keep (owned_by other) db.rules
keep-update rule_id user_id other now request db ne =
    let scoped =
      keep-replace rule_id user_id other (assign_scope request) db.rules ne
        (unfold assign_scope in λ r. refl) in
    elim (update_rules rule_id user_id request now db) [
      | inl same ↦ rw same
      | inr (inl (s, e)) ↦ rw e scoped
      | inr (inr (s, a, e)) ↦ rw e (
          keep-replace rule_id user_id other (assign_rest request now) _ ne
            (unfold assign_rest in λ r. refl)
          ∙ scoped)
    ]

keep-delete :
    (rule_id user_id other : ℕ) (db : Vault)
    → user_id ≢ other
    → keep (owned_by other) (delete_rule rule_id user_id db).1.rules
      ≡ keep (owned_by other) db.rules
unfolding delete_rule
keep-delete rule_id user_id other db ne =
    ground (arith, keep-remove rule_id user_id other db.rules ne)

-- Creating, updating and deleting a rule as one user, whether it succeeds or fails, leaves the
-- rules of every other user as they are.
pub rules_isolated :
    (env : Env) (user_id other rule_id new_id now : ℕ) (create : PermissionRuleCreate)
    (update : PermissionRuleUpdate) (org_id : Text) (db : Vault)
    → user_id ≢ other
    → (keep (owned_by other) (create_rule env user_id create org_id new_id now db).1.rules
        ≡ keep (owned_by other) db.rules)
      × (keep (owned_by other) (update_rule rule_id user_id update now db).1.rules
          ≡ keep (owned_by other) db.rules)
      × (keep (owned_by other) (delete_rule rule_id user_id db).1.rules
          ≡ keep (owned_by other) db.rules)
rules_isolated env user_id other rule_id new_id now create update org_id db ne = (
  keep-create env user_id other create org_id new_id now db ne,
  keep-update rule_id user_id other now update db ne,
  keep-delete rule_id user_id other db ne,
)
