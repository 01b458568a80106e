-- ===== src/Gatekeeper/Reach.antt =====
-- All operations of backend/services/gatekeeper_service.py as steps of one relation, with the
-- invariants that hold in every state that they reach.
use kemory_community.Prelude.{
  ℕ, ◌≡◌, ◌≢◌, refl, ap, ◌∙◌, Bool, some, List, [], ◌∷◌, keep, Text, All, Bool-cases, Option-cases,
  inl, inr, ◌⊎◌, ◌==◌, arith, ◌&&◌,
}
use kemory_community.Gatekeeper.Schema.{
  ConsentRequest, Vault, Env, Status, pending, EvaluationRequest, PermissionRuleCreate,
  PermissionRuleUpdate,
}
use kemory_community.Gatekeeper.Rules.{create_rule, update_rule, delete_rule, names_agent}
use kemory_community.Gatekeeper.Consent.{is_consent, find_consent, resolve_consent, first, write}
use kemory_community.Gatekeeper.Evaluate.{evaluate, new_consent, fetch_rules, text_or_empty}
use kemory_community.Gatekeeper.Lifecycle.{first-set_status, resolve_db, final}
use kemory_community.Gatekeeper.Effects.{decide-Wrote}

-- No consent request has the identifier yet, as is so of a UUID that `uuid4` draws.
abbrev pub Fresh : ℕ → Vault → Type 0
Fresh new_id db = All (λ c. c.consent_id ≢ new_id) db.consents

pub data Step (env : Env) : Vault → Vault → Type 0 where
  created :
      (db : Vault) (user_id : ℕ) (request : PermissionRuleCreate) (org_id : Text) (new_id now : ℕ)
      → Step env db (create_rule env user_id request org_id new_id now db).1
  updated :
      (db : Vault) (rule_id user_id : ℕ) (request : PermissionRuleUpdate) (now : ℕ)
      → Step env db (update_rule rule_id user_id request now db).1
  deleted : (db : Vault) (rule_id user_id : ℕ) → Step env db (delete_rule rule_id user_id db).1
  evaluated :
      (db : Vault) (user_id : ℕ) (request : EvaluationRequest) (now new_id : ℕ)
      → Fresh new_id db
      → Step env db (evaluate env user_id request now new_id db).1
  resolved :
      (db : Vault) (consent_id user_id : ℕ) (is_approved : Bool) (now : ℕ)
      → Step env db (resolve_consent consent_id user_id is_approved now db).1

pub data Reach (env : Env) (start : Vault) : Vault → Type 0 where
  here : Reach env start start
  next : {s t : Vault} → Reach env start s → Step env s t → Reach env start t

consents-create :
    (env : Env) (user_id : ℕ) (request : PermissionRuleCreate) (org_id : Text) (new_id now : ℕ)
    (db : Vault)
    → (create_rule env user_id request org_id new_id now db).1.consents ≡ db.consents
unfolding create_rule
consents-create env user_id request org_id new_id now db = ground arith

consents-update :
    (rule_id user_id : ℕ) (request : PermissionRuleUpdate) (now : ℕ) (db : Vault)
    → (update_rule rule_id user_id request now db).1.consents ≡ db.consents
unfolding update_rule
consents-update rule_id user_id request now db = ground arith

consents-delete :
    (rule_id user_id : ℕ) (db : Vault) → (delete_rule rule_id user_id db).1.consents ≡ db.consents
unfolding delete_rule
consents-delete rule_id user_id db = ground arith

consents-evaluate :
    (env : Env) (user_id : ℕ) (request : EvaluationRequest) (now new_id : ℕ) (db : Vault)
    → ((evaluate env user_id request now new_id db).1.consents ≡ db.consents)
      ⊎ ((c : ConsentRequest) × (c.consent_id ≡ new_id)
          × ((evaluate env user_id request now new_id db).1.consents ≡ c ∷ db.consents))
unfolding evaluate
consents-evaluate env user_id request now new_id db =
    elim (Bool-cases (names_agent request.agent_id)) [
      | inr f ↦ inl (ground arith)
      | inl t ↦ elim (Option-cases (env.parse_uuid (text_or_empty request.agent_id))) [
        | inl bad ↦ inl (ground arith)
        | inr (a, e) ↦
            elim (decide-Wrote env user_id request a now new_id db (fetch_rules env user_id db)).0 [
              | inl (n, agents, consents) ↦ inl (rw (t, e) consents)
              | inr (r, m, app, j, d, consents, agents) ↦
                  inr (new_consent user_id request a now new_id r, refl, rw (t, e) consents)
            ]
      ]
    ]

-- The request under the key is settled, as `c`.
abbrev pub IsSettled : ℕ → ℕ → ConsentRequest → Vault → Type 0
IsSettled i u c db = (find_consent i u db ≡ some c) × (c.status ≢ pending)

find_of_consents :
    (i u : ℕ) (db db' : Vault)
    → db'.consents ≡ db.consents
    → find_consent i u db' ≡ find_consent i u db
unfolding find_consent
find_of_consents i u db db' e = ap (λ cs. first (keep (is_consent i u) cs)) e

-- A fresh request stands under another key than one that is found.
first_fresh :
    (i u new_id : ℕ) (cs : List ConsentRequest) (c : ConsentRequest)
    → All (λ x. x.consent_id ≢ new_id) cs
    → first (keep (is_consent i u) cs) ≡ some c
    → i ≢ new_id
unfolding is_consent
first_fresh i u new_id [] c fresh e = cc
first_fresh i u new_id (x ∷ xs) c fresh e = elim (Bool-cases (is_consent i u x)) [
  | inl t ↦ ground arith
  | inr f ↦ first_fresh i u new_id xs c fresh.1 (rw f at e)
]

find-Fresh :
    (i u new_id : ℕ) (db : Vault) (c : ConsentRequest)
    → Fresh new_id db
    → find_consent i u db ≡ some c
    → i ≢ new_id
unfolding find_consent
find-Fresh i u new_id db c fresh found = first_fresh i u new_id db.consents c fresh found

find_cons :
    (i u : ℕ) (c : ConsentRequest) (db db' : Vault)
    → db'.consents ≡ c ∷ db.consents
    → i ≢ c.consent_id
    → find_consent i u db' ≡ find_consent i u db
unfolding find_consent is_consent
find_cons i u c db db' e ne = rw e (ground arith)

-- A write under the key of a pending request is not under the key of a settled one.
find-write_settled :
    (i u : ℕ) (c : ConsentRequest) (db : Vault) (j v : ℕ) (st : Status) (now : ℕ)
    (x : ConsentRequest)
    → find_consent i u db ≡ some c
    → c.status ≢ pending
    → find_consent j v db ≡ some x
    → x.status ≡ pending
    → find_consent i u (write j v st now db) ≡ some c
unfolding find_consent
find-write_settled i u c db j v st now x found settled found' waits =
    rw (first-set_status j v i u st now db.consents, found)
      (elim (Bool-cases ((j == i) && (v == u))) [
        | inr other ↦ rw other
        | inl key ↦ absurd (settled (same_key (ground arith) (ground arith)))
      ])
  where
    same_key : j ≡ i → v ≡ u → c.status ≡ pending
    same_key ej ev = cc

resolve_keeps :
    (i u : ℕ) (c : ConsentRequest) (db : Vault) (j v : ℕ) (is_approved : Bool) (now : ℕ)
    → IsSettled i u c db
    → find_consent i u (resolve_consent j v is_approved now db).1 ≡ some c
resolve_keeps i u c db j v is_approved now (found, settled) =
    elim (resolve_db j v is_approved now db) [
      | inl same ↦ ap (find_consent i u) same ∙ found
      | inr (x, found', waits, written) ↦
          ap (find_consent i u) written
          ∙ find-write_settled i u c db j v (final j v is_approved now db x) now x found settled
              found' waits
    ]

Step-IsSettled :
    (env : Env) (i u : ℕ) (c : ConsentRequest) {s t : Vault}
    → Step env s t
    → IsSettled i u c s
    → IsSettled i u c t
Step-IsSettled env i u c (created db user_id request org_id new_id now) h = (
  find_of_consents i u db _ (consents-create env user_id request org_id new_id now db) ∙ h.0,
  h.1,
)
Step-IsSettled env i u c (updated db rule_id user_id request now) h =
    (find_of_consents i u db _ (consents-update rule_id user_id request now db) ∙ h.0, h.1)
Step-IsSettled env i u c (deleted db rule_id user_id) h =
    (find_of_consents i u db _ (consents-delete rule_id user_id db) ∙ h.0, h.1)
Step-IsSettled env i u c (evaluated db user_id request now new_id fresh) h =
    elim (consents-evaluate env user_id request now new_id db) [
      | inl same ↦ (find_of_consents i u db _ same ∙ h.0, h.1)
      | inr (n, id, more) ↦ (
        find_cons i u n db _ more (λ e. find-Fresh i u new_id db c fresh h.0 (e ∙ id)) ∙ h.0,
        h.1,
      )
    ]
Step-IsSettled env i u c (resolved db j v is_approved now) h =
    (resolve_keeps i u c db j v is_approved now h, h.1)

-- Once a consent request is settled, no sequence of operations changes it.
pub Reach-IsSettled :
    (env : Env) (i u : ℕ) (c : ConsentRequest) {start t : Vault}
    → find_consent i u start ≡ some c
    → c.status ≢ pending
    → Reach env start t
    → find_consent i u t ≡ some c
Reach-IsSettled env i u c found settled here = found
Reach-IsSettled env i u c found settled (next r s) =
    (Step-IsSettled env i u c s (Reach-IsSettled env i u c found settled r, settled)).0
