-- ===== src/Gatekeeper/Consent.antt =====
-- `resolve_consent` of backend/services/gatekeeper_service.py.
use kemory_community.Prelude.{
  ℕ, Bool, true, false, ◌&&◌, Option, none, some, List, [], ◌∷◌, keep, ltb, ◌==◌, if◌then◌else◌,
}
use kemory_community.Gatekeeper.Schema.{
  ConsentRequest, GatekeeperDecision, Vault, Status, pending, approved, denied, timeout, Outcome,
  jit_approved, jit_denied, jit_timeout, Reason, expired, approved_by_user, denied_by_user,
  consent_not_found, already_resolved, Result, ok, err,
}

-- The WHERE of the query.
unfoldable pub is_consent : ℕ → ℕ → ConsentRequest → Bool
is_consent consent_id user_id c = c.consent_id == consent_id && c.user_id == user_id

abbrev pub first : List ConsentRequest → Option ConsentRequest
first [] = none
first (c ∷ cs) = some c

unfoldable pub find_consent : ℕ → ℕ → Vault → Option ConsentRequest
unfolding is_consent
find_consent consent_id user_id db = first (keep (is_consent consent_id user_id) db.consents)

-- `consent.status = status; consent.resolved_at = now`
unfoldable pub set_status : ℕ → ℕ → Status → ℕ → List ConsentRequest → List ConsentRequest
unfolding is_consent
set_status consent_id user_id status now [] = []
set_status consent_id user_id status now (c ∷ cs) =
    (if is_consent consent_id user_id c
      then record c { status = status; resolved_at = some now }
      else c)
    ∷ set_status consent_id user_id status now cs

abbrev pub settled : Bool → Outcome → Reason → ℕ → GatekeeperDecision
settled allowed outcome reason consent_id = record {
  allowed = allowed;
  outcome = outcome;
  matched_rule_id = none;
  reason = reason;
  consent_id = some consent_id;
}

abbrev pub write : ℕ → ℕ → Status → ℕ → Vault → Vault
write consent_id user_id status now db = record db {
  consents = set_status consent_id user_id status now db.consents;
}

-- The body below the status test.
unfoldable pub settle :
    ℕ → ℕ → Bool → ℕ → Vault → ConsentRequest → Result GatekeeperDecision × Vault
unfolding set_status
settle consent_id user_id is_approved now db consent =
    if ltb consent.expires_at now
    then (
      ok (settled false jit_timeout expired consent_id),
      write consent_id user_id timeout now db,
    )
    else if is_approved
    then (
      ok (settled true jit_approved approved_by_user consent_id),
      write consent_id user_id approved now db,
    )
    else (
      ok (settled false jit_denied denied_by_user consent_id),
      write consent_id user_id denied now db,
    )

abbrev resolve_status :
    ℕ → ℕ → Bool → ℕ → Vault → ConsentRequest → Status → Result GatekeeperDecision × Vault
resolve_status consent_id user_id is_approved now db consent pending =
    settle consent_id user_id is_approved now db consent
resolve_status consent_id user_id is_approved now db consent status =
    (err (already_resolved status), db)

abbrev resolve_found :
    ℕ → ℕ → Bool → ℕ → Vault → Option ConsentRequest → Result GatekeeperDecision × Vault
resolve_found consent_id user_id is_approved now db none = (err consent_not_found, db)
resolve_found consent_id user_id is_approved now db (some consent) =
    resolve_status consent_id user_id is_approved now db consent consent.status

unfoldable pub resolve_consent : ℕ → ℕ → Bool → ℕ → Vault → Result GatekeeperDecision × Vault
unfolding settle
resolve_consent consent_id user_id is_approved now db =
    resolve_found consent_id user_id is_approved now db (find_consent consent_id user_id db)
