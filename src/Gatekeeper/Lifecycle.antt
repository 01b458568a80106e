-- ===== src/Gatekeeper/Lifecycle.antt =====
-- The life of a consent request under all operations of backend/services/gatekeeper_service.py.
use kemory_community.Prelude.{
  ℕ, ◌≤◌, ◌≡◌, ◌≢◌, refl, ap, ◌∙◌, Bool, true, none, some, List, [], ◌∷◌, keep, Option-cases, inl,
  inr, ◌⊎◌, if◌then◌else◌, ◌==◌, arith, ltb, ◌&&◌,
}
use kemory_community.Gatekeeper.Schema.{
  ConsentRequest, GatekeeperDecision, Vault, Status, pending, approved, denied, timeout, ok, err,
  already_resolved,
}
use kemory_community.Gatekeeper.Consent.{
  is_consent, find_consent, set_status, settle, resolve_consent, first, write,
}

-- The row under a key after a write to a key.
pub first-set_status :
    (i u j v : ℕ) (st : Status) (now : ℕ) (cs : List ConsentRequest)
    → first (keep (is_consent j v) (set_status i u st now cs))
      ≡ (elim (first (keep (is_consent j v) cs)) [
        | none ↦ none
        | some c ↦
            if (i == j) && (u == v)
            then some (record c { status = st; resolved_at = some now })
            else some c
      ])
unfolding set_status is_consent
first-set_status i u j v st now [] = refl
first-set_status i u j v st now (c ∷ cs) = ground (arith, first-set_status i u j v st now cs)

Status-cases : (st : Status) → (st ≡ pending) ⊎ (st ≢ pending)
Status-cases pending = inl refl
Status-cases approved = inr (λ e. cc)
Status-cases denied = inr (λ e. cc)
Status-cases timeout = inr (λ e. cc)

module _ (consent_id user_id : ℕ) (is_approved : Bool) (now : ℕ) (db : Vault) where
  -- A resolved request grants access only if it was pending, the user approved, and its time was
  -- not over.
  pub resolve_allowed :
      (d : GatekeeperDecision) (c : ConsentRequest)
      → find_consent consent_id user_id db ≡ some c
      → (resolve_consent consent_id user_id is_approved now db).0 ≡ ok d
      → d.allowed ≡ true
      → (c.status ≡ pending) × (is_approved ≡ true) × (now ≤ c.expires_at)
  unfolding resolve_consent settle
  resolve_allowed d c found result granted = ground arith

  -- The status that a resolution writes.
  abbrev pub final : ConsentRequest → Status
  final c = if ltb c.expires_at now then timeout else if is_approved then approved else denied

  final-ne-pending : (c : ConsentRequest) → final c ≢ pending
  final-ne-pending c e = ground arith

  resolve_writes :
      (d : GatekeeperDecision) (db' : Vault)
      → resolve_consent consent_id user_id is_approved now db ≡ (ok d, db')
      → (c : ConsentRequest) × (find_consent consent_id user_id db ≡ some c)
        × (c.status ≡ pending)
        × (db' ≡ write consent_id user_id (final c) now db)
  unfolding resolve_consent settle
  resolve_writes d db' result = elim (Option-cases (find_consent consent_id user_id db)) [
    | inl missing ↦ absurd (ground arith)
    | inr (c, found) ↦ (c, found, ground arith, ground arith)
  ]

  pub resolve_db :
      ((resolve_consent consent_id user_id is_approved now db).1 ≡ db)
      ⊎ ((c : ConsentRequest) × (find_consent consent_id user_id db ≡ some c)
          × (c.status ≡ pending)
          × ((resolve_consent consent_id user_id is_approved now db).1
              ≡ write consent_id user_id (final c) now db))
  unfolding resolve_consent settle
  resolve_db = elim (Option-cases (find_consent consent_id user_id db)) [
    | inl missing ↦ inl (ground arith)
    | inr (c, found) ↦ elim (Status-cases c.status) [
      | inl waits ↦ inr (c, found, waits, ground arith)
      | inr settled ↦ inl (ground arith)
    ]
  ]

  find-write_self :
      (st : Status) (c : ConsentRequest)
      → find_consent consent_id user_id db ≡ some c
      → find_consent consent_id user_id (write consent_id user_id st now db)
        ≡ some (record c { status = st; resolved_at = some now })
  unfolding find_consent
  find-write_self st c found =
      rw (first-set_status consent_id user_id consent_id user_id st now db.consents, found)
        (ground arith)

  find_after :
      (d : GatekeeperDecision) (db' : Vault)
      → resolve_consent consent_id user_id is_approved now db ≡ (ok d, db')
      → (c : ConsentRequest) × (c.status ≢ pending) × (find_consent consent_id user_id db' ≡ some c)
  find_after d db' result =
      let (c, found, was, same) = resolve_writes d db' result in
      (
        record c { status = final c; resolved_at = some now },
        final-ne-pending c,
        ap (find_consent consent_id user_id) same ∙ find-write_self (final c) c found,
      )

refused :
    (consent_id user_id : ℕ) (again : Bool) (later : ℕ) (db : Vault) (c : ConsentRequest)
    → find_consent consent_id user_id db ≡ some c
    → c.status ≢ pending
    → resolve_consent consent_id user_id again later db ≡ (err (already_resolved c.status), db)
unfolding resolve_consent
refused consent_id user_id again later db c found settled = ground arith

-- A resolution that returns a decision leaves a final status: a second resolution, with any answer
-- and at any time, is refused with that status and changes nothing.
pub resolve_once :
    (consent_id user_id : ℕ) (is_approved : Bool) (now : ℕ) (db : Vault) (d : GatekeeperDecision)
    (db' : Vault) (again : Bool) (later : ℕ)
    → resolve_consent consent_id user_id is_approved now db ≡ (ok d, db')
    → (st : Status) × (st ≢ pending)
      × (resolve_consent consent_id user_id again later db' ≡ (err (already_resolved st), db'))
resolve_once consent_id user_id is_approved now db d db' again later result =
    let (c, settled, found) = find_after consent_id user_id is_approved now db d db' result in
    (c.status, settled, refused consent_id user_id again later db' c found settled)
