-- ===== src/Audit/Logged.antt =====
-- Logging and then verifying: a log that was only written by `log_audit_event` is valid.
use kemory_community.Prelude.{
  ℕ, ◌<◌, ◌≡◌, refl, sym, ◌∙◌, Text, text, List, [], ◌∷◌, ◌++◌, All, keep, take, length,
  keep-append, Bool-cases, ==_iff, ◌==◌, inl, inr, if◌then◌else◌, arith,
}
use kemory_community.Prelude.Order.{Sorted-unique}
use kemory_community.Audit.Schema.{AuditLog, AuditEvent, TenantScope, Env, older}
use kemory_community.Audit.Log.{owned, previous_hash, new_row, log_audit_event}
use kemory_community.Audit.Verify.{expected_hash, ChainStatus, report, verify_audit_chain}
use kemory_community.Audit.Chain.{
  Linked, check_rows-Linked, Linked-append, Linked-take, Strict-append, Chained, previous_hash-last,
}

-- The tables that logging alone can produce, where each row of a user is newer than the user's
-- earlier ones.
pub data Logged (env : Env) : List AuditLog → Type 0 where
  nothing : Logged env []
  logged :
      {rows : List AuditLog} (e : AuditEvent) (scope : TenantScope) (new_id now : ℕ)
      → Logged env rows
      → All (λ r. r.created_at < now) (owned e.user_id rows)
      → Logged env (log_audit_event env e scope new_id now rows).1

owned-log :
    (env : Env) (user_id : ℕ) (e : AuditEvent) (scope : TenantScope) (new_id now : ℕ)
    (rows : List AuditLog)
    → owned user_id (log_audit_event env e scope new_id now rows).1 ≡ (
        if e.user_id == user_id
        then owned user_id rows ++ new_row env e scope new_id now rows ∷ []
        else owned user_id rows)
unfolding log_audit_event new_row
owned-log env user_id e scope new_id now rows =
    let row = new_row env e scope new_id now rows in
    keep-append (λ r. r.user_id == user_id) rows (row ∷ [])
    ∙ last_kept (owned user_id rows) row refl
  where
    last_kept :
        (rs : List AuditLog) (row : AuditLog)
        → row.user_id ≡ e.user_id
        → rs ++ keep (λ r. r.user_id == user_id) (row ∷ [])
          ≡ (if e.user_id == user_id then rs ++ row ∷ [] else rs)
    last_kept [] row same = ground arith
    last_kept (r ∷ rs) row same = ground (arith, last_kept rs row same)

new_row-hash :
    (env : Env) (user_id : ℕ) (e : AuditEvent) (scope : TenantScope) (new_id now : ℕ)
    (rows : List AuditLog) (p : Text)
    → e.user_id ≡ user_id
    → previous_hash env user_id rows ≡ p
    → (new_row env e scope new_id now rows).hash_chain
      ≡ expected_hash env p (new_row env e scope new_id now rows)
unfolding new_row expected_hash
new_row-hash env user_id e scope new_id now rows p same h = rw (same, h) refl

late_rows :
    (env : Env) (user_id : ℕ) (e : AuditEvent) (scope : TenantScope) (new_id now : ℕ)
    (rows : List AuditLog)
    → e.user_id ≡ user_id
    → All (λ r. r.created_at < now) (owned e.user_id rows)
    → All
        (λ r. r.created_at < (new_row env e scope new_id now rows).created_at)
        (owned user_id rows)
unfolding new_row
late_rows env user_id e scope new_id now rows same late = rw (sym same) late

log-Chained :
    (env : Env) (user_id : ℕ) (e : AuditEvent) (scope : TenantScope) (new_id now : ℕ)
    (rows : List AuditLog)
    → ((u : ℕ) → Chained env u rows)
    → All (λ r. r.created_at < now) (owned e.user_id rows)
    → Chained env user_id (log_audit_event env e scope new_id now rows).1
log-Chained env user_id e scope new_id now rows h late =
    let row = new_row env e scope new_id now rows in
    elim (Bool-cases (e.user_id == user_id)) [
      | inl t ↦
          let same = (==_iff e.user_id user_id).0 t in
          rw (owned-log env user_id e scope new_id now rows, t)
            (
              Linked-append env (text "GENESIS") (owned user_id rows) row (h user_id).0 (
                  new_row-hash env user_id e scope new_id now rows _ same
                    (previous_hash-last env user_id rows (h user_id))),
              Strict-append (owned user_id rows) row (h user_id).1
                  (late_rows env user_id e scope new_id now rows same late),
            )
      | inr f ↦ rw (owned-log env user_id e scope new_id now rows, f) (h user_id)
    ]

Logged-Chained :
    (env : Env) {rows : List AuditLog} → Logged env rows → (user_id : ℕ) → Chained env user_id rows
Logged-Chained env nothing user_id = (tt, tt)
Logged-Chained env (logged {rows = rows} e scope new_id now l late) user_id =
    log-Chained env user_id e scope new_id now rows (Logged-Chained env l) late

abbrev pub clean_status : List AuditLog → ChainStatus
clean_status [] = ChainStatus.empty
clean_status (r ∷ rs) = ChainStatus.valid

report-Linked :
    (env : Env) (rs : List AuditLog)
    → Linked env (text "GENESIS") rs
    → ((report env rs).errors ≡ [])
      × ((report env rs).verified ≡ length rs)
      × ((report env rs).status ≡ clean_status rs)
unfolding report
report-Linked env [] h = (refl, refl, refl)
report-Linked env (r ∷ rs) h =
    let clean = (check_rows-Linked env (text "GENESIS") 0 (r ∷ rs)).1 h in
    (clean, refl, rw clean refl)

-- A log that only `log_audit_event` has written, each row of a user at a later time than the
-- user's rows before it, verifies for every user and every limit: no errors, and the status is
-- `valid`, or `empty` where there is nothing to check.
pub verify-Logged :
    (env : Env) (user_id limit : ℕ) (rows : List AuditLog)
    → Logged env rows
    → ((verify_audit_chain env user_id limit rows).errors ≡ [])
      × ((verify_audit_chain env user_id limit rows).verified
          ≡ length (take limit (owned user_id rows)))
      × ((verify_audit_chain env user_id limit rows).status
          ≡ clean_status (take limit (owned user_id rows)))
unfolding verify_audit_chain
verify-Logged env user_id limit rows l =
    let (linked, strict) = Logged-Chained env l user_id in
    let same =
      Sorted-unique older (env.oldest_first-Shuffled (owned user_id rows))
        (env.oldest_first-Sorted (owned user_id rows)) strict in
    rw same (
      report-Linked env (take limit (owned user_id rows))
        (Linked-take env (text "GENESIS") limit (owned user_id rows) linked))
