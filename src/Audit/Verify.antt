-- ===== src/Audit/Verify.antt =====
-- `verify_audit_chain` of backend/services/audit_service.py.
use kemory_community.Prelude.{
  ℕ, ◌+◌, Text, text, text_eq, List, [], ◌∷◌, ◌++◌, take, length, if◌then◌else◌,
}
use kemory_community.Audit.Schema.{AuditLog, Env}
use kemory_community.Audit.Log.{or_else, compute_hash_chain, owned}

pub record ChainError : Type 0 where
  pub index : ℕ
  pub audit_id : ℕ
  pub expected_hash : Text
  pub actual_hash : Text

pub data ChainStatus : Type 0 where
  empty valid tampered : ChainStatus

pub record ChainReport : Type 0 where
  pub status : ChainStatus
  pub verified : ℕ
  pub errors : List ChainError

-- The hash that a row should have after a row with the hash `previous_hash`.
unfoldable pub expected_hash : Env → Text → AuditLog → Text
expected_hash env previous_hash log =
    compute_hash_chain env previous_hash log.action (or_else log.resource_id (text "none"))
      (env.isoformat log.created_at)

abbrev pub shorten : Text → Text
shorten h = take 16 h ++ text "..."

unfoldable pub check_row : Env → Text → ℕ → AuditLog → List ChainError
check_row env previous_hash i log =
    let expected = expected_hash env previous_hash log in
    if text_eq log.hash_chain expected
    then []
    else record {
      index = i;
      audit_id = log.audit_id;
      expected_hash = shorten expected;
      actual_hash = shorten log.hash_chain;
    }
      ∷ []

-- The loop over the rows.
unfoldable pub check_rows : Env → Text → ℕ → List AuditLog → List ChainError
check_rows env previous_hash i [] = []
check_rows env previous_hash i (log ∷ logs) =
    check_row env previous_hash i log ++ check_rows env log.hash_chain (i + 1) logs

abbrev pub verdict : List ChainError → ChainStatus
verdict [] = valid
verdict (e ∷ es) = tampered

unfoldable pub report : Env → List AuditLog → ChainReport
report env [] = record { status = empty; verified = 0; errors = [] }
report env (log ∷ logs) =
    let errors = check_rows env (text "GENESIS") 0 (log ∷ logs) in
    record { status = verdict errors; verified = length (log ∷ logs); errors = errors }

unfoldable pub verify_audit_chain : Env → ℕ → ℕ → List AuditLog → ChainReport
unfolding report
verify_audit_chain env user_id limit rows =
    report env (take limit (env.oldest_first (owned user_id rows)))
