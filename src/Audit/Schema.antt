-- ===== src/Audit/Schema.antt =====
-- The rows and requests of the audit log: backend/models/audit.py, and the parameters of the
-- functions of backend/services/audit_service.py.
use kemory_community.Prelude.{ℕ, ◌≡◌, Text, Bool, true, ◌&&◌, ◌||◌, Option, List, length, All, leb}
use kemory_community.Prelude.Order.{Sorted, Shuffled}

pub record AuditLog : Type 0 where
  pub audit_id : ℕ
  pub user_id : ℕ
  pub agent_id : Option ℕ
  pub org_id : Option Text
  pub team_id : Option Text
  pub action : Text
  pub resource_type : Text
  pub resource_id : Option Text
  pub namespace : Option Text
  pub outcome : Text
  pub details : Text
  pub ip_address : Option Text
  pub hash_chain : Text
  pub created_at : ℕ

-- The arguments of `log_audit_event`. `details` is the text of its JSON, `{}` for None.
pub record AuditEvent : Type 0 where
  pub user_id : ℕ
  pub agent_id : Option ℕ
  pub action : Text
  pub resource_type : Text
  pub resource_id : Option Text
  pub outcome : Text
  pub namespace : Option Text
  pub details : Text
  pub ip_address : Option Text
  pub org_id : Option Text
  pub team_id : Option Text

-- What `current_org_id` and `current_team_ids` of backend/core/tenancy.py answer.
pub record TenantScope : Type 0 where
  pub org_id : Text
  pub team_ids : List Text

-- A hexadecimal digit in lower case.
abbrev pub is_hex : ℕ → Bool
is_hex c = leb b'0' c && leb c b'9' || leb b'a' c && leb c b'f'

abbrev pub older : AuditLog → AuditLog → Bool
older a b = leb a.created_at b.created_at

abbrev pub newer : AuditLog → AuditLog → Bool
newer a b = leb b.created_at a.created_at

-- The library and the database: the SHA-256 of a text as 64 hexadecimal digits, a time as text, the
-- parsers that answer `none` where they raise, and ORDER BY created_at, which returns the rows that
-- it is given in some order that the times allow.
pub record Env : Type 0 where
  pub sha256_hex : Text → Text
  pub length-sha256_hex : (t : Text) → length (sha256_hex t) ≡ 64
  pub sha256_hex-digits : (t : Text) → All (λ c. is_hex c ≡ true) (sha256_hex t)
  pub isoformat : ℕ → Text
  pub parse_uuid : Text → Option ℕ
  pub fromisoformat : Text → Option ℕ
  pub oldest_first : List AuditLog → List AuditLog
  pub oldest_first-Shuffled : (rows : List AuditLog) → Shuffled (oldest_first rows) rows
  pub oldest_first-Sorted : (rows : List AuditLog) → Sorted older (oldest_first rows)
  pub latest_first : List AuditLog → List AuditLog
  pub latest_first-Shuffled : (rows : List AuditLog) → Shuffled (latest_first rows) rows
  pub latest_first-Sorted : (rows : List AuditLog) → Sorted newer (latest_first rows)
