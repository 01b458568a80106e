-- ===== src/Tests/Audit.antt =====
-- Tests of the audit log.
use kemory_community.Prelude.{
  ℕ, ◌≡◌, refl, ◌⊎◌, ◌↔◌, ◌≤◌, Text, text, text_eq, true, false, none, some, List, [], ◌∷◌, All, In,
  map, length, take, leb, arith,
}
use kemory_community.Prelude.Order.{Sorted, sort, place, sort-Shuffled, sort-Sorted}
use kemory_community.Audit.Schema.{AuditLog, AuditEvent, TenantScope, Env, older, newer, is_hex}
use kemory_community.Audit.Log.{compute_hash_chain, owned, log_audit_event}
use kemory_community.Audit.Query.{
  AuditQueryRequest, AuditQueryResponse, query_audit_logs, page, is_selected,
}
use kemory_community.Audit.Limits.{rate_limits, check_rate_limit, validate_write}
use kemory_community.Audit.Verify.{check_row, expected_hash, check_rows, report, verify_audit_chain}
use kemory_community.Audit.Logged.{Logged, clean_status, verify-Logged}
use kemory_community.Audit.Tamper.{Collision, signed, history_bound, IsUnsigned, tamper_unnoticed}
use kemory_community.Audit.Admission.{Guarded, Guarded-count, Within, validate_write_iff, query_own}

abbrev zeros : Text
zeros = text "0000000000000000000000000000000000000000000000000000000000000000"

pub zeros-digits : All (λ c. is_hex c ≡ true) zeros
zeros-digits = ground arith

leb_trans : (a b c : ℕ) → leb a b ≡ true → leb b c ≡ true → leb a c ≡ true
leb_trans a b c h k = ground arith

leb_total : (a b : ℕ) → leb a b ≡ false → leb b a ≡ true
leb_total a b h = ground arith

pub sample_oldest : (rows : List AuditLog) → Sorted older (sort older rows)
sample_oldest rows =
    sort-Sorted older (λ a b c. leb_trans a.created_at b.created_at c.created_at)
      (λ a b. leb_total a.created_at b.created_at) rows

pub sample_latest : (rows : List AuditLog) → Sorted newer (sort newer rows)
sample_latest rows =
    sort-Sorted newer (λ a b c h k. leb_trans c.created_at b.created_at a.created_at k h)
      (λ a b. leb_total b.created_at a.created_at) rows

-- A hash that is always the same, and a database that sorts by insertion.
abbrev pub env : Env
env = record {
  sha256_hex = λ t. zeros;
  length-sha256_hex = λ t. refl;
  sha256_hex-digits = λ t. zeros-digits;
  isoformat = λ n. n ∷ [];
  parse_uuid = λ t. some (length t);
  fromisoformat = λ t. some (length t);
  oldest_first = sort older;
  oldest_first-Shuffled = sort-Shuffled older;
  oldest_first-Sorted = sample_oldest;
  latest_first = sort newer;
  latest_first-Shuffled = sort-Shuffled newer;
  latest_first-Sorted = sample_latest;
}

abbrev event : AuditEvent
event = record {
  user_id = 1;
  agent_id = some 2;
  action = text "memory:write";
  resource_type = text "memory";
  resource_id = none;
  outcome = text "success";
  namespace = none;
  details = text "{}";
  ip_address = none;
  org_id = none;
  team_id = none;
}

abbrev scope : TenantScope
scope = record { org_id = text "acme"; team_ids = text "t" ∷ [] }

abbrev one : List AuditLog
one = (log_audit_event env event scope 10 100 []).1

one-Logged : Logged env one
one-Logged = Logged.logged event scope 10 100 Logged.nothing tt

verify-Logged_example :
    ((verify_audit_chain env 1 100 one).errors ≡ [])
    × ((verify_audit_chain env 1 100 one).verified ≡ length (take 100 (owned 1 one)))
    × ((verify_audit_chain env 1 100 one).status ≡ clean_status (take 100 (owned 1 one)))
verify-Logged_example = verify-Logged env 1 100 one one-Logged

abbrev row : AuditLog
row = record {
  audit_id = 10;
  user_id = 1;
  agent_id = some 2;
  org_id = some (text "acme");
  team_id = some (text "t");
  action = text "memory:write";
  resource_type = text "memory";
  resource_id = none;
  namespace = none;
  outcome = text "denied";
  details = text "{}";
  ip_address = none;
  hash_chain = zeros;
  created_at = 100;
}

row_clean : check_rows env (text "GENESIS") 0 (row ∷ []) ≡ []
unfolding check_rows check_row expected_hash compute_hash_chain text_eq
row_clean = refl

history_bound_example : Collision env ⊎ (map (signed env) (row ∷ []) ≡ map (signed env) (row ∷ []))
history_bound_example = history_bound env (row ∷ []) (row ∷ []) refl row_clean row_clean refl

-- A denied access is made a success.
abbrev forge : AuditLog → AuditLog
forge r = record r { outcome = text "success"; agent_id = none }

forge-IsUnsigned : IsUnsigned forge
forge-IsUnsigned = record {
  same_id = λ r. refl;
  same_action = λ r. refl;
  same_resource = λ r. refl;
  same_time = λ r. refl;
  same_hash = λ r. refl;
}

tamper_unnoticed_example : report env (map forge (row ∷ [])) ≡ report env (row ∷ [])
tamper_unnoticed_example = tamper_unnoticed env forge (row ∷ []) forge-IsUnsigned

one-Guarded : Guarded env 1 2 (text "memory:write") 100 one
unfolding check_rate_limit rate_limits text_eq
one-Guarded = Guarded.admitted event scope 10 100 100 Guarded.nothing (omega arith) refl

Guarded-count_example :
    (check_rate_limit 1 2 (text "memory:write") 200 200 one).current_count
    ≤ (check_rate_limit 1 2 (text "memory:write") 200 200 one).max_requests
Guarded-count_example =
    Guarded-count env 1 2 (text "memory:write") 100 200 200 one one-Guarded (omega arith)

validate_write_iff_example :
    ((validate_write env 5 (some 20_000) 1 2 9 9 9 one).is_valid ≡ true) ↔ (
      (5 ≤ 100_000)
      × Within 10_000 (some 20_000)
      × ((check_rate_limit 1 2 (text "memory:write") 9 9 one).is_limited ≡ false))
validate_write_iff_example = validate_write_iff env 5 (some 20_000) 1 2 9 9 9 one

abbrev request : AuditQueryRequest
request = record {
  agent_id = none;
  action = some (text "memory:write");
  resource_type = none;
  outcome = none;
  start_time = none;
  end_time = none;
  limit = 5;
  offset = 0;
}

abbrev answer : AuditQueryResponse
answer = record { items = row ∷ []; total = 1; limit = 5; offset = 0 }

asked : query_audit_logs env request 1 false (row ∷ record row { user_id = 7 } ∷ []) ≡ some answer
unfolding query_audit_logs page is_selected text_eq sort place
asked = refl

query_own_example :
    ((r : AuditLog)
      → In r answer.items
      → In r (row ∷ record row { user_id = 7 } ∷ []) × (r.user_id ≡ 1))
    × (length answer.items ≤ 5)
query_own_example = query_own env request 1 (row ∷ record row { user_id = 7 } ∷ []) answer asked
