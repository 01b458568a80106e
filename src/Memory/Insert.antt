-- ===== src/Memory/Insert.antt =====
-- The INSERT of `create_memory` in backend/services/memory_service.py, with what follows it.
-- `arrived` are the rows that other requests commit between the search for duplicates and the
-- INSERT. A rollback goes back to the database at the start of the call, with those rows.
use kemory_community.Prelude.{
  ℕ, zero, suc, ◌+◌, ◌*◌, Text, text, Bool, Option, none, some, List, [], ◌∷◌, ◌++◌, if◌then◌else◌,
  ◌==◌,
}
use kemory_community.Audit.Log.{or_else}
use kemory_community.Memory.Schema.{
  Env, Memory, MemoryCreate, MemoryResponse, exact_hash, created, enrich, compress, Scope, Db,
  Settings, Answer, ok, raised, bad_timestamp, bad_uuid, integrity_error, Call,
}
use kemory_community.Memory.Dedup.{
  content_hash, find_by_hash, handle_dedup_match, emit_event, org_or_legacy,
}
use kemory_community.Memory.Access.{holds_key, log_memory}

-- `value.replace("Z", "+00:00")`
unfoldable pub replace_z : Text → Text
replace_z [] = []
replace_z (c ∷ t) = if c == b'Z' then text "+00:00" ++ replace_z t else c ∷ replace_z t

-- `datetime.fromisoformat(...) if value else None`
unfoldable pub parse_time : {env : Env} → Option Text → Answer env (Option ℕ)
unfolding replace_z
parse_time none = ok none
parse_time (some []) = ok none
parse_time {env = env} (some (c ∷ t)) = elim (env.log.fromisoformat (replace_z (c ∷ t))) [
  | none ↦ raised bad_timestamp
  | some n ↦ ok (some n)
]

-- `uuid.UUID(request.team_id) if request.team_id else None`
unfoldable pub parse_team : {env : Env} → Option Text → Answer env (Option ℕ)
parse_team none = ok none
parse_team (some []) = ok none
parse_team {env = env} (some (c ∷ t)) = elim (env.gate.parse_uuid (c ∷ t)) [
  | none ↦ raised bad_uuid
  | some n ↦ ok (some n)
]

abbrev expiry : ℕ → Option ℕ → Option ℕ
expiry now none = none
expiry now (some zero) = none
expiry now (some (suc n)) = some (now + suc n * 1_000_000)

abbrev embedded_by : {A : Type 0} → Option A → Option Text
embedded_by none = none
embedded_by (some v) = some (text "bge-small-en-v1.5")

-- The row, with the values that were parsed for it.
abbrev pub new_memory :
    {env : Env}
    → Settings env
    → Call
    → MemoryCreate
    → Option Text
    → Option (List env.Float)
    → Option ℕ
    → Option ℕ
    → Option ℕ
    → Memory env
new_memory {env = env} s call request org_id embedding valid_at occurred_at team_id = record {
  memory_id = call.memory_id;
  user_id = call.user_id;
  org_id = or_else org_id s.tenant_legacy_sentinel;
  namespace = request.namespace;
  namespace_tag = request.namespace_tag;
  content = request.content;
  content_type = request.content_type;
  content_hash = content_hash env request.content;
  meta = or_else request.metadata (text "{}");
  source_agent_id = some call.agent_id;
  source_type = text "agent";
  enrichment_status = text "pending";
  version = 1;
  ttl_seconds = request.ttl_seconds;
  expires_at = expiry call.now request.ttl_seconds;
  invalid_at = none;
  session_id = request.session_id;
  round_id = request.round_id;
  valid_at = valid_at;
  occurred_at = occurred_at;
  decay_score = env.one;
  visibility = request.visibility;
  team_id = team_id;
  embedding = embedding;
  embedding_model = embedded_by embedding;
  access_count = 0;
  last_accessed_at = none;
  created_at = call.now;
  updated_at = call.now;
}

unfoldable pub build_memory :
    {env : Env}
    → Settings env
    → Call
    → MemoryCreate
    → Option Text
    → Option (List env.Float)
    → Answer env (Memory env)
unfolding parse_time parse_team or_else content_hash
build_memory s call request org_id embedding = elim (parse_time request.valid_at) [
  | raised f ↦ raised f
  | ok valid_at ↦ elim (parse_time request.occurred_at) [
    | raised f ↦ raised f
    | ok occurred_at ↦ elim (parse_team request.team_id) [
      | raised f ↦ raised f
      | ok team_id ↦ ok (new_memory s call request org_id embedding valid_at occurred_at team_id)
    ]
  ]
]

-- A failing write of the vector is logged and passed over.
unfoldable pub upsert_memory_vector : {env : Env} → Settings env → Memory env → Db env → Db env
unfolding or_else
upsert_memory_vector {env = env} s m db = elim m.embedding [
  | none ↦ db
  | some v ↦
      elim (env.upsert m.memory_id m.namespace m.user_id (org_or_legacy s m.org_id) v m.content_type
        db.vectors) [ none ↦ db | some vectors ↦ record db { vectors = vectors } ]
]

abbrev start_tasks : {env : Env} → Call → Memory env → Db env → Db env
start_tasks call m db = record db {
  tasks =
      db.tasks
      ++ enrich m.memory_id call.user_id ∷ compress call.user_id m.memory_id m.namespace ∷ [];
}

-- json.dumps({"content_type": t}), where `t` is one of the valid types
abbrev type_json : Text → Text
type_json t =
    b'{' ∷ b'"' ∷ (text "content_type" ++ b'"' ∷ b':' ∷ b' ' ∷ b'"' ∷ (t ++ b'"' ∷ b'}' ∷ []))

-- What follows a flush that did not raise.
unfoldable pub finish : {env : Env} → Settings env → Call → Memory env → Scope → Db env → Db env
unfolding upsert_memory_vector emit_event kemory_community.Audit.Log.log_audit_event
finish s call m scope db = start_tasks call m (
    log_memory call (text "memory.create") m.memory_id m.namespace (type_json m.content_type) scope
      (emit_event call m.memory_id created (text "Memory created via API")
        (some (m.namespace, m.content_type)) none (upsert_memory_vector s m db)))

-- What follows a flush that raised, over the database that was rolled back.
unfoldable pub recover :
    {env : Env} → Call → Memory env → Scope → Db env → Answer env (MemoryResponse env) × Db env
unfolding find_by_hash handle_dedup_match
recover call m scope db = elim (find_by_hash call.user_id m.namespace m.content_hash scope db) [
  | raised f ↦ (raised f, db)
  | ok found ↦ elim found [
    | none ↦ (raised integrity_error, db)
    | some e ↦ let (response, db') = handle_dedup_match call e exact_hash db in (ok response, db')
  ]
]

-- The tables after the rollback: those of the request's start and the rows that others have
-- committed, but the agents' counters are kept, since they are committed in a session of their own.
abbrev pub with_arrived : {env : Env} → List (Memory env) → Db env → Db env → Db env
with_arrived arrived db start = record start {
  memories = start.memories ++ arrived;
  vault = record start.vault { agents = db.vault.agents };
}

unfoldable pub insert_memory :
    {env : Env}
    → Settings env
    → Call
    → Memory env
    → Bool
    → Option Text
    → List (Memory env)
    → Scope
    → Db env
    → Db env
    → Answer env (MemoryResponse env) × Db env
unfolding holds_key recover finish
insert_memory s call m skipped redirected_from arrived scope start db =
    if holds_key m (db.memories ++ arrived)
    then recover call m scope (with_arrived arrived db start)
    else (
      ok (record {
        memory = m;
        dedup = none;
        dedup_skipped = skipped;
        redirected_from = redirected_from;
      }),
      finish s call m scope (record db { memories = (db.memories ++ arrived) ++ m ∷ [] }),
    )
