-- ===== src/Memory/Access.antt =====
-- `get_memory`, `update_memory` and `delete_memory` of backend/services/memory_service.py. The
-- database is what was flushed: assignments that a raise leaves unflushed are lost.
use kemory_community.Prelude.{
  ℕ, ◌+◌, ◌*◌, Text, text, text_eq, text_in, Bool, true, false, not, ◌&&◌, ◌||◌, Option, none, some,
  List, [], ◌∷◌, map, keep, ltb, ◌==◌, if◌then◌else◌,
}
use kemory_community.Gatekeeper.Schema.{EvaluationRequest, GatekeeperDecision, Result, err}
use kemory_community.Gatekeeper.Evaluate.{evaluate}
use kemory_community.Audit.Schema.{AuditEvent}
use kemory_community.Audit.Log.{log_audit_event}
use kemory_community.Memory.Schema.{
  Env, Memory, MemoryResponse, MemoryUpdate, deleted, Scope, Db, Answer, ok, raised, access_denied,
  invalid_content_type, bad_uuid, integrity_error, memory_not_found, memory_expired, duplicates,
  Call,
}
use kemory_community.Memory.Tenancy.{is_active, select_memories}
use kemory_community.Memory.Dedup.{
  has_hash, scalar_one_or_none, content_hash, find_by_hash, assign, count_access, emit_event,
}

abbrev pub valid_content_types : List Text
valid_content_types =
    text "text"
    ∷ text "structured"
    ∷ text "conversation"
    ∷ text "fact"
    ∷ text "preference"
    ∷ text "embedding"
    ∷ text "skill"
    ∷ []

-- The question that is put to the Gatekeeper.
abbrev pub access_request : Env → Call → Text → Text → EvaluationRequest
access_request env call scope namespace = record {
  agent_id = some (env.str_uuid call.agent_id);
  scope = scope;
  resource = none;
  namespace = some namespace;
}

abbrev pub verdict : {env : Env} → Result GatekeeperDecision → Answer env Unit
verdict (Result.ok d) = if d.allowed then ok tt else raised access_denied
verdict (err e) = raised bad_uuid

unfoldable pub check_access : {env : Env} → Call → Text → Text → Db env → Answer env Unit × Db env
unfolding evaluate
check_access {env = env} call scope namespace db =
    if call.skip_gatekeeper
    then (ok tt, db)
    else let (d, vault) =
        evaluate env.gate call.user_id (access_request env call scope namespace) call.now
          call.consent_id db.vault in
      (verdict d, record db { vault = vault })

abbrev pub has_expired : ℕ → Option ℕ → Bool
has_expired now none = false
has_expired now (some t) = ltb t now

abbrev pub unexpired : {env : Env} → ℕ → Answer env (Option (Memory env)) → Answer env (Memory env)
unexpired now (raised f) = raised f
unexpired now (ok none) = raised memory_not_found
unexpired now (ok (some m)) = if has_expired now m.expires_at then raised memory_expired else ok m

unfoldable pub is_addressed : {env : Env} → Bool → ℕ → ℕ → Memory env → Bool
unfolding is_active
is_addressed admin_view user_id id m =
    m.memory_id == id && is_active m.invalid_at && (admin_view || m.user_id == user_id)

unfoldable pub get_active_memory :
    {env : Env} → ℕ → ℕ → Bool → ℕ → Scope → Db env → Answer env (Memory env)
unfolding scalar_one_or_none is_addressed
get_active_memory id user_id admin_view now scope db =
    unexpired now
      (scalar_one_or_none (select_memories scope (is_addressed admin_view user_id id) db))

abbrev pub plain_response : {env : Env} → Memory env → MemoryResponse env
plain_response m = record {
  memory = m;
  dedup = none;
  dedup_skipped = false;
  redirected_from = none;
}

-- Fetches the row, asks the Gatekeeper about its namespace, and goes on with the row.
abbrev pub with_row :
    {env : Env} {A : Type 0}
    → Call
    → Text
    → Answer env (Memory env)
    → Db env
    → (Memory env → Db env → Answer env A × Db env)
    → Answer env A × Db env
with_row call scope_name (raised f) db next = (raised f, db)
with_row call scope_name (ok m) db next =
    let (admitted, db') = check_access call scope_name m.namespace db in
    elim admitted [ raised f ↦ (raised f, db') | ok u ↦ next m db' ]

unfoldable pub get_memory :
    {env : Env} → ℕ → Call → Scope → Db env → Answer env (MemoryResponse env) × Db env
unfolding get_active_memory check_access count_access assign
get_memory id call scope db =
    with_row call (text "memory:read") (get_active_memory id call.user_id false call.now scope db)
      db
      (λ m db'. (
        ok (plain_response (count_access call.now m)),
        record db' { memories = assign m.memory_id (count_access call.now) db'.memories },
      ))

-- A hash that the row does not have yet must not be another active row's.
unfoldable pub check_collision :
    {env : Env} → Call → Memory env → Option Text → Scope → Db env → Answer env Unit
unfolding content_hash find_by_hash
check_collision call m none scope db = ok tt
check_collision {env = env} call m (some content) scope db =
    let hash = content_hash env content in
    if text_eq hash m.content_hash
    then ok tt
    else elim (find_by_hash call.user_id m.namespace hash scope db) [
      | raised f ↦ raised f
      | ok found ↦ elim found [
        | none ↦ ok tt
        | some c ↦ if c.memory_id == m.memory_id then ok tt else raised (duplicates c.memory_id)
      ]
    ]

abbrev pub set_content : {env : Env} → Option Text → Memory env → Memory env
set_content none m = m
set_content {env = env} (some content) m = record m {
  content = content;
  content_hash = content_hash env content;
  enrichment_status = text "pending";
}

abbrev pub set_content_type : {env : Env} → Option Text → Memory env → Memory env
set_content_type none m = m
set_content_type (some t) m = record m { content_type = t }

abbrev pub set_metadata : {env : Env} → Option Text → Memory env → Memory env
set_metadata none m = m
set_metadata (some t) m = record m { meta = t }

abbrev pub set_ttl : {env : Env} → ℕ → Option ℕ → Memory env → Memory env
set_ttl now none m = m
set_ttl now (some t) m = record m { ttl_seconds = some t; expires_at = some (now + t * 1_000_000) }

unfoldable pub apply_updates : {env : Env} → ℕ → MemoryUpdate → Memory env → Memory env
unfolding content_hash
apply_updates now request m =
    let m' = set_ttl now request.ttl_seconds (
      set_metadata request.metadata
        (set_content_type request.content_type (set_content request.content m))) in
    record m' { version = m'.version + 1; updated_at = now }

abbrev pub is_allowed_type : Option Text → Bool
is_allowed_type none = true
is_allowed_type (some t) = text_in t valid_content_types

-- The unique index over (user_id, namespace, content_hash) of the active rows, which no tenant
-- filter narrows.
unfoldable pub holds_key : {env : Env} → Memory env → List (Memory env) → Bool
unfolding has_hash
holds_key m [] = false
holds_key m (n ∷ ns) = has_hash m.user_id m.namespace m.content_hash n || holds_key m ns

-- The flush of an UPDATE.
unfoldable pub flush_update :
    {env : Env}
    → (Memory env → Memory env)
    → Memory env
    → Db env
    → Answer env (MemoryResponse env) × Db env
unfolding holds_key assign
flush_update f m db =
    if holds_key (f m) (keep (λ n. not (n.memory_id == m.memory_id)) db.memories)
    then (raised integrity_error, db)
    else (ok (plain_response (f m)), record db { memories = assign m.memory_id f db.memories })

unfoldable pub update_memory :
    {env : Env}
    → ℕ
    → Call
    → MemoryUpdate
    → Bool
    → Scope
    → Db env
    → Answer env (MemoryResponse env) × Db env
unfolding get_active_memory check_access check_collision apply_updates flush_update text_in
update_memory id call request admin_view scope db =
    with_row call (text "memory:write")
      (get_active_memory id call.user_id admin_view call.now scope db) db
      (λ m db'. elim (check_collision call m request.content scope db') [
        | raised f ↦ (raised f, db')
        | ok u ↦
            if not (is_allowed_type request.content_type)
            then (raised invalid_content_type, db')
            else flush_update (apply_updates call.now request) m db'
      ])

abbrev pub audit_event : (env : Env) → Call → Text → ℕ → Text → Text → AuditEvent
audit_event env call action id namespace details = record {
  user_id = call.user_id;
  agent_id = some call.agent_id;
  action = action;
  resource_type = text "memory";
  resource_id = some (env.str_uuid id);
  outcome = text "success";
  namespace = some namespace;
  details = details;
  ip_address = none;
  org_id = none;
  team_id = none;
}

abbrev pub log_memory : {env : Env} → Call → Text → ℕ → Text → Text → Scope → Db env → Db env
log_memory {env = env} call action id namespace details scope db = record db {
  audit =
      (log_audit_event env.log (audit_event env call action id namespace details)
        (record { org_id = scope.org_id; team_ids = map env.str_uuid scope.team_ids }) call.audit_id
        call.now db.audit).1;
}

abbrev pub soft_delete : {env : Env} → ℕ → Memory env → Memory env
soft_delete now m = record m { invalid_at = some now; updated_at = now }

unfoldable pub delete_memory :
    {env : Env} → ℕ → Call → Bool → Scope → Db env → Answer env Unit × Db env
unfolding get_active_memory check_access assign emit_event log_audit_event
delete_memory id call admin_view scope db =
    with_row call (text "memory:delete")
      (get_active_memory id call.user_id admin_view call.now scope db) db
      (λ m db'. (
        ok tt,
        log_memory call (text "memory.delete") id m.namespace (text "{}") scope (
            emit_event call m.memory_id deleted (text "Soft-deleted via API") none none
              (record db' { memories = assign m.memory_id (soft_delete call.now) db'.memories })),
      ))
