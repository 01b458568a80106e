-- ===== src/Memory/Listing.antt =====
-- `list_namespace_raw` of backend/services/memory_service.py, `get_memory_history` and
-- `get_last_event` of backend/services/provenance_service.py. A row stands for the dict that is
-- made of it.
use kemory_community.Prelude.{
  ℕ, ◌≡◌, Text, text, text_eq_iff, true, ◌&&◌, Option, none, some, List, [], ◌∷◌, keep, length,
  take, drop, In, In-of_keep, ◌==◌, arith,
}
use kemory_community.Prelude.Order.{In-Shuffled}
use kemory_community.Memory.Schema.{Env, Memory, MemoryEvent, Scope, Db, Answer, ok, raised, Call}
use kemory_community.Memory.Tenancy.{is_active, is_readable, select_memories}
use kemory_community.Memory.Dedup.{is_in}
use kemory_community.Memory.Access.{check_access}

-- Every active memory of the user in the namespace, the oldest first.
unfoldable pub list_namespace_active_memories :
    {env : Env} → ℕ → Text → Scope → Db env → List (Memory env)
list_namespace_active_memories {env = env} user_id namespace scope db =
    env.order_by (Memory env) (λ m. m.created_at)
      (select_memories scope (is_in user_id namespace) db)

pub record RawDump (env : Env) : Type 0 where
  pub mode : Text
  pub namespace : Text
  pub source_count : ℕ
  pub memories : List (Memory env)

abbrev raw_dump : {env : Env} → Text → List (Memory env) → RawDump env
raw_dump namespace memories = record {
  mode = text "raw";
  namespace = namespace;
  source_count = length memories;
  memories = memories;
}

unfoldable pub list_namespace_raw :
    {env : Env} → Call → Text → Scope → Db env → Answer env (RawDump env) × Db env
unfolding check_access list_namespace_active_memories
list_namespace_raw call namespace scope db =
    let (admitted, db') = check_access call (text "memory:read") namespace db in
    elim admitted [
      | raised f ↦ (raised f, db')
      | ok u ↦ (
        ok (raw_dump namespace (list_namespace_active_memories call.user_id namespace scope db')),
        db',
      )
    ]

-- The events of a memory, the newest first.
unfoldable pub events_of : {env : Env} → ℕ → Db env → List (MemoryEvent env)
events_of {env = env} memory_id db =
    env.order_by_desc (MemoryEvent env) (λ e. e.created_at)
      (keep (λ e. e.memory_id == memory_id) db.events)

unfoldable pub get_memory_history : {env : Env} → ℕ → ℕ → ℕ → Db env → List (MemoryEvent env)
unfolding events_of
get_memory_history memory_id limit offset db = take limit (drop offset (events_of memory_id db))

abbrev first_event : {env : Env} → List (MemoryEvent env) → Option (MemoryEvent env)
first_event [] = none
first_event (e ∷ es) = some e

unfoldable pub get_last_event : {env : Env} → ℕ → Db env → Option (MemoryEvent env)
unfolding events_of
get_last_event memory_id db = first_event (take 1 (events_of memory_id db))

-- The listing has only active memories of the user in the namespace that the request reads.
pub In-list_namespace :
    {env : Env} (user_id : ℕ) (namespace : Text) (scope : Scope) (db : Db env) (m : Memory env)
    → In m (list_namespace_active_memories user_id namespace scope db)
    → In m db.memories
      × (m.user_id ≡ user_id)
      × (m.namespace ≡ namespace)
      × (is_active m.invalid_at ≡ true)
      × (is_readable scope m ≡ true)
unfolding list_namespace_active_memories
In-list_namespace {env = env} user_id namespace scope db m i =
    let test = λ (n : Memory env). is_in user_id namespace n && is_readable scope n in
    let found : In m db.memories × (test m ≡ true) =
      In-of_keep test db.memories (In-Shuffled (env.order_by-Shuffled (Memory env) _ _) i) in
    (
      found.0,
      ground (arith, found.1),
      ground (arith, found.1, text_eq_iff m.namespace namespace),
      ground (arith, found.1),
      ground (arith, found.1),
    )
