-- ===== src/Memory/Dedup.antt =====
-- The deduplication of backend/services/memory_service.py, with the content hash of
-- kemory/utils/text.py and `emit_event` of backend/services/provenance_service.py.
use kemory_community.Prelude.{
  ℕ, ◌+◌, Text, text, text_eq, is_space, Bool, true, false, not, ◌&&◌, Option, none, some, List, [],
  ◌∷◌, ◌++◌, keep, length, take, ◌==◌, if◌then◌else◌,
}
use kemory_community.Audit.Log.{or_else}
use kemory_community.Memory.Schema.{
  Env, Memory, MemoryResponse, DedupKind, exact_hash, semantic, EventType, dedup_matched, Scope, Db,
  Settings, Answer, ok, raised, multiple_results, Call,
}
use kemory_community.Memory.Tenancy.{is_active, select_memories}
use kemory_community.Memory.Matcher.{dot}

-- The word that a text begins with, and the words behind it.
abbrev word_before : Text → List Text → List Text
word_before [] ws = ws
word_before (c ∷ w) ws = (c ∷ w) ∷ ws

unfoldable pub split_words : Text → Text × List Text
unfolding is_space
split_words [] = ([], [])
split_words (c ∷ t) =
    let (w, ws) = split_words t in if is_space c then ([], word_before w ws) else (c ∷ w, ws)

unfoldable pub join_words : List Text → Text
join_words [] = []
join_words (w ∷ []) = w
join_words (w ∷ v ∷ ws) = w ++ b' ' ∷ join_words (v ∷ ws)

unfoldable pub normalize_content : Env → Text → Text
unfolding split_words join_words
normalize_content env content =
    let (w, ws) = split_words (env.nfc content) in join_words (word_before w ws)

unfoldable pub content_hash : Env → Text → Text
content_hash env content = env.log.sha256_hex (normalize_content env content)

unfoldable pub has_hash : {env : Env} → ℕ → Text → Text → Memory env → Bool
unfolding is_active
has_hash user_id namespace hash m =
    m.user_id == user_id
    && text_eq m.namespace namespace
    && text_eq m.content_hash hash
    && is_active m.invalid_at

-- `scalar_one_or_none()`
unfoldable pub scalar_one_or_none :
    {env : Env} → List (Memory env) → Answer env (Option (Memory env))
scalar_one_or_none [] = ok none
scalar_one_or_none (m ∷ []) = ok (some m)
scalar_one_or_none (m ∷ n ∷ ms) = raised multiple_results

unfoldable pub find_by_hash :
    {env : Env} → ℕ → Text → Text → Scope → Db env → Answer env (Option (Memory env))
unfolding scalar_one_or_none has_hash
find_by_hash user_id namespace hash scope db =
    scalar_one_or_none (select_memories scope (has_hash user_id namespace hash) db)

abbrev some_embedding : {env : Env} → Memory env → List env.Float
some_embedding m = elim m.embedding [ none ↦ [] | some v ↦ v ]

abbrev pub is_embedded : {env : Env} → Memory env → Bool
is_embedded m = elim m.embedding [ none ↦ false | some v ↦ true ]

abbrev pub is_in : {env : Env} → ℕ → Text → Memory env → Bool
is_in user_id namespace m =
    m.user_id == user_id && text_eq m.namespace namespace && is_active m.invalid_at

-- The loop over the candidates of the old column; an embedding that is empty is passed over.
unfoldable pub best_candidate :
    {env : Env}
    → List env.Float
    → Option (Memory env)
    → env.Float
    → List (Memory env)
    → Option (Memory env) × env.Float
unfolding dot
best_candidate query best best_score [] = (best, best_score)
best_candidate {env = env} query best best_score (m ∷ ms) =
    let v = some_embedding m in
    let score = dot env query v in
    let is_better = not (length v == 0) && length v == length query && env.lt best_score score in
    best_candidate {env = env} query (if is_better then some m else best)
      (if is_better then score else best_score) ms

unfoldable pub legacy_duplicate :
    {env : Env}
    → ℕ
    → Text
    → env.Float
    → ℕ
    → List env.Float
    → Scope
    → Db env
    → Option (Memory env × env.Float)
unfolding best_candidate
legacy_duplicate {env = env} user_id namespace threshold max_candidates query scope db =
    let found = take max_candidates (
      env.scan (Memory env)
        (select_memories scope (λ m. is_in user_id namespace m && is_embedded m) db)) in
    let (best, best_score) = best_candidate {env = env} query none env.zero found in
    elim best [
      | none ↦ none
      | some m ↦ if env.le threshold best_score then some (m, best_score) else none
    ]

-- `memories.get(hit.memory_id)`
unfoldable pub find_id : {env : Env} → ℕ → List (Memory env) → Option (Memory env)
find_id id [] = none
find_id id (m ∷ ms) = if m.memory_id == id then some m else find_id id ms

unfoldable pub first_hit :
    {env : Env} → List (ℕ × env.Float) → List (Memory env) → Option (Memory env × env.Float)
unfolding find_id
first_hit [] rows = none
first_hit {env = env} ((id, score) ∷ hits) rows = elim (find_id id rows) [
  | some m ↦ some (m, score)
  | none ↦ first_hit {env = env} hits rows
]

abbrev pub is_hit : {A : Type 0} → List (ℕ × A) → ℕ → Bool
is_hit [] id = false
is_hit ((i, x) ∷ hits) id = if i == id then true else is_hit hits id

abbrev pub hits_or_none : {A : Type 0} → Option (List A) → List A
hits_or_none none = []
hits_or_none (some hits) = hits

-- `current_org_id() or settings.tenant_legacy_sentinel`
abbrev pub org_or_legacy : {env : Env} → Settings env → Text → Text
org_or_legacy s org_id = or_else (some org_id) s.tenant_legacy_sentinel

unfoldable pub find_semantic_duplicate :
    {env : Env}
    → Settings env
    → ℕ
    → Text
    → List env.Float
    → Scope
    → Db env
    → Option (Memory env × env.Float)
unfolding legacy_duplicate first_hit or_else
find_semantic_duplicate {env = env} s user_id namespace query scope db =
    let threshold = s.dedup_semantic_threshold in
    let limit = s.dedup_semantic_max_candidates in
    let eligible =
      keep (λ h. env.le threshold h.1)
        (hits_or_none
          (env.search db.vectors namespace user_id (org_or_legacy s scope.org_id) query limit)) in
    if length eligible == 0
    then legacy_duplicate {env = env} user_id namespace threshold limit query scope db
    else first_hit {env = env} eligible
        (select_memories scope (λ m. is_in user_id namespace m && is_hit eligible m.memory_id) db)

unfoldable pub emit_event :
    {env : Env}
    → Call
    → ℕ
    → EventType
    → Text
    → Option (Text × Text)
    → Option (DedupKind env)
    → Db env
    → Db env
emit_event {env = env} call memory_id event_type reason after_state metadata db = record db {
  events =
      db.events
      ++ record {
        event_id = call.event_id;
        memory_id = memory_id;
        event_type = event_type;
        actor_type = text "agent";
        actor_id = some (env.str_uuid call.agent_id);
        reason = some reason;
        before_state = none;
        after_state = after_state;
        meta = metadata;
        created_at = call.now;
      }
        ∷ [];
}

-- Assignments to the object of a row, and their flush.
unfoldable pub assign :
    {env : Env} → ℕ → (Memory env → Memory env) → List (Memory env) → List (Memory env)
assign id f [] = []
assign id f (m ∷ ms) = (if m.memory_id == id then f m else m) ∷ assign id f ms

-- Every UPDATE of a row sets its `updated_at`.
unfoldable pub count_access : {env : Env} → ℕ → Memory env → Memory env
count_access now m = record m {
  access_count = m.access_count + 1;
  last_accessed_at = some now;
  updated_at = now;
}

abbrev kind_name : {env : Env} → DedupKind env → Text
kind_name exact_hash = text "exact_hash"
kind_name (semantic similarity) = text "semantic"

abbrev pub dedup_reason : {env : Env} → DedupKind env → Text
dedup_reason kind =
    text "Dedup (" ++ (kind_name kind ++ text "): incoming content matched existing memory")

abbrev pub dedup_response : {env : Env} → Call → Memory env → DedupKind env → MemoryResponse env
dedup_response call existing kind = record {
  memory = count_access call.now existing;
  dedup = some kind;
  dedup_skipped = false;
  redirected_from = none;
}

unfoldable pub handle_dedup_match :
    {env : Env} → Call → Memory env → DedupKind env → Db env → MemoryResponse env × Db env
unfolding assign count_access emit_event
handle_dedup_match call existing kind db = (
  dedup_response call existing kind,
  emit_event call existing.memory_id dedup_matched (dedup_reason kind) none (some kind)
      (record db { memories = assign existing.memory_id (count_access call.now) db.memories }),
)
