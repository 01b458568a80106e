-- ===== src/Memory/Schema.antt =====
-- The rows and values of backend/services/memory_service.py and backend/services/namespace_matcher.py:
-- backend/models/memory.py, memory_event.py and namespace_policy.py, and the request's context of
-- backend/core/tenancy.py. A JSON object is its text.
use kemory_community.Prelude.{ℕ, ◌≡◌, ◌≢◌, Text, Bool, Option, some, List, [], ◌∷◌}
use kemory_community.Prelude.Order.{Shuffled}
use kemory_community.Gatekeeper.Schema.{Vault}
use kemory_community.Audit.Schema.{AuditLog}

-- Python's floats, of which the model only knows the operations that the service calls, with its
-- literals 0.0 and 1.0 and the matcher's two thresholds; the encoder, which answers `none` where it
-- raises; difflib's ratio; Unicode's lower case, digits and NFC; the pgvector table, whose operations
-- answer `none` where they raise; and a SELECT without ORDER BY, which returns its rows in some order. `str_uuid` prints an identifier that `uuid.UUID` reads again.
pub record Env : Type 1 where
  pub Float : Type 0
  pub zero : Float
  pub one : Float
  pub auto_redirect_threshold : Float
  pub suggest_threshold : Float
  pub lt : Float → Float → Bool
  pub le : Float → Float → Bool
  pub add : Float → Float → Float
  pub mul : Float → Float → Float
  pub div : Float → Float → Float
  pub sqrt : Float → Float
  pub equal : Float → Float → Bool
  pub round3 : Float → Float
  pub encode : Text → Option (List Float)
  pub sequence_ratio : Text → Text → Float
  pub to_lower : Text → Text
  pub is_digit : ℕ → Bool
  pub nfc : Text → Text
  pub Vectors : Type 0
  pub search : Vectors → Text → ℕ → Text → List Float → ℕ → Option (List (ℕ × Float))
  pub upsert : ℕ → Text → ℕ → Text → List Float → Text → Vectors → Option Vectors
  pub scan : (A : Type 0) → List A → List A
  pub scan-Shuffled : (A : Type 0) (rows : List A) → Shuffled (scan A rows) rows
  pub order_by : (A : Type 0) → (A → ℕ) → List A → List A
  pub order_by-Shuffled :
      (A : Type 0) (key : A → ℕ) (rows : List A) → Shuffled (order_by A key rows) rows
  pub order_by_desc : (A : Type 0) → (A → ℕ) → List A → List A
  pub order_by_desc-Shuffled :
      (A : Type 0) (key : A → ℕ) (rows : List A) → Shuffled (order_by_desc A key rows) rows
  pub gate : kemory_community.Gatekeeper.Schema.Env
  pub log : kemory_community.Audit.Schema.Env
  pub str_uuid : ℕ → Text
  pub parse-str_uuid : (n : ℕ) → gate.parse_uuid (str_uuid n) ≡ some n
  pub str_uuid-nonempty : (n : ℕ) → str_uuid n ≢ []
  pub str_uuid-None : (n : ℕ) → str_uuid n ≢ (b'N' ∷ b'o' ∷ b'n' ∷ b'e' ∷ [])
  pub str_uuid-none : (n : ℕ) → str_uuid n ≢ (b'n' ∷ b'o' ∷ b'n' ∷ b'e' ∷ [])

pub record Memory (env : Env) : Type 0 where
  pub memory_id : ℕ
  pub user_id : ℕ
  pub org_id : Text
  pub namespace : Text
  pub namespace_tag : Option Text
  pub content : Text
  pub content_type : Text
  pub content_hash : Text
  pub meta : Text
  pub source_agent_id : Option ℕ
  pub source_type : Text
  pub enrichment_status : Text
  pub version : ℕ
  pub ttl_seconds : Option ℕ
  pub expires_at : Option ℕ
  pub invalid_at : Option ℕ
  pub session_id : Option Text
  pub round_id : Option Text
  pub valid_at : Option ℕ
  pub occurred_at : Option ℕ
  pub decay_score : env.Float
  pub visibility : Text
  pub team_id : Option ℕ
  pub embedding : Option (List env.Float)
  pub embedding_model : Option Text
  pub access_count : ℕ
  pub last_accessed_at : Option ℕ
  pub created_at : ℕ
  pub updated_at : ℕ

pub record MemoryCreate : Type 0 where
  pub namespace : Text
  pub namespace_tag : Option Text
  pub content : Text
  pub content_type : Text
  pub metadata : Option Text
  pub ttl_seconds : Option ℕ
  pub session_id : Option Text
  pub round_id : Option Text
  pub valid_at : Option Text
  pub occurred_at : Option Text
  pub visibility : Text
  pub team_id : Option Text
  pub namespace_description : Option Text
  pub allow_duplicate : Bool

pub record MemoryUpdate : Type 0 where
  pub content : Option Text
  pub content_type : Option Text
  pub metadata : Option Text
  pub ttl_seconds : Option ℕ

pub data DedupKind (env : Env) : Type 0 where
  exact_hash : DedupKind env
  semantic : env.Float → DedupKind env

-- The row that the response shows, with what `create_memory` sets beside it.
pub record MemoryResponse (env : Env) : Type 0 where
  pub memory : Memory env
  pub dedup : Option (DedupKind env)
  pub dedup_skipped : Bool
  pub redirected_from : Option Text

pub data EventType : Type 0 where
  created deleted dedup_matched : EventType

-- A state is a namespace and a content type; `meta` is the deduplication's, none for `{}`.
pub record MemoryEvent (env : Env) : Type 0 where
  pub event_id : ℕ
  pub memory_id : ℕ
  pub event_type : EventType
  pub actor_type : Text
  pub actor_id : Option Text
  pub reason : Option Text
  pub before_state : Option (Text × Text)
  pub after_state : Option (Text × Text)
  pub meta : Option (DedupKind env)
  pub created_at : ℕ

pub record RelatedNamespace (env : Env) : Type 0 where
  pub namespace : Text
  pub similarity : Option env.Float
  pub detected_at : ℕ

pub record NamespacePolicy (env : Env) : Type 0 where
  pub namespace : Text
  pub description : Option Text
  pub related_namespaces : List (RelatedNamespace env)
  pub created_by : Option ℕ

pub record AiChat : Type 0 where
  pub user_id : ℕ
  pub org_id : Text
  pub namespace : Text
  pub invalid_at : Option ℕ

-- The tasks that outlive the request: `_bg_enrich` and `schedule_compression`.
pub data Task : Type 0 where
  enrich : ℕ → ℕ → Task
  compress : ℕ → ℕ → Text → Task

-- The session's view of the database, and the tasks that were started.
pub record Db (env : Env) : Type 0 where
  pub vault : Vault
  pub audit : List AuditLog
  pub memories : List (Memory env)
  pub events : List (MemoryEvent env)
  pub policies : List (NamespacePolicy env)
  pub chats : List AiChat
  pub vectors : env.Vectors
  pub tasks : List Task

-- The context variables of a request, and whether `bypass_tenant_filter` is in force.
pub record Scope : Type 0 where
  pub org_id : Text
  pub user_id : ℕ
  pub team_ids : List ℕ
  pub is_bypassed : Bool

pub record Settings (env : Env) : Type 0 where
  pub dedup_exact_enabled : Bool
  pub dedup_semantic_enabled : Bool
  pub dedup_semantic_threshold : env.Float
  pub dedup_semantic_max_candidates : ℕ
  pub tenant_legacy_sentinel : Text

pub record NamespaceCandidate (env : Env) : Type 0 where
  pub namespace : Text
  pub similarity : env.Float

-- What the functions raise.
pub data Failure (env : Env) : Type 0 where
  access_denied invalid_content_type bad_timestamp bad_uuid integrity_error multiple_results
        memory_not_found memory_expired :
      Failure env
  related_namespace : Text → List (NamespaceCandidate env) → Failure env
  duplicates : ℕ → Failure env

pub data Answer (env : Env) (A : Type 0) : Type 0 where
  ok : A → Answer env A
  raised : Failure env → Answer env A

-- One call: who calls, the time that it reads and the identifiers that it draws.
pub record Call : Type 0 where
  pub user_id : ℕ
  pub agent_id : ℕ
  pub now : ℕ
  pub memory_id : ℕ
  pub event_id : ℕ
  pub audit_id : ℕ
  pub consent_id : ℕ
  pub skip_gatekeeper : Bool
