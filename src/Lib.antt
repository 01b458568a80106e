-- ===== src/Lib.antt =====
-- Kemory Community Edition, local memory for AI agents: a model of the core of its Python code with
-- theorems about it.
--
-- Parts and files:
-- * Gatekeeper, backend/services/gatekeeper_service.py with backend/models/permission.py and
--   backend/models/consent.py. Schema has the rows (a Vault is the three tables), Scope the
--   validators and matching helpers, Rules create_rule, update_rule, delete_rule and list_rules,
--   Evaluate evaluate and _increment_agent_stats, Consent resolve_consent. Covers, Priority,
--   Effects, Writes, Lifecycle, Reach and Validity are proofs; Reach has all operations as one
--   relation.
-- * Pair, backend/services/pair_service.py. Record has PairRecord and _generate_code, Memory the
--   functions over _memory_store, Race the two requests of mark_claimed over Redis, Claims proofs.
-- * Aaak, kemory/compression/aaak.py. Value has _escape_value of a text and _unescape_value, Line
--   _TOKEN_RE, Record the values and aliases, _serialise_memory and _parse_memory_line; the other
--   files are proofs.
-- * Audit, backend/services/audit_service.py with backend/models/audit.py. Log has log_audit_event
--   and compute_hash_chain, Query query_audit_logs, Limits check_rate_limit and validate_write,
--   Verify verify_audit_chain; Chain, Logged, Tamper and Admission are proofs.
-- * Local, kemory/storage/local.py. Episodes has add_episode, get_episode_by_id,
--   invalidate_episode and list_episodes, Graph add_edge, get_related and resolve_conflict, Forget
--   _utility_salience, _decay_score and forget_decayed. Lifecycle has the operations as one
--   relation; Survival, Forgetting, Links and Access are proofs.
-- * Digest, backend/services/session_digest_service.py. Turns has _pair_chat_turns, Budget
--   count_tokens and fit_text_to_budget, SourceIds _unique and the source identifiers; Lossless,
--   Fitted and RoundTrip are proofs.
-- * Compression, kemory/compression/cache.py. Cache has compute_cache_key and the methods of
--   NamespaceCompressionCache, Hits the proofs.
-- * Memory, backend/services/memory_service.py with backend/services/namespace_matcher.py,
--   backend/core/tenancy.py, backend/services/provenance_service.py and kemory/utils/text.py. Schema
--   has the rows, settings and errors, Tenancy the filter that every SELECT of memories passes,
--   Matcher and Resolve the namespace matcher, Dedup the content hash, _find_by_hash,
--   _find_semantic_duplicate, _handle_dedup_match and emit_event, Access get_memory, update_memory
--   and delete_memory, Insert and Create create_memory, Listing list_namespace_raw,
--   get_memory_history and get_last_event. It asks the model of the Gatekeeper and
--   writes to that of the audit log. Similar, Ending, Ways, Stages and Entry say which
--   ways a call of create_memory can take, Changes and Creation what each operation does to the
--   table; Lifecycle has the operations, one call after the other, as one relation. Keys, View,
--   Conflicts, Refines, Expired, Hidden, Targets, Table, Unique and Deletion are proofs.
-- * Teams, backend/services/team_resolver.py. Resolver has get_team_ids, invalidate and
--   invalidate_for_org over the two caches, Processes the calls of several processes as one
--   relation; Freshness and Dropping are proofs.
-- * Orgs, backend/services/org_role_resolver.py and backend/core/active_org.py. Resolver has
--   resolve_org_role and the invalidations over the two caches and the endpoint of core_backend,
--   ActiveOrg resolve_active_org; Granting is proofs.
-- * Prelude has texts, dicts and lists; Tests has tests and instances of the theorems.
--
-- Conventions: a str is the list of its code points, a dict an association list in insertion order,
-- a UUID a number, a time a number of microseconds since the epoch; the local storage keeps its
-- times and identifiers as texts. A method takes the state, the times that it reads from the clock
-- and the identifiers that it draws, and returns its result with the new state. What a method
-- assigned before it raised stays in the returned state: it is the state of the session, which the
-- request's handler rolls back.
-- What is not in the repository is a parameter: uuid.UUID, fnmatch, the order in which the database
-- returns rows (Gatekeeper.Schema.Env), Redis (Pair.Race.Redis), SHA-256 and the formats of times
-- (Audit.Schema.Env), floats and embeddings (Local.Schema.Env), tokenizers
-- (Digest.Budget.Encoding), the encoder, difflib, Unicode and the table of vectors
-- (Memory.Schema.Env), cachetools (Teams.Resolver.Cachetools, Orgs.Resolver.Bounded) and the
-- answers of core_backend (Orgs.Resolver.Response), json and str (Aaak.Record.JsonCodec).
--
-- Bounds and fuel: the token pattern of a memory line runs on fuel for the characters of the body,
-- each of its rounds takes at least one, and the round trip shows that the fuel is enough.
--
-- A flush of the memory service fails only by the unique index over (user_id, namespace,
-- content_hash) of the active memories; rows that other requests commit while a call runs are an
-- argument of the call. The index is the partial one of PostgreSQL. The tenant filter is modelled
-- for memories and chats; the tables of the Gatekeeper and the audit log are those of one
-- organisation.
--
-- Not modelled: routes, MCP tools, the command line, migrations, network clients, failing SQL
-- statements, the search of the local storage. Of the rows, fields that no modelled function
-- reads. Of the line format the substitution table. Of a rule's conditions values that are not of
-- the documented types, at which evaluate raises.
pub mod Prelude
pub mod Compression
pub mod Digest
pub mod Gatekeeper
pub mod Local
pub mod Memory
pub mod Pair
pub mod Teams
pub mod Orgs
pub mod Aaak
pub mod Audit
pub mod Tests
