-- ===== src/Tests/Memory.antt =====
-- Tests of the memory service.
mod World
use kemory_community.Prelude.{
  ℕ, ◌≡◌, ◌≢◌, ◌⊎◌, refl, text_in, text_eq, true, false, none, some, [], ◌∷◌, ◌++◌, text, Text,
  List, In, here, arith, Option,
}
use kemory_community.Gatekeeper.Schema.{PermissionRule}
use kemory_community.Memory.Schema.{
  Answer, Memory, MemoryResponse, MemoryCreate, Db, Call, ok, raised, exact_hash, integrity_error,
  multiple_results, memory_expired, memory_not_found, access_denied,
}
use kemory_community.Memory.Dedup.{content_hash, dedup_response}
use kemory_community.Memory.Access.{check_access, get_memory, delete_memory, update_memory}
use kemory_community.Memory.Resolve.{resolve_namespace}
use kemory_community.Memory.Create.{create_memory}
use kemory_community.Memory.Stages.{Allowed}
use kemory_community.Memory.Entry.{create-Allowed}
use kemory_community.Memory.Conflicts.{create_no_conflict}
use kemory_community.Memory.Hidden.{create_hidden}
use kemory_community.Memory.Expired.{create_expired}
use kemory_community.Memory.Refines.{Refines, create_refines}
use kemory_community.Memory.Targets.{HasNamespace, resolve_owned}
use kemory_community.Gatekeeper.Scope.{
  applies, matches_agent, matches_scope, matches_namespace, matches_conditions,
}
use kemory_community.Gatekeeper.Evaluate.{decide, fetch_rules}
use kemory_community.Memory.Schema.{Scope, Settings}
use kemory_community.Memory.Tenancy.{is_readable, memory_predicate, select_memories}
use kemory_community.Memory.Dedup.{normalize_content, has_hash, find_by_hash, scalar_one_or_none}
use kemory_community.Memory.Matcher.{existing_namespaces, set_default, normalize}
use kemory_community.Memory.Access.{is_addressed}
use kemory_community.Memory.Deletion.{delete_gone}
use kemory_community.Memory.Keys.{HasKeys}
use kemory_community.Memory.Table.{Fresh, UniqueIds, own}
use kemory_community.Memory.Lifecycle.{Op, Reach, NotBy, IsKeyed, run, Reach-IsKeyed}
use kemory_community.Memory.Conflicts.{SeesOwn}
use kemory_community.Tests.Gatekeeper.Order.{sort}
use World.{env, tea, allow, world, in_org, defaults, call, ask_tea}

granted :
    (rows : List (Memory env))
    → (check_access call (text "memory:write") (text "home") (world rows)).0 ≡ ok tt
unfolding check_access decide fetch_rules sort applies matches_agent matches_scope matches_namespace
    matches_conditions
granted rows = refl

abbrev again : List (Memory env) → Scope → Answer env (MemoryResponse env) × Db env
again rows scope = create_memory defaults call ask_tea (some (text "org")) [] scope (world rows)

abbrev home : Scope
home = in_org (text "org")

again_result : (again (tea ∷ []) home).0 ≡ ok (dedup_response call tea exact_hash)
unfolding create_memory decide fetch_rules sort applies matches_agent matches_scope
    matches_namespace matches_conditions normalize_content is_readable memory_predicate
again_result = refl

create-Allowed_example :
    Allowed env call (text "memory:write") (text "home") (world (tea ∷ [])).vault
create-Allowed_example =
    create-Allowed defaults call ask_tea (some (text "org")) [] home (world (tea ∷ []))
      (dedup_response call tea exact_hash) refl again_result

-- The row of another request with another content.
abbrev coffee : Memory env
coffee = record tea {
  memory_id = 3;
  content = text "coffee";
  content_hash = content_hash env (text "coffee");
}

distinct : HasKeys (tea ∷ coffee ∷ [])
unfolding has_hash content_hash normalize_content text_eq
distinct = (λ a. (refl, tt), (λ a. tt, tt))

own_rows : SeesOwn call home (tea ∷ coffee ∷ [])
unfolding is_readable memory_predicate text_eq
own_rows = (λ u a. refl, (λ u a. refl, tt))

create_no_conflict_example :
    ((create_memory defaults call ask_tea
        (some (text "org"))
        (coffee ∷ [])
        home
        (world (tea ∷ []))).0
      ≢ raised integrity_error)
    × ((create_memory defaults call ask_tea
          (some (text "org"))
          (coffee ∷ [])
          home
          (world (tea ∷ []))).0
        ≢ raised multiple_results)
create_no_conflict_example =
    create_no_conflict defaults call ask_tea (some (text "org")) (coffee ∷ []) home
      (world (tea ∷ [])) distinct own_rows

-- A race: the same content arrives while the request runs, and is found after the rollback.
race :
    (create_memory defaults call ask_tea (some (text "org")) (tea ∷ []) home (world [])).0
    ≡ ok (dedup_response call tea exact_hash)
unfolding create_memory decide fetch_rules sort applies matches_agent matches_scope
    matches_namespace matches_conditions normalize_content is_readable memory_predicate
race = refl

create_refines_example :
    (namespace : Text) × Refines call namespace
      (content_hash env (text " tea "))
      (tea ∷ [])
      (again (tea ∷ []) home).1.memories
      (dedup_response call tea exact_hash)
create_refines_example =
    create_refines defaults call ask_tea (some (text "org")) home (world (tea ∷ []))
      (dedup_response call tea exact_hash) (λ a. tt, tt) again_result

same_hash : has_hash 7 (text "home") (content_hash env (text " tea ")) tea ≡ true
unfolding has_hash content_hash normalize_content text_eq
same_hash = refl

unread : is_readable (in_org (text "other")) tea ≡ false
unfolding is_readable memory_predicate text_eq
unread = refl

abbrev exact_only : Settings env
exact_only = record defaults { dedup_semantic_enabled = false }

create_hidden_example :
    (create_memory exact_only call ask_tea
      (some (text "other"))
      []
      (in_org (text "other"))
      (world (tea ∷ []))).0
    ≡ raised integrity_error
unfolding text_in text_eq
create_hidden_example =
    create_hidden exact_only call ask_tea (some (text "other")) (in_org (text "other"))
      (world (tea ∷ [])) tea (λ a. tt, tt) (here refl) same_hash unread refl refl refl refl refl
      refl (granted (tea ∷ []))

abbrev stale : Memory env
stale = record tea { expires_at = some 500 }

finds_stale :
    find_by_hash 7 (text "home") (content_hash env (text " tea ")) home (world (stale ∷ []))
    ≡ ok (some stale)
unfolding find_by_hash content_hash normalize_content is_readable memory_predicate text_eq
finds_stale = refl

addresses_stale :
    scalar_one_or_none (select_memories home (is_addressed false 7 1) (world (stale ∷ [])))
    ≡ ok (some stale)
unfolding scalar_one_or_none is_addressed is_readable memory_predicate text_eq
addresses_stale = refl

create_expired_example :
    ((again (stale ∷ []) home).0 ≡ ok (dedup_response call stale exact_hash))
    × ((get_memory 1 (record call { now = 2_000 }) home (again (stale ∷ []) home).1).0
        ≡ raised memory_expired)
unfolding text_in text_eq
create_expired_example =
    create_expired defaults call (record call { now = 2_000 }) ask_tea (some (text "org")) [] home
      (world (stale ∷ [])) stale 500 finds_stale addresses_stale refl (omega arith) (omega arith)
      refl refl refl refl (granted (stale ∷ []))

resolve_owned_example :
    let resolution = resolve_namespace 7 (text "home!") none home (world (tea ∷ [])) in
    (resolution.namespace ≡ text "home!")
    ⊎ HasNamespace 7 home (world (tea ∷ [])) resolution.namespace
resolve_owned_example = resolve_owned 7 home (world (tea ∷ [])) (text "home!") none

-- A rule that forbids the namespace "home" is not asked about where "home!" is requested: the memory
-- is found and answered in "home".
abbrev guarded : Db env
guarded = record (world (tea ∷ [])) {
  vault = record {
    rules =
        record allow {
          rule_id = 4;
          action = text "deny";
          priority = 1;
          namespace_filter = some (text "home");
        }
        ∷ allow
        ∷ [];
    consents = [];
    agents = [];
  };
}

denied : (check_access call (text "memory:write") (text "home") guarded).0 ≡ raised access_denied
unfolding check_access decide fetch_rules sort applies matches_agent matches_scope matches_namespace
    matches_conditions
denied = refl

reached_by_another_name :
    (create_memory defaults call
      (record ask_tea { namespace = text "home!"; allow_duplicate = false })
      (some (text "org"))
      []
      home
      guarded).0
    ≡ ok (dedup_response call tea exact_hash)
unfolding create_memory decide fetch_rules sort applies matches_agent matches_scope
    matches_namespace matches_conditions normalize_content is_readable memory_predicate
    existing_namespaces set_default normalize
reached_by_another_name = refl

-- User 7 deletes the memory and stores its content anew; user 8 has the same in the same namespace.
abbrev guest : Memory env
guest = record tea { memory_id = 9; user_id = 8 }

abbrev both : List (Memory env)
both = tea ∷ guest ∷ []

abbrev deleted_tea : Db env
deleted_tea = run defaults call home (Op.delete 1 false) (world both)

abbrev next_call : Call
next_call = record call { memory_id = 3; now = 1_001 }

unused_id : Fresh 3 deleted_tea.memories
unfolding run delete_memory decide fetch_rules sort applies matches_agent matches_scope
    matches_namespace matches_conditions is_readable memory_predicate text_eq
unused_id = (refl, (refl, tt))

abbrev replaced : Db env
replaced = run defaults next_call home (Op.create ask_tea (some (text "org"))) deleted_tea

abbrev trace : Reach (world both) replaced
trace =
    Reach.step defaults next_call home (Op.create ask_tea (some (text "org")))
      (Reach.step defaults call home (Op.delete 1 false) Reach.start (refl, (refl, tt))) unused_id

keyed : IsKeyed both
unfolding has_hash
keyed = ((λ a. (refl, tt), (λ a. tt, tt)), ((refl, tt), (tt, tt)))

Reach-IsKeyed_example :
    IsKeyed replaced.memories × (NotBy 8 trace → own 8 replaced.memories ≡ own 8 both)
Reach-IsKeyed_example = Reach-IsKeyed (world both) replaced 8 trace keyed

abbrev emptied : Db env
emptied = (delete_memory 1 call false home (world both)).1

emptied_ok : (delete_memory 1 call false home (world both)).0 ≡ ok tt
unfolding delete_memory decide fetch_rules sort applies matches_agent matches_scope
    matches_namespace matches_conditions is_readable memory_predicate text_eq
emptied_ok = refl

emptied_unused : Fresh 3 emptied.memories
unfolding delete_memory decide fetch_rules sort applies matches_agent matches_scope
    matches_namespace matches_conditions is_readable memory_predicate text_eq
emptied_unused = (refl, (refl, tt))

delete_gone_example :
    (get_memory 1 next_call home
      (run defaults next_call home (Op.create ask_tea (some (text "org"))) emptied)).0
    ≡ raised memory_not_found
delete_gone_example =
    delete_gone 1 call next_call false home home (world both) _ keyed (refl, (refl, tt)) emptied_ok
      (Reach.step defaults next_call home (Op.create ask_tea (some (text "org"))) Reach.start
        emptied_unused)
