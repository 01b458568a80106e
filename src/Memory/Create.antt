-- ===== src/Memory/Create.antt =====
-- `create_memory` of backend/services/memory_service.py: the Gatekeeper, the namespace matcher, the
-- two layers of the deduplication and the INSERT.
use kemory_community.Prelude.{
  ℕ, Text, text, text_eq, text_in, Bool, true, false, not, Option, none, some, List, if◌then◌else◌,
}
use kemory_community.Memory.Schema.{
  Env, Memory, MemoryCreate, MemoryResponse, exact_hash, semantic, Scope, Db, Settings, Answer, ok,
  raised, invalid_content_type, related_namespace, Call,
}
use kemory_community.Memory.Resolve.{
  NamespaceResolution, auto_redirect, suggest, create_new, resolve_namespace, apply_resolution,
}
use kemory_community.Memory.Dedup.{
  content_hash, find_by_hash, find_semantic_duplicate, handle_dedup_match,
}
use kemory_community.Memory.Access.{valid_content_types, check_access}
use kemory_community.Memory.Insert.{build_memory, insert_memory}

-- The search for a similar memory, the embedding, and whether the search was skipped.
unfoldable pub semantic_gate :
    {env : Env}
    → Settings env
    → ℕ
    → MemoryCreate
    → Scope
    → Db env
    → Option (Memory env × env.Float) × Option (List env.Float) × Bool
unfolding find_semantic_duplicate
semantic_gate {env = env} s user_id request scope db =
    if s.dedup_semantic_enabled
    then elim (env.encode request.content) [
      | none ↦ (none, none, true)
      | some v ↦ (
        find_semantic_duplicate {env = env} s user_id request.namespace v scope db,
        some v,
        false,
      )
    ]
    else (none, env.encode request.content, false)

-- The INSERT, where no memory was similar.
unfoldable pub after_semantic :
    {env : Env}
    → Settings env
    → Call
    → MemoryCreate
    → Option Text
    → Option Text
    → List (Memory env)
    → Scope
    → Db env
    → Db env
    → Option (Memory env × env.Float) × Option (List env.Float) × Bool
    → Answer env (MemoryResponse env) × Db env
unfolding handle_dedup_match build_memory insert_memory
after_semantic s call request org_id redirected_from arrived scope start db
      (some (m, score), v, skipped) =
    let (response, db') = handle_dedup_match call m (semantic score) db in (ok response, db')
after_semantic s call request org_id redirected_from arrived scope start db (none, v, skipped) =
    elim (build_memory s call request org_id v) [
      | raised f ↦ (raised f, db)
      | ok m ↦ insert_memory s call m skipped redirected_from arrived scope start db
    ]

unfoldable pub exact_gate :
    {env : Env}
    → Settings env
    → ℕ
    → MemoryCreate
    → Scope
    → Db env
    → Answer env (Option (Memory env))
unfolding find_by_hash content_hash
exact_gate {env = env} s user_id request scope db =
    if s.dedup_exact_enabled
    then find_by_hash user_id request.namespace (content_hash env request.content) scope db
    else ok none

-- The two layers of the deduplication and the INSERT.
unfoldable pub write :
    {env : Env}
    → Settings env
    → Call
    → MemoryCreate
    → Option Text
    → Option Text
    → List (Memory env)
    → Scope
    → Db env
    → Db env
    → Answer env (MemoryResponse env) × Db env
unfolding exact_gate semantic_gate after_semantic handle_dedup_match
write s call request org_id redirected_from arrived scope start db =
    elim (exact_gate s call.user_id request scope db) [
      | raised f ↦ (raised f, db)
      | ok found ↦ elim found [
        | some e ↦
            let (response, db') = handle_dedup_match call e exact_hash db in (ok response, db')
        | none ↦
            after_semantic s call request org_id redirected_from arrived scope start db
              (semantic_gate s call.user_id request scope db)
      ]
    ]

abbrev redirect_of : {env : Env} → MemoryCreate → NamespaceResolution env → Option Text
redirect_of request resolution = elim resolution.action [
  | auto_redirect ↦
      if text_eq resolution.namespace request.namespace then none else some request.namespace
  | _ ↦ none
]

abbrev pub in_namespace : MemoryCreate → Text → MemoryCreate
in_namespace request ns = record request { namespace = ns }

-- The namespace that the memory is written to and the one that was asked for, if it was another. The
-- source goes on with the requested namespace where the matcher raises any other error; here it
-- raises none.
unfoldable pub match_namespace :
    {env : Env} → Call → MemoryCreate → Scope → Db env → Answer env (Text × Option Text) × Db env
unfolding resolve_namespace apply_resolution
match_namespace call request scope db =
    if request.allow_duplicate
    then (ok (request.namespace, none), db)
    else let resolution =
        resolve_namespace call.user_id request.namespace request.namespace_description scope db in
      let db' = apply_resolution resolution request.namespace_description call.now db in
      elim resolution.action [
        | suggest ↦ (raised (related_namespace request.namespace resolution.candidates), db)
        | create_new ↦ (ok (request.namespace, none), db')
        | _ ↦ (ok (resolution.namespace, redirect_of request resolution), db')
      ]

unfoldable pub create_memory :
    {env : Env}
    → Settings env
    → Call
    → MemoryCreate
    → Option Text
    → List (Memory env)
    → Scope
    → Db env
    → Answer env (MemoryResponse env) × Db env
unfolding check_access match_namespace write text_in
create_memory s call request org_id arrived scope db =
    let (admitted, db1) = check_access call (text "memory:write") request.namespace db in
    elim admitted [
      | raised f ↦ (raised f, db1)
      | ok u ↦
          if not (text_in request.content_type valid_content_types)
          then (raised invalid_content_type, db1)
          else let (matched, db2) = match_namespace call request scope db1 in
            elim matched [
              | raised f ↦ (raised f, db2)
              | ok target ↦
                  write s call (in_namespace request target.0) org_id target.1 arrived scope db db2
            ]
    ]
