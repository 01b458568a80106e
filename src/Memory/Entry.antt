-- ===== src/Memory/Entry.antt =====
-- The parts of `create_memory` before the deduplication, as the cases of a call: it stops, or goes on
-- in the namespace of the matcher.
use kemory_community.Prelude.{
  ◌≡◌, refl, ap, ◌∙◌, ◌⊎◌, inl, inr, Text, text, text_in, true, false, Option, none, List,
  Bool-cases,
}
use kemory_community.Memory.Schema.{
  Env, Memory, MemoryCreate, MemoryResponse, Scope, Db, Settings, Failure, Answer, ok, raised,
  invalid_content_type, Call,
}
use kemory_community.Memory.Resolve.{NamespaceResolution, resolve_namespace, apply_resolution}
use kemory_community.Memory.Access.{check_access, valid_content_types}
use kemory_community.Memory.Create.{in_namespace, match_namespace, write, create_memory}
-- The errors that only a conflict of rows causes.
use kemory_community.Memory.Stages.{
  is_conflict, Allowed, action-cases, checked-Allowed, check-memories, check-cases,
}

module _ {env : Env} (s : Settings env) (call : Call) (request : MemoryCreate)
    (org_id : Option Text) (arrived : List (Memory env)) (scope : Scope) where
  apply-memories :
      (resolution : NamespaceResolution env) (description : Option Text) (db : Db env)
      → (apply_resolution resolution description call.now db).memories ≡ db.memories
  unfolding apply_resolution
  apply-memories resolution description db = elim (action-cases resolution.action) [
    | inl e ↦ rw (apply_resolution, e) refl
    | inr (inl e) ↦ rw (apply_resolution, e) refl
    | inr (inr (inl e)) ↦ rw (apply_resolution, e) refl
    | inr (inr (inr e)) ↦ rw (apply_resolution, e) refl
  ]

  -- What the matcher answers, and that it leaves the memories alone.
  abbrev Matched : Answer env (Text × Option Text) × Db env → Db env → Type 0
  Matched p db =
      (((f : Failure env) × (is_conflict f ≡ false) × (p.0 ≡ raised f))
        ⊎ ((target : Text × Option Text) × (p.0 ≡ ok target)))
      × (p.1.memories ≡ db.memories)

  match-Matched : (db : Db env) → Matched (match_namespace call request scope db) db
  unfolding match_namespace
  match-Matched db =
      let resolution =
        resolve_namespace call.user_id request.namespace request.namespace_description scope db in
      let kept = apply-memories resolution request.namespace_description db in
      elim (Bool-cases request.allow_duplicate) [
        | inl t ↦ rw (match_namespace, t) (inr ((request.namespace, none), refl), refl)
        | inr f ↦ elim (action-cases resolution.action) [
          | inl e ↦ rw (match_namespace, f, e) (inr (_, refl), kept)
          | inr (inl e) ↦ rw (match_namespace, f, e) (inr (_, refl), kept)
          | inr (inr (inl e)) ↦ rw (match_namespace, f, e) (inl (_, refl, refl), refl)
          | inr (inr (inr e)) ↦ rw (match_namespace, f, e) (inr (_, refl), kept)
        ]
      ]

  match_direct :
      (db : Db env)
      → request.allow_duplicate ≡ true
      → match_namespace call request scope db ≡ (ok (request.namespace, none), db)
  unfolding match_namespace
  match_direct db direct = rw (match_namespace, direct) refl

  module _ (db : Db env) where
    abbrev pub checked : Answer env Unit × Db env
    checked = check_access call (text "memory:write") request.namespace db

    -- `create_memory` stops before the deduplication, or goes on to it in the namespace of the matcher.
    pub data Way (p : Answer env (MemoryResponse env) × Db env) : Type 0 where
      stopped :
          (f : Failure env)
          → is_conflict f ≡ false
          → p.0 ≡ raised f
          → p.1.memories ≡ db.memories
          → Way p
      went_on :
          (namespace : Text) (redirected_from : Option Text) (db2 : Db env)
          → (check_access call (text "memory:write") request.namespace db).0 ≡ ok tt
          → db2.memories ≡ db.memories
          → p
            ≡ write s call
                (in_namespace request namespace)
                org_id
                redirected_from
                arrived
                scope
                db
                db2
          → Way p

    matched-Way :
        text_in request.content_type valid_content_types ≡ true
        → checked.0 ≡ ok tt
        → Way (create_memory s call request org_id arrived scope db)
    unfolding create_memory
    matched-Way valid granted =
        let kept = check-memories env call (text "memory:write") request.namespace db in
        let (answered, same) = match-Matched checked.1 in
        elim answered [
          | inl (f, harmless, e) ↦
              stopped f harmless (rw (create_memory, granted, valid, e) refl)
                (rw (create_memory, granted, valid, e) (same ∙ kept))
          | inr ((ns, redirected_from), e) ↦
              went_on ns redirected_from (match_namespace call request scope checked.1).1 granted
                (same ∙ kept) (rw (create_memory, granted, valid, e) refl)
        ]

    pub create-Way : Way (create_memory s call request org_id arrived scope db)
    unfolding create_memory
    create-Way =
        let kept = check-memories env call (text "memory:write") request.namespace db in
        elim (check-cases env call (text "memory:write") request.namespace db) [
          | inr (f, harmless, e) ↦
              stopped f harmless (rw (create_memory, e) refl) (rw (create_memory, e) kept)
          | inl e ↦ elim (Bool-cases (text_in request.content_type valid_content_types)) [
            | inl valid ↦ matched-Way valid e
            | inr wrong ↦
                stopped invalid_content_type refl (rw (create_memory, e, wrong) refl)
                  (rw (create_memory, e, wrong) kept)
          ]
        ]

    -- Without the matcher the memory is written to the namespace that was asked for.
    pub create_direct :
        request.allow_duplicate ≡ true
        → text_in request.content_type valid_content_types ≡ true
        → checked.0 ≡ ok tt
        → create_memory s call request org_id arrived scope db
          ≡ write s call request org_id none arrived scope db checked.1
    unfolding create_memory
    create_direct direct valid granted =
        let m = match_direct checked.1 direct in
        rw (create_memory, granted, valid, ap (λ p. p.0) m, ap (λ p. p.1) m) refl

    -- A memory is created, or found to be there already, only where an active rule of the user allows
    -- the agent to write to the namespace that it asked for.
    pub create-Allowed :
        (response : MemoryResponse env)
        → call.skip_gatekeeper ≡ false
        → (create_memory s call request org_id arrived scope db).0 ≡ ok response
        → Allowed env call (text "memory:write") request.namespace db.vault
    create-Allowed response asks result = elim create-Way [
      | stopped f harmless e kept ↦ cc (e, result)
      | went_on ns redirected_from db2 granted kept e ↦
          checked-Allowed env call (text "memory:write") request.namespace db asks granted
    ]
