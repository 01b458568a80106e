-- ===== src/Memory/Ways.antt =====
-- The last part of `create_memory` comes to one of the cases of Ending.
use kemory_community.Prelude.{
  ◌≡◌, refl, ap, ◌∙◌, ◌⊎◌, inl, inr, Text, Bool, true, Option, none, some, List, [], ◌∷◌, ◌++◌,
  Bool-cases, Option-cases,
}
use kemory_community.Memory.Schema.{
  Env, Memory, MemoryCreate, MemoryResponse, exact_hash, semantic, Scope, Db, Settings, Failure,
  Answer, ok, raised, bad_timestamp, bad_uuid, Call,
}
use kemory_community.Memory.Dedup.{
  content_hash, find_by_hash, assign, count_access, handle_dedup_match, emit_event, org_or_legacy,
  dedup_response,
}
use kemory_community.Memory.Access.{holds_key}
use kemory_community.Memory.Insert.{
  build_memory, parse_time, parse_team, insert_memory, recover, finish, new_memory, with_arrived,
  replace_z, upsert_memory_vector,
}
use kemory_community.Memory.Create.{write, exact_gate, semantic_gate, after_semantic}
use kemory_community.Memory.Similar.{OwnMatch, similar-Own}
use kemory_community.Memory.Ending.{
  Answer-cases, found_in, HasKey, Ending, refused, ambiguous, unseen, matched, similar, inserted,
}

upsert-memories :
    {env : Env} (s : Settings env) (m : Memory env) (db : Db env)
    → (upsert_memory_vector s m db).memories ≡ db.memories
unfolding upsert_memory_vector
upsert-memories {env = env} s m db = elim (Option-cases m.embedding) [
  | inl e ↦ rw (upsert_memory_vector, e) refl
  | inr (v, e) ↦
      elim (Option-cases (
        env.upsert m.memory_id m.namespace m.user_id (org_or_legacy s m.org_id) v m.content_type
          db.vectors)) [
            | inl f ↦ rw (upsert_memory_vector, e, f) refl
            | inr (w, f) ↦ rw (upsert_memory_vector, e, f) refl
          ]
]

finish-memories :
    {env : Env} (s : Settings env) (call : Call) (m : Memory env) (scope : Scope) (db : Db env)
    → (finish s call m scope db).memories ≡ db.memories
unfolding finish emit_event
finish-memories s call m scope db = upsert-memories s m db

module _ {env : Env} (s : Settings env) (call : Call) (request : MemoryCreate)
    (org_id redirected_from : Option Text) (arrived : List (Memory env)) (scope : Scope)
    (start db : Db env) (same : start.memories ≡ db.memories) where
  abbrev hash : Text
  hash = content_hash env request.content

  abbrev Out : Answer env (MemoryResponse env) × Db env → Type 0
  Out p = Ending call request.namespace hash scope db.memories arrived p

  abbrev table : List (Memory env)
  table = db.memories ++ arrived

  abbrev found : List (Memory env) → Answer env (Option (Memory env))
  found rs = found_in call request.namespace hash scope db.memories arrived rs

  recover_finds :
      (m : Memory env)
      → HasKey call request.namespace hash scope db.memories arrived m
      → find_by_hash call.user_id m.namespace m.content_hash scope (with_arrived arrived db start)
        ≡ found table
  unfolding find_by_hash
  recover_finds m (id, user, ns, h, active) = rw (ns, h, same) refl

  recover-Out :
      (m : Memory env)
      → HasKey call request.namespace hash scope db.memories arrived m
      → holds_key m table ≡ true
      → Out (recover call m scope (with_arrived arrived db start))
  unfolding recover handle_dedup_match emit_event
  recover-Out m key taken =
      let finds = recover_finds m key in
      let kept = ap (λ l. l ++ arrived) same in
      elim (Answer-cases (found table)) [
        | inl (f, e) ↦
            ambiguous table f (inr refl) e (rw (recover, finds ∙ e) refl)
              (rw (recover, finds ∙ e) kept)
        | inr (none, e) ↦
            unseen m key taken e (rw (recover, finds ∙ e) refl) (rw (recover, finds ∙ e) kept)
        | inr (some x, e) ↦
            matched table x (dedup_response call x exact_hash) (inr refl) e
              (rw (recover, finds ∙ e) refl) refl refl
              (rw (recover, finds ∙ e) (ap (assign x.memory_id (count_access call.now)) kept))
      ]

  insert-Out :
      (m : Memory env) (skipped : Bool)
      → HasKey call request.namespace hash scope db.memories arrived m
      → Out (insert_memory s call m skipped redirected_from arrived scope start db)
  unfolding insert_memory content_hash
  insert-Out m skipped key = elim (Bool-cases (holds_key m table)) [
    | inl taken ↦ rw (insert_memory, taken) (recover-Out m key taken)
    | inr free ↦
        rw (insert_memory, free)
          (inserted m _ key free refl refl refl (finish-memories s call m scope _))
  ]

  abbrev IsHarmless : Failure env → Type 0
  IsHarmless f = (f ≡ bad_timestamp) ⊎ (f ≡ bad_uuid)

  abbrev Parsed : {A : Type 0} → Answer env A → Type 0
  Parsed {A = A} a = ((f : Failure env) × IsHarmless f × (a ≡ raised f)) ⊎ ((x : A) × (a ≡ ok x))

  parse_time-Parsed : (t : Option Text) → Parsed (parse_time {env = env} t)
  unfolding parse_time
  parse_time-Parsed none = inr (none, refl)
  parse_time-Parsed (some []) = inr (none, refl)
  parse_time-Parsed (some (c ∷ t)) =
      elim (Option-cases (env.log.fromisoformat (replace_z (c ∷ t)))) [
        | inl e ↦ inl (bad_timestamp, inl refl, rw (parse_time, e) refl)
        | inr (n, e) ↦ inr (some n, rw (parse_time, e) refl)
      ]

  parse_team-Parsed : (t : Option Text) → Parsed (parse_team {env = env} t)
  unfolding parse_team
  parse_team-Parsed none = inr (none, refl)
  parse_team-Parsed (some []) = inr (none, refl)
  parse_team-Parsed (some (c ∷ t)) = elim (Option-cases (env.gate.parse_uuid (c ∷ t))) [
    | inl e ↦ inl (bad_uuid, inr refl, rw (parse_team, e) refl)
    | inr (n, e) ↦ inr (some n, rw (parse_team, e) refl)
  ]

  abbrev Built : Answer env (Memory env) → Type 0
  Built a =
      ((f : Failure env) × IsHarmless f × (a ≡ raised f))
      ⊎ ((m : Memory env) × HasKey call request.namespace hash scope db.memories arrived m
          × (a ≡ ok m))

  build-Built :
      (v : Option (List env.Float)) → Built (build_memory {env = env} s call request org_id v)
  unfolding build_memory
  build-Built v = elim (parse_time-Parsed request.valid_at) [
    | inl (f, harmless, e) ↦ inl (f, harmless, rw (build_memory, e) refl)
    | inr (valid_at, e) ↦ elim (parse_time-Parsed request.occurred_at) [
      | inl (f, harmless, e') ↦ inl (f, harmless, rw (build_memory, e, e') refl)
      | inr (occurred_at, e') ↦ elim (parse_team-Parsed request.team_id) [
        | inl (f, harmless, e'') ↦ inl (f, harmless, rw (build_memory, e, e', e'') refl)
        | inr (team_id, e'') ↦ inr (
          new_memory s call request org_id v valid_at occurred_at team_id,
          (refl, refl, refl, refl, refl),
          rw (build_memory, e, e', e'') refl,
        )
      ]
    ]
  ]

  after-Out :
      (o : Option (Memory env × env.Float)) (v : Option (List env.Float)) (skipped : Bool)
      → OwnMatch call.user_id request.namespace db.memories o
      → Out (
          after_semantic {env = env} s call request org_id redirected_from arrived scope start db
            (o, v, skipped))
  unfolding after_semantic handle_dedup_match emit_event
  after-Out (some (m, score)) v skipped own =
      similar m score (dedup_response call m (semantic score)) own refl refl refl refl
  after-Out none v skipped own = elim (build-Built v) [
    | inl (f, harmless, e) ↦ rw (after_semantic, e) (refused f harmless refl refl)
    | inr (m, key, e) ↦ rw (after_semantic, e) (insert-Out m skipped key)
  ]

  gate-Own :
      OwnMatch call.user_id request.namespace db.memories
        (semantic_gate {env = env} s call.user_id request scope db).0
  unfolding semantic_gate
  gate-Own = elim (Bool-cases s.dedup_semantic_enabled) [
    | inr f ↦ rw f tt
    | inl t ↦ elim (Option-cases (env.encode request.content)) [
      | inl e ↦ rw (t, e) tt
      | inr (v, e) ↦ rw (t, e) (similar-Own call.user_id request.namespace scope db s v)
    ]
  ]

  exact_finds :
      (exact_gate s call.user_id request scope db ≡ found db.memories)
      ⊎ (exact_gate s call.user_id request scope db ≡ ok none)
  unfolding exact_gate find_by_hash
  exact_finds = elim (Bool-cases s.dedup_exact_enabled) [
    | inl t ↦ inl (rw (exact_gate, t) refl)
    | inr f ↦ inr (rw (exact_gate, f) refl)
  ]

  similar_or_inserted :
      exact_gate s call.user_id request scope db ≡ ok none
      → Out (write s call request org_id redirected_from arrived scope start db)
  unfolding write
  similar_or_inserted e = rw (write, e) (after-Out _ _ _ gate-Own)

  -- The last part of `create_memory` ends in one of the cases.
  pub write-Ending : Out (write s call request org_id redirected_from arrived scope start db)
  unfolding write handle_dedup_match emit_event
  write-Ending = elim exact_finds [
    | inr e ↦ similar_or_inserted e
    | inl searched ↦ elim (Answer-cases (found db.memories)) [
      | inl (f, e) ↦ rw (write, searched ∙ e) (ambiguous db.memories f (inl refl) e refl refl)
      | inr (none, e) ↦ similar_or_inserted (searched ∙ e)
      | inr (some x, e) ↦
          rw (write, searched ∙ e)
            (matched db.memories x (dedup_response call x exact_hash) (inl refl) e refl refl refl
              refl)
    ]
  ]
