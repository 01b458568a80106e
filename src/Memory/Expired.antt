-- ===== src/Memory/Expired.antt =====
-- A memory that has expired, and a new one with the same content.
use kemory_community.Prelude.{
  ℕ, ◌≡◌, ◌<◌, ◌≤◌, refl, ap, ◌∙◌, Text, text, text_in, Bool, true, false, ◌&&◌, Option, none, some,
  List, [], ◌∷◌, keep, Bool-cases, ◌==◌, inl, inr, arith,
}
use kemory_community.Memory.Schema.{
  Env, Memory, MemoryCreate, exact_hash, Scope, Db, Settings, ok, raised, memory_expired, Call,
}
use kemory_community.Memory.Tenancy.{is_readable, memory_predicate, select_memories}
use kemory_community.Memory.Dedup.{
  content_hash, scalar_one_or_none, find_by_hash, assign, count_access, emit_event, dedup_response,
  handle_dedup_match,
}
use kemory_community.Memory.Access.{
  check_access, valid_content_types, is_addressed, get_active_memory, get_memory,
}
use kemory_community.Memory.Create.{write, exact_gate, create_memory}
use kemory_community.Memory.Stages.{check-memories}
use kemory_community.Memory.Entry.{create_direct}
use kemory_community.Memory.Keys.{scalar_one}

module _ {env : Env} (id : ℕ) (g : Memory env → Memory env) where
  -- A query whose condition the assignment does not touch finds the assigned rows.
  pub keep-assign :
      (p : Memory env → Bool)
      → ((m : Memory env) → p (g m) ≡ p m)
      → (ms : List (Memory env)) → keep p (assign id g ms) ≡ assign id g (keep p ms)
  unfolding assign
  keep-assign p same [] = refl
  keep-assign p same (m ∷ ms) = elim (Bool-cases (m.memory_id == id)) [
    | inl e ↦ elim (Bool-cases (p m)) [
      | inl t ↦ rw (assign, e, same m, t, assign, e) (ap (λ l. g m ∷ l) (keep-assign p same ms))
      | inr f ↦ rw (assign, e, same m, f) (keep-assign p same ms)
    ]
    | inr d ↦ elim (Bool-cases (p m)) [
      | inl t ↦ rw (assign, d, t, assign, d) (ap (λ l. m ∷ l) (keep-assign p same ms))
      | inr f ↦ rw (assign, d, f) (keep-assign p same ms)
    ]
  ]

module _ {env : Env} (now : ℕ) (e : Memory env) (scope : Scope) where
  addressed-count :
      (user_id : ℕ) (m : Memory env)
      → (is_addressed false user_id e.memory_id (count_access now m)
          && is_readable scope (count_access now m))
        ≡ (is_addressed false user_id e.memory_id m && is_readable scope m)
  unfolding is_addressed count_access is_readable memory_predicate
  addressed-count user_id m = refl

  -- After the access is counted the row is found as before.
  finds_touched :
      (user_id : ℕ) (rows : List (Memory env)) (db' : Db env)
      → scalar_one_or_none
          (keep (λ m. is_addressed false user_id e.memory_id m && is_readable scope m) rows)
        ≡ ok (some e)
      → db'.memories ≡ assign e.memory_id (count_access now) rows
      → scalar_one_or_none (select_memories scope (is_addressed false user_id e.memory_id) db')
        ≡ ok (some (count_access now e))
  unfolding scalar_one_or_none assign
  finds_touched user_id rows db' finds touched =
      let one = scalar_one _ e finds in
      let kept =
        keep-assign e.memory_id (count_access now)
          (λ m. is_addressed false user_id e.memory_id m && is_readable scope m)
          (addressed-count user_id) rows in
      rw (touched, kept, one) ground arith

  expired_fails :
      (call : Call) (t : ℕ) (db' : Db env)
      → scalar_one_or_none (select_memories scope (is_addressed false call.user_id e.memory_id) db')
        ≡ ok (some (count_access now e))
      → e.expires_at ≡ some t
      → t < call.now
      → (get_memory e.memory_id call scope db').0 ≡ raised memory_expired
  unfolding get_memory get_active_memory count_access
  expired_fails call t db' finds limit late =
      rw (get_memory, get_active_memory, finds, limit) ground arith

dedup-memories :
    {env : Env} (call : Call) (e : Memory env) (db : Db env)
    → (handle_dedup_match call e exact_hash db).1.memories
      ≡ assign e.memory_id (count_access call.now) db.memories
unfolding handle_dedup_match emit_event
dedup-memories call e db = refl

write_matched :
    {env : Env} (s : Settings env) (call : Call) (request : MemoryCreate) (org_id : Option Text)
    (arrived : List (Memory env)) (scope : Scope) (db db2 : Db env) (e : Memory env)
    → db2.memories ≡ db.memories
    → s.dedup_exact_enabled ≡ true
    → find_by_hash call.user_id request.namespace (content_hash env request.content) scope db
      ≡ ok (some e)
    → write s call request org_id none arrived scope db db2
      ≡ (ok (dedup_response call e exact_hash), (handle_dedup_match call e exact_hash db2).1)
unfolding write exact_gate find_by_hash handle_dedup_match
write_matched {env = env} s call request org_id arrived scope db db2 e kept on finds =
    let gate : exact_gate s call.user_id request scope db2 ≡ ok (some e) =
      rw (exact_gate, on, find_by_hash, kept) finds in
    rw (write, gate) refl

-- A call that the Gatekeeper allows for the requested namespace, with allow_duplicate, a valid content
-- type and the exact layer of the deduplication on, answers with the memory that the search by hash
-- finds, even if its time is over. If it is over, and the identifier leads the user to this memory, a
-- get_memory of the same user under the same tenant filter right after the call, at its time or later,
-- fails because the memory has expired.
pub create_expired :
    {env : Env} (s : Settings env) (call later : Call) (request : MemoryCreate)
    (org_id : Option Text) (arrived : List (Memory env)) (scope : Scope) (db : Db env)
    (e : Memory env) (t : ℕ)
    → find_by_hash call.user_id request.namespace (content_hash env request.content) scope db
      ≡ ok (some e)
    → scalar_one_or_none (select_memories scope (is_addressed false call.user_id e.memory_id) db)
      ≡ ok (some e)
    → e.expires_at ≡ some t
    → t < call.now
    → call.now ≤ later.now
    → later.user_id ≡ call.user_id
    → s.dedup_exact_enabled ≡ true
    → request.allow_duplicate ≡ true
    → text_in request.content_type valid_content_types ≡ true
    → (check_access call (text "memory:write") request.namespace db).0 ≡ ok tt
    → let (answer, db') = create_memory s call request org_id arrived scope db in
      (answer ≡ ok (dedup_response call e exact_hash))
      × ((get_memory e.memory_id later scope db').0 ≡ raised memory_expired)
create_expired {env = env} s call later request org_id arrived scope db e t finds addressed limit
      over late own on direct valid granted =
    let kept = check-memories env call (text "memory:write") request.namespace db in
    let db2 = (check_access call (text "memory:write") request.namespace db).1 in
    let db' = (handle_dedup_match call e exact_hash db2).1 in
    let result : create_memory s call request org_id arrived scope db
        ≡ (ok (dedup_response call e exact_hash), db') =
      create_direct s call request org_id arrived scope db direct valid granted
      ∙ write_matched s call request org_id arrived scope db db2 e kept on finds in
    let found =
      finds_touched call.now e scope call.user_id db.memories db' addressed
        (dedup-memories call e db2 ∙ ap (assign e.memory_id (count_access call.now)) kept) in
    (
      ap (λ p. p.0) result,
      ap (λ p. (get_memory e.memory_id later scope p.1).0) result
          ∙ expired_fails call.now e scope later t db' (rw own found) limit
              (omega (arith, over, late)),
    )
