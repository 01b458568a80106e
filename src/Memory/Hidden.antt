-- ===== src/Memory/Hidden.antt =====
-- A user's memory that the request does not read, as one of another organisation is, in the way of a
-- new one.
use kemory_community.Prelude.{
  ℕ, ◌≡◌, refl, sym, ap, ◌∙◌, Text, text, text_in, Bool, true, false, ◌&&◌, Option, none, List, [],
  ◌∷◌, ◌++◌, keep, In, here, there, In-append, Bool-cases, inl, inr, arith,
}
use mathlib.Core.List.{append-nil}
use kemory_community.Prelude.Order.{All-In}
use kemory_community.Memory.Schema.{
  Env, Memory, MemoryCreate, Scope, Db, Settings, ok, raised, integrity_error, Call,
}
use kemory_community.Memory.Tenancy.{is_readable}
use kemory_community.Memory.Dedup.{has_hash, content_hash, scalar_one_or_none, find_by_hash}
use kemory_community.Memory.Access.{check_access, valid_content_types, holds_key}
use kemory_community.Memory.Insert.{
  build_memory, parse_time, parse_team, insert_memory, recover, new_memory, with_arrived,
}
use kemory_community.Memory.Create.{write, exact_gate, semantic_gate, after_semantic, create_memory}
use kemory_community.Memory.Stages.{check-memories}
use kemory_community.Memory.Entry.{create_direct}
use kemory_community.Memory.Keys.{HasKeys, has_hash-fields, none_found}

module _ {env : Env} (user_id : ℕ) (namespace hash : Text) (scope : Scope) where
  abbrev test : Memory env → Bool
  test m = has_hash user_id namespace hash m && is_readable scope m

  -- The one row under a key is not found where it is not read.
  hidden_none :
      (n : Memory env) (ms : List (Memory env))
      → HasKeys ms
      → In n ms
      → has_hash user_id namespace hash n ≡ true
      → is_readable scope n ≡ false
      → keep test ms ≡ []
  hidden_none n [] keys i t f = refl
  hidden_none n (m ∷ ms) keys (here e) t f =
      let t' : has_hash user_id namespace hash m ≡ true =
        ap (has_hash user_id namespace hash) (sym e) ∙ t in
      let f' : is_readable scope m ≡ false = ap (is_readable scope) (sym e) ∙ f in
      let (user, ns, h, active) = has_hash-fields user_id namespace hash m t' in
      rw (t', f')
        (none_found user_id namespace hash (is_readable scope) ms
          (rw (user, ns, h) at keys.0 active))
  hidden_none n (m ∷ ms) keys (there i) t f =
      elim (Bool-cases (has_hash user_id namespace hash m)) [
        | inr other ↦ rw other (hidden_none n ms keys.1 i t f)
        | inl t' ↦
            let (user, ns, h, active) = has_hash-fields user_id namespace hash m t' in
            let taken = All-In _ ms (rw (user, ns, h) at keys.0 active) i in absurd (cc (taken, t))
      ]

  holds_hidden :
      (m n : Memory env) (ms : List (Memory env))
      → m.user_id ≡ user_id
      → m.namespace ≡ namespace
      → m.content_hash ≡ hash
      → In n ms
      → has_hash user_id namespace hash n ≡ true
      → holds_key m ms ≡ true
  unfolding holds_key
  holds_hidden m n [] user ns h i t = elim i [ ]
  holds_hidden m n (x ∷ ms) user ns h (here e) t = rw (user, ns, h, sym e, t) refl
  holds_hidden m n (x ∷ ms) user ns h (there i) t =
      ground (arith, holds_hidden m n ms user ns h i t)

module _ {env : Env} (s : Settings env) (call : Call) (request : MemoryCreate)
    (org_id : Option Text) (scope : Scope) (db : Db env) (n : Memory env)
    (keys : HasKeys db.memories) (i : In n db.memories)
    (t : has_hash call.user_id request.namespace (content_hash env request.content) n ≡ true)
    (f : is_readable scope n ≡ false) where
  finds_none :
      (db2 : Db env)
      → db2.memories ≡ db.memories
      → find_by_hash call.user_id request.namespace (content_hash env request.content) scope db2
        ≡ ok none
  unfolding find_by_hash scalar_one_or_none
  finds_none db2 kept =
      let empty =
        hidden_none call.user_id request.namespace (content_hash env request.content) scope n
          db.memories keys i t f in
      rw (kept, empty) refl

  gate_none :
      (db2 : Db env)
      → db2.memories ≡ db.memories
      → exact_gate s call.user_id request scope db2 ≡ ok none
  unfolding exact_gate
  gate_none db2 kept = elim (Bool-cases s.dedup_exact_enabled) [
    | inl on ↦ rw (exact_gate, on) (finds_none db2 kept)
    | inr off ↦ rw (exact_gate, off) refl
  ]

  abbrev row : Memory env
  row = new_memory s call request org_id (env.encode request.content) none none none

  insert_fails :
      (db2 : Db env)
      → db2.memories ≡ db.memories
      → (insert_memory s call row false none [] scope db db2).0 ≡ raised integrity_error
  unfolding insert_memory recover
  insert_fails db2 kept =
      let taken : holds_key row (db2.memories ++ []) ≡ true =
        holds_hidden call.user_id request.namespace (content_hash env request.content) scope row n
          (db2.memories ++ []) refl refl refl (In-append db2.memories [] (rw kept i)) t in
      rw
        (
          insert_memory,
          taken,
          recover,
          finds_none (with_arrived [] db2 db) (append-nil db.memories),
        )
        refl

  write_fails :
      (db2 : Db env)
      → db2.memories ≡ db.memories
      → s.dedup_semantic_enabled ≡ false
      → build_memory {env = env} s call request org_id (env.encode request.content) ≡ ok row
      → (write s call request org_id none [] scope db db2).0 ≡ raised integrity_error
  unfolding write semantic_gate after_semantic
  write_fails db2 kept off built =
      rw (write, gate_none db2 kept, semantic_gate, off, after_semantic, built)
        (insert_fails db2 kept)

-- A call that the Gatekeeper allows for the requested namespace, with allow_duplicate, a valid content
-- type, no valid_at, occurred_at or team_id, without the search for similar memories and without rows
-- of concurrent requests, ends in an error of the unique index, where the keys of the active memories
-- are different and one of them, which the request does not read, has the user, the namespace and the
-- content's hash.
pub create_hidden :
    {env : Env} (s : Settings env) (call : Call) (request : MemoryCreate) (org_id : Option Text)
    (scope : Scope) (db : Db env) (n : Memory env)
    → HasKeys db.memories
    → In n db.memories
    → has_hash call.user_id request.namespace (content_hash env request.content) n ≡ true
    → is_readable scope n ≡ false
    → s.dedup_semantic_enabled ≡ false
    → request.allow_duplicate ≡ true
    → request.valid_at ≡ none
    → request.occurred_at ≡ none
    → request.team_id ≡ none
    → text_in request.content_type valid_content_types ≡ true
    → (check_access call (text "memory:write") request.namespace db).0 ≡ ok tt
    → (create_memory s call request org_id [] scope db).0 ≡ raised integrity_error
unfolding build_memory parse_time parse_team
create_hidden {env = env} s call request org_id scope db n keys i t f off direct v o team valid
      granted =
    let kept = check-memories env call (text "memory:write") request.namespace db in
    let built : build_memory {env = env} s call request org_id (env.encode request.content)
        ≡ ok (row s call request org_id scope db n keys i t f) =
      rw (build_memory, v, o, team) refl in
    ap (λ p. p.0) (create_direct s call request org_id [] scope db direct valid granted)
    ∙ write_fails s call request org_id scope db n keys i t f _ kept off built
