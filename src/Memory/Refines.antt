-- ===== src/Memory/Refines.antt =====
-- `create_memory` as an operation on the map of keys: it stores under a free key and else leaves the
-- map as it is.
use mathlib.Core.List.{append-nil}
use kemory_community.Prelude.{
  ℕ, ◌≡◌, refl, sym, ap, ◌∙◌, ◌⊎◌, inl, inr, Text, text_eq_iff, true, ◌&&◌, Option, none, some,
  List, [], ◌∷◌, ◌++◌, keep, In, here, In-of_keep, arith,
}
use kemory_community.Memory.Schema.{
  Env, Memory, MemoryCreate, MemoryResponse, semantic, Scope, Db, Settings, Answer, ok, Call,
}
use kemory_community.Memory.Tenancy.{is_readable}
use kemory_community.Memory.Dedup.{has_hash, content_hash, is_in, assign, count_access}
use kemory_community.Memory.Create.{in_namespace, write, create_memory}
use kemory_community.Memory.Ending.{
  found_in, HasKey, Ending, refused, ambiguous, unseen, matched, similar, inserted,
}
use kemory_community.Memory.Ways.{write-Ending}
use kemory_community.Memory.Entry.{stopped, went_on, create-Way}
use kemory_community.Memory.Keys.{HasKeys, Free, has_hash-fields, holds-Free, scalar_one}
use kemory_community.Memory.View.{
  Keyed, put_absent, view, view-assign, view-In, view-Free, view-append,
}

module _ {env : Env} (call : Call) (namespace hash : Text) (rows after : List (Memory env))
    (r : MemoryResponse env) where
  -- The key is bound to the memory that is answered, which was stored only if the key was free.
  abbrev pub Stored : Type 0
  Stored =
      (r.memory.namespace ≡ namespace)
      × ((u : ℕ) (ns h : Text)
          → view after u ns h
            ≡ put_absent (view rows) call.user_id namespace hash call.memory_id u ns h)
      × (view after call.user_id namespace hash ≡ some r.memory.memory_id)

  -- Another memory of the user in the namespace is answered, and no key is bound or freed.
  abbrev pub Answered : Type 0
  Answered =
      ((score : env.Float) × (r.dedup ≡ some (semantic score)))
      × (r.memory.user_id ≡ call.user_id)
      × (r.memory.namespace ≡ namespace)
      × ((u : ℕ) (ns h : Text) → view after u ns h ≡ view rows u ns h)

  abbrev pub Refines : Type 0
  Refines = Stored ⊎ Answered

-- A key that is bound stays as it is.
bound :
    (st : Keyed) (user_id : ℕ) (namespace hash : Text) (id old u : ℕ) (ns h : Text)
    → st user_id namespace hash ≡ some old
    → st u ns h ≡ put_absent st user_id namespace hash id u ns h
unfolding put_absent
bound st user_id namespace hash id old u ns h e = rw (put_absent, e) refl

put_self :
    (st : Keyed) (user_id : ℕ) (namespace hash : Text) (id : ℕ)
    → st user_id namespace hash ≡ none
    → put_absent st user_id namespace hash id user_id namespace hash ≡ some id
unfolding put_absent
put_self st user_id namespace hash id e =
    rw (put_absent, e) ground (arith, text_eq_iff namespace namespace, text_eq_iff hash hash)

module _ {env : Env} (call : Call) (namespace hash : Text) (scope : Scope)
    (rows : List (Memory env)) where
  pub found_row :
      (rs : List (Memory env)) (e : Memory env)
      → found_in call namespace hash scope rows [] rs ≡ ok (some e)
      → In e rs × (has_hash call.user_id namespace hash e ≡ true)
  found_row rs e f =
      let test =
        λ (m : Memory env). has_hash call.user_id namespace hash m && is_readable scope m in
      let found : In e rs × (test e ≡ true) =
        In-of_keep test rs (rw (scalar_one (keep test rs) e f) (here refl)) in
      (found.0, ground (arith, found.1))

  matched-Stored :
      (e : Memory env) (r : MemoryResponse env) (after : List (Memory env))
      → HasKeys rows
      → found_in call namespace hash scope rows [] rows ≡ ok (some e)
      → r.memory ≡ count_access call.now e
      → after ≡ assign e.memory_id (count_access call.now) rows
      → Stored call namespace hash rows after r
  unfolding count_access
  matched-Stored e r after keys f m k =
      let (i, t) = found_row rows e f in
      let there_already = view-In e rows call.user_id namespace hash keys i t in
      let kept : (u : ℕ) (ns h : Text) → view after u ns h ≡ view rows u ns h =
        λ u ns h. rw k (view-assign e.memory_id call.now rows u ns h) in
      let (user, name, digest, active) = has_hash-fields call.user_id namespace hash e t in
      (
        ap (λ (x : Memory env). x.namespace) m ∙ name,
        λ u ns h.
            kept u ns h
            ∙ bound (view rows) call.user_id namespace hash call.memory_id e.memory_id u ns h
                there_already,
        kept call.user_id namespace hash
            ∙ there_already
            ∙ sym (ap (λ (x : Memory env). some x.memory_id) m),
      )

  similar-Answered :
      (e : Memory env) (score : env.Float) (r : MemoryResponse env) (after : List (Memory env))
      → is_in call.user_id namespace e ≡ true
      → r.memory ≡ count_access call.now e
      → r.dedup ≡ some (semantic score)
      → after ≡ assign e.memory_id (count_access call.now) rows
      → Answered call namespace hash rows after r
  unfolding count_access
  similar-Answered e score r after own m d k =
      let user : e.user_id ≡ call.user_id = ground arith in
      let name : e.namespace ≡ namespace = ground (arith, text_eq_iff e.namespace namespace) in
      (
        (score, d),
        ap (λ (x : Memory env). x.user_id) m ∙ user,
        ap (λ (x : Memory env). x.namespace) m ∙ name,
        λ u ns h. rw k (view-assign e.memory_id call.now rows u ns h),
      )

  inserted-Stored :
      (m : Memory env) (r : MemoryResponse env) (after : List (Memory env))
      → HasKey call namespace hash scope rows [] m
      → Free m rows
      → r.memory ≡ m
      → after ≡ rows ++ m ∷ []
      → Stored call namespace hash rows after r
  inserted-Stored m r after (id, user, ns, h, active) free same k =
      let put : (u : ℕ) (ns' h' : Text)
          → view after u ns' h'
            ≡ put_absent (view rows) call.user_id namespace hash call.memory_id u ns' h' =
        λ u ns' h'.
          rw (k, sym user, sym ns, sym h, sym id) (view-append m rows u ns' h' active free) in
      let empty : view rows call.user_id namespace hash ≡ none =
        rw (sym user, sym ns, sym h) (view-Free m rows free) in
      (
        ap (λ (x : Memory env). x.namespace) same ∙ ns,
        put,
        put call.user_id namespace hash
            ∙ put_self (view rows) call.user_id namespace hash call.memory_id empty
            ∙ ap some (sym id ∙ sym (ap (λ (x : Memory env). x.memory_id) same)),
      )

  ending-Refines :
      (p : Answer env (MemoryResponse env) × Db env) (r : MemoryResponse env)
      → HasKeys rows
      → Ending call namespace hash scope rows [] p
      → p.0 ≡ ok r
      → Refines call namespace hash rows p.1.memories r
  ending-Refines p r keys (refused f h e k) o = cc (e, o)
  ending-Refines p r keys (ambiguous rs f t a e k) o = cc (e, o)
  ending-Refines p r keys (unseen m key h f e k) o = cc (e, o)
  ending-Refines p r keys (matched rs x r' (inl t) f e m d k) o =
      let same : r' ≡ r = cc (e, o) in
      inl (matched-Stored x r p.1.memories keys (rw t at f) (rw same at m) (rw t at k))
  ending-Refines p r keys (matched rs x r' (inr t) f e m d k) o =
      let same : r' ≡ r = cc (e, o) in
      let all = t ∙ append-nil rows in
      inl (matched-Stored x r p.1.memories keys (rw all at f) (rw same at m) (rw all at k))
  ending-Refines p r keys (similar x score r' own e m d k) o =
      let same : r' ≡ r = cc (e, o) in
      inr (similar-Answered x score r p.1.memories own.1 (rw same at m) (rw same at d) k)
  ending-Refines p r keys (inserted m r' key free e s d k) o =
      let same : r' ≡ r = cc (e, o) in
      inl (
        inserted-Stored m r p.1.memories key (holds-Free m rows (rw (append-nil rows) at free))
          (rw same at s) (rw (append-nil rows) at k))

Refines-moved :
    {env : Env} (call : Call) (namespace hash : Text) (rows rows' after : List (Memory env))
    (r : MemoryResponse env)
    → rows ≡ rows'
    → Refines call namespace hash rows after r
    → Refines call namespace hash rows' after r
Refines-moved call namespace hash rows rows' after r e x = rw e at x

-- A successful call refines `setdefault` on the map from keys to identifiers of active memories: it
-- binds the key of the content in the namespace of its answer to a new memory if the key was free, and
-- answers with the memory that the key is bound to. Or it answers with a similar memory of the user in
-- that namespace, and the map stays as it was.
pub create_refines :
    {env : Env} (s : Settings env) (call : Call) (request : MemoryCreate) (org_id : Option Text)
    (scope : Scope) (db : Db env) (r : MemoryResponse env)
    → HasKeys db.memories
    → (create_memory s call request org_id [] scope db).0 ≡ ok r
    → (namespace : Text) × Refines call namespace
        (content_hash env request.content)
        db.memories
        (create_memory s call request org_id [] scope db).1.memories
        r
create_refines {env = env} s call request org_id scope db r keys result =
    elim (create-Way s call request org_id [] scope db) [
      | stopped f h e kept ↦ cc (e, result)
      | went_on ns redirected_from db2 granted kept e ↦
          let refined =
            ending-Refines {env = env} call ns (content_hash env request.content) scope db2.memories
              (write s call (in_namespace request ns) org_id redirected_from [] scope db db2) r
              (rw kept keys)
              (write-Ending s call (in_namespace request ns) org_id redirected_from [] scope db db2
                (sym kept))
              (rw e at result) in
          (ns, rw e (Refines-moved call ns _ db2.memories db.memories _ r kept refined))
    ]
