-- ===== src/Memory/Creation.antt =====
-- What `create_memory` does to the table of memories.
use mathlib.Core.List.{append-nil}
use kemory_community.Prelude.{
  ℕ, ◌≡◌, refl, sym, ap, ◌∙◌, ◌⊎◌, Text, Bool, false, Option, List, [], ◌∷◌, ◌++◌, In, inl, inr,
  arith,
}
use kemory_community.Memory.Schema.{
  Env, Memory, MemoryCreate, MemoryResponse, Scope, Db, Settings, Answer, Call,
}
use kemory_community.Memory.Dedup.{assign, count_access, content_hash}
use kemory_community.Memory.Create.{in_namespace, write, create_memory}
use kemory_community.Memory.Ending.{Ending, refused, ambiguous, unseen, matched, similar, inserted}
use kemory_community.Memory.Ways.{write-Ending}
use kemory_community.Memory.Entry.{stopped, went_on, create-Way}
use kemory_community.Memory.Keys.{has_hash-fields, holds-Free}
use kemory_community.Memory.Refines.{found_row}
use kemory_community.Memory.Changes.{Change, untouched, assigned, stored, count-IsQuiet}

module _ {env : Env} (call : Call) (namespace hash : Text) (scope : Scope)
    (rows : List (Memory env)) where
  abbrev Changed : List (Memory env) → Type 0
  Changed after = Change call.user_id call.memory_id false rows after

  same_table : (rs : List (Memory env)) → (rs ≡ rows) ⊎ (rs ≡ rows ++ []) → rs ≡ rows
  same_table rs (inl e) = e
  same_table rs (inr e) = e ∙ append-nil rows

  counted :
      (e : Memory env)
      → In e rows
      → e.user_id ≡ call.user_id
      → Changed (assign e.memory_id (count_access call.now) rows)
  unfolding count_access
  counted e i user =
      assigned e (count_access call.now) i (inr user) (λ n. refl) (λ n. refl) (λ n a. a)
        (inl (count-IsQuiet call.now)) refl

  ending-Change :
      (p : Answer env (MemoryResponse env) × Db env)
      → Ending call namespace hash scope rows [] p
      → Changed p.1.memories
  ending-Change p (refused f h e k) = untouched k
  ending-Change p (ambiguous rs f t a e k) = untouched (k ∙ same_table rs t)
  ending-Change p (unseen m key taken a e k) = untouched (k ∙ append-nil rows)
  ending-Change p (matched rs x r t a e m d k) =
      let same = same_table rs t in
      let (i, h) = found_row call namespace hash scope rows rs x a in
      let user = (has_hash-fields call.user_id namespace hash x h).0 in
      rw (k, same) (counted x (rw same at i) user)
  ending-Change p (similar x score r own e m d k) = rw k (counted x own.0 (ground (arith, own.1)))
  ending-Change p (inserted m r key free e s d k) =
      stored m key.0 key.1 (holds-Free m rows (rw (append-nil rows) at free))
        (k ∙ ap (λ l. l ++ m ∷ []) (append-nil rows))

Change-moved :
    {env : Env} (u id : ℕ) (admin : Bool) (rows rows' after : List (Memory env))
    → rows ≡ rows'
    → Change u id admin rows after
    → Change u id admin rows' after
Change-moved u id admin rows rows' after e x = rw e at x

pub create-Change :
    {env : Env} (s : Settings env) (call : Call) (request : MemoryCreate) (org_id : Option Text)
    (scope : Scope) (db : Db env)
    → Change call.user_id call.memory_id false db.memories
        (create_memory s call request org_id [] scope db).1.memories
create-Change {env = env} s call request org_id scope db =
    elim (create-Way s call request org_id [] scope db) [
      | stopped f h e kept ↦ untouched kept
      | went_on ns redirected_from db2 granted kept e ↦
          let change =
            ending-Change {env = env} call ns (content_hash env request.content) scope db2.memories
              (write s call (in_namespace request ns) org_id redirected_from [] scope db db2)
              (write-Ending s call (in_namespace request ns) org_id redirected_from [] scope db db2
                (sym kept)) in
          rw e
            (Change-moved call.user_id call.memory_id false db2.memories db.memories _ kept change)
    ]
