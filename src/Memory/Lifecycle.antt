-- ===== src/Memory/Lifecycle.antt =====
-- The operations of the service as one relation, and what every sequence of them keeps.
use kemory_community.Prelude.{
  ℕ, ◌≡◌, refl, ap, ◌∙◌, Text, Bool, false, Option, List, [], ◌∷◌, ◌==◌, inl, inr, keep-append,
}
use mathlib.Core.List.{append-nil}
use kemory_community.Memory.Schema.{
  Env, Memory, MemoryCreate, MemoryUpdate, Scope, Db, Settings, Call,
}
use kemory_community.Memory.Access.{get_memory, update_memory, delete_memory}
use kemory_community.Memory.Create.{create_memory}
use kemory_community.Memory.Keys.{HasKeys}
use kemory_community.Memory.Table.{
  Fresh, UniqueIds, same_row, UniqueIds-assign, UniqueIds-snoc, own, own-assign,
}
use kemory_community.Memory.Unique.{HasKeys-quiet, HasKeys-snoc, HasKeys-assign}
use kemory_community.Memory.Changes.{
  Change, untouched, assigned, stored, get-Change, update-Change, delete-Change,
}
use kemory_community.Memory.Creation.{create-Change}

pub data Op : Type 0 where
  create : MemoryCreate → Option Text → Op
  get : ℕ → Op
  update : ℕ → MemoryUpdate → Bool → Op
  delete : ℕ → Bool → Op

unfoldable pub run : {env : Env} → Settings env → Call → Scope → Op → Db env → Db env
unfolding create_memory get_memory update_memory delete_memory
run s call scope (create request org_id) db = (create_memory s call request org_id [] scope db).1
run s call scope (get id) db = (get_memory id call scope db).1
run s call scope (update id request admin_view) db =
    (update_memory id call request admin_view scope db).1
run s call scope (delete id admin_view) db = (delete_memory id call admin_view scope db).1

abbrev pub is_admin : Op → Bool
is_admin (create request org_id) = false
is_admin (get id) = false
is_admin (update id request admin_view) = admin_view
is_admin (delete id admin_view) = admin_view

-- A sequence of calls; each draws an identifier that no memory has.
pub data Reach {env : Env} (db : Db env) : Db env → Type 0 where
  start : Reach db db
  step :
      {left : Db env} (s : Settings env) (call : Call) (scope : Scope) (op : Op)
      → Reach db left
      → Fresh call.memory_id left.memories
      → Reach db (run s call scope op left)

-- No call of the sequence is the user's own or has an admin's view.
abbrev pub NotBy : {env : Env} {db left : Db env} → ℕ → Reach db left → Type 0
NotBy u start = Unit
NotBy u (step s call scope op r fresh) =
    NotBy u r × ((call.user_id == u) ≡ false) × (is_admin op ≡ false)

abbrev pub IsKeyed : {env : Env} → List (Memory env) → Type 0
IsKeyed rows = HasKeys rows × UniqueIds rows

module _ {env : Env} where
  pub op-Change :
      (s : Settings env) (call : Call) (scope : Scope) (op : Op) (db : Db env)
      → Change call.user_id call.memory_id
          (is_admin op)
          db.memories
          (run s call scope op db).memories
  unfolding run
  op-Change s call scope (create request org_id) db = create-Change s call request org_id scope db
  op-Change s call scope (get id) db = get-Change id call scope db
  op-Change s call scope (update id request admin_view) db =
      update-Change id call scope db request admin_view
  op-Change s call scope (delete id admin_view) db = delete-Change id call scope db admin_view

  pub Change-IsKeyed :
      (user_id id : ℕ) (admin : Bool) (rows after : List (Memory env))
      → Fresh id rows
      → IsKeyed rows
      → Change user_id id admin rows after
      → IsKeyed after
  Change-IsKeyed user_id id admin rows after fresh sound (untouched e) = rw e sound
  Change-IsKeyed user_id id admin rows after fresh sound
        (assigned e g i by same owner live (inl quiet) k) =
      rw k (
        HasKeys-quiet e.memory_id g rows quiet sound.0,
        UniqueIds-assign e.memory_id g rows same sound.1,
      )
  Change-IsKeyed user_id id admin rows after fresh sound
        (assigned e g i by same owner live (inr free) k) =
      rw k (
        HasKeys-assign e g rows (same e) sound.1 (λ m j t. same_row m e rows sound.1 j i t) free
            sound.0,
        UniqueIds-assign e.memory_id g rows same sound.1,
      )
  Change-IsKeyed user_id id admin rows after fresh sound (stored m new user free k) =
      rw k (HasKeys-snoc m rows free sound.0, UniqueIds-snoc m rows (rw new fresh) sound.1)

  Change-own :
      (u user_id id : ℕ) (rows after : List (Memory env))
      → UniqueIds rows
      → (user_id == u) ≡ false
      → Change user_id id false rows after
      → own u after ≡ own u rows
  Change-own u user_id id rows after unique other (untouched e) = ap (own u) e
  Change-own u user_id id rows after unique other (assigned e g i (inl admin) same owner live h k) =
      cc admin
  Change-own u user_id id rows after unique other (assigned e g i (inr user) same owner live h k) =
      rw k (
        own-assign u e.memory_id g rows owner
          (λ m j t. let one = same_row m e rows unique j i t in rw (one, user) other))
  Change-own u user_id id rows after unique other (stored m new user free k) =
      let away : (m.user_id == u) ≡ false = rw user other in
      rw (k, keep-append (λ (n : Memory env). n.user_id == u) rows (m ∷ []), away)
        (append-nil (own u rows))

-- Every sequence of calls, of whichever users, keeps the keys of the active memories and the
-- identifiers of all memories different. If no call is a user's own or has an admin's view, it keeps
-- all memories of this user as they were.
pub Reach-IsKeyed :
    {env : Env} (db left : Db env) (u : ℕ) (r : Reach db left)
    → IsKeyed db.memories
    → IsKeyed left.memories × (NotBy u r → own u left.memories ≡ own u db.memories)
Reach-IsKeyed db left u start sound = (sound, λ n. refl)
Reach-IsKeyed db left u (step {left = before} s call scope op r fresh) sound =
    let (kept, untouched_rows) = Reach-IsKeyed db before u r sound in
    let change = op-Change s call scope op before in
    (
      Change-IsKeyed call.user_id call.memory_id (is_admin op) before.memories _ fresh kept change,
      λ n.
          Change-own u call.user_id call.memory_id before.memories _ kept.1 n.1 (rw n.2 at change)
          ∙ untouched_rows n.0,
    )
