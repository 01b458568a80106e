-- ===== src/Memory/Deletion.antt =====
-- A memory that was deleted stays deleted.
use kemory_community.Prelude.{
  ℕ, ◌≡◌, refl, sym, ap, ◌∙◌, inl, inr, text, Bool, true, false, ◌&&◌, List, [], ◌∷◌, keep, In,
  here, there, In-cons, In-append, Bool-cases, ◌==◌, if◌then◌else◌, arith,
}
use kemory_community.Memory.Schema.{Env, Memory, Scope, Db, ok, raised, memory_not_found, Call}
use kemory_community.Memory.Tenancy.{is_active, is_readable}
use kemory_community.Memory.Dedup.{assign, scalar_one_or_none, emit_event}
use kemory_community.Memory.Access.{
  check_access, with_row, is_addressed, get_active_memory, get_memory, soft_delete, delete_memory,
}
use kemory_community.Memory.Ending.{Answer-cases}
use kemory_community.Memory.Stages.{check-memories}
use kemory_community.Memory.Table.{Fresh, UniqueIds, same_row}
use kemory_community.Memory.Changes.{
  Addressed-row, Change, untouched, assigned, stored, delete-Change,
}
use kemory_community.Memory.Lifecycle.{
  Reach, start, step, IsKeyed, is_admin, op-Change, Change-IsKeyed, Reach-IsKeyed,
}

module _ {env : Env} where
  -- The row of the identifier is deleted.
  abbrev pub Deleted : ℕ → List (Memory env) → Type 0
  Deleted id ms =
      (m : Memory env) × In m ms × ((m.memory_id == id) ≡ true) × (is_active m.invalid_at ≡ false)

  In-assign :
      (id : ℕ) (g : Memory env → Memory env) (m : Memory env) (ms : List (Memory env))
      → In m ms
      → In (if m.memory_id == id then g m else m) (assign id g ms)
  unfolding assign
  In-assign id g m [] i = elim i [ ]
  In-assign id g m (x ∷ ms) i = elim (In-cons i) [
    | inl e ↦ here (ap (λ (y : Memory env). if y.memory_id == id then g y else y) e)
    | inr j ↦ there (In-assign id g m ms j)
  ]

  Deleted-Change :
      (id user_id new_id : ℕ) (admin : Bool) (rows after : List (Memory env))
      → Deleted id rows
      → Change user_id new_id admin rows after
      → Deleted id after
  Deleted-Change id user_id new_id admin rows after d (untouched e) = rw e d
  Deleted-Change id user_id new_id admin rows after (m, i, is_it, gone) (stored n new user free k) =
      rw k (m, In-append rows (n ∷ []) i, is_it, gone)
  Deleted-Change id user_id new_id admin rows after (m, i, is_it, gone)
        (assigned e g at_ by same owner live h k) =
      let found = In-assign e.memory_id g m rows i in
      elim (Bool-cases (m.memory_id == e.memory_id)) [
        | inr f ↦ rw k (m, rw f at found, is_it, gone)
        | inl t ↦ rw k (g m, rw t at found, rw (same m) is_it, stays m (g m) (live m) gone)
      ]
    where
      stays :
          (m n : Memory env)
          → (is_active n.invalid_at ≡ true → is_active m.invalid_at ≡ true)
          → is_active m.invalid_at ≡ false
          → is_active n.invalid_at ≡ false
      stays m n live gone = ground (arith, live, gone)

  Reach-Deleted :
      (id : ℕ) (db left : Db env) (r : Reach db left)
      → Deleted id db.memories
      → Deleted id left.memories
  Reach-Deleted id db left start d = d
  Reach-Deleted id db left (step {left = before} s call scope op r fresh) d =
      Deleted-Change id call.user_id call.memory_id (is_admin op) before.memories _
        (Reach-Deleted id db before r d) (op-Change s call scope op before)

  none_addressed :
      (id user_id : ℕ) (scope : Scope) (d : Memory env) (all ms : List (Memory env))
      → UniqueIds all
      → In d all
      → (d.memory_id == id) ≡ true
      → is_active d.invalid_at ≡ false
      → ((m : Memory env) → In m ms → In m all)
      → keep (λ m. is_addressed false user_id id m && is_readable scope m) ms ≡ []
  unfolding is_addressed
  none_addressed id user_id scope d all [] unique i is_it gone sub = refl
  none_addressed id user_id scope d all (m ∷ ms) unique i is_it gone sub =
      let rest =
        none_addressed id user_id scope d all ms unique i is_it gone (λ n j. sub n (there j)) in
      elim (Bool-cases (m.memory_id == id)) [
        | inr f ↦ rw f rest
        | inl t ↦
            let same = same_row d m all unique i (sub m (here refl)) (ground (arith, is_it, t)) in
            rw (t, ap (λ (x : Memory env). is_active x.invalid_at) (sym same) ∙ gone) rest
      ]

  get-Deleted :
      (id : ℕ) (call : Call) (scope : Scope) (db : Db env)
      → UniqueIds db.memories
      → Deleted id db.memories
      → (get_memory id call scope db).0 ≡ raised memory_not_found
  unfolding get_memory get_active_memory scalar_one_or_none
  get-Deleted id call scope db unique (d, i, is_it, gone) =
      let empty =
        none_addressed id call.user_id scope d db.memories db.memories unique i is_it gone
          (λ m j. j) in
      rw (get_memory, get_active_memory, empty) refl

  soft-Deleted :
      (id : ℕ) (call : Call) (admin : Bool) (scope : Scope) (db : Db env)
      → (delete_memory id call admin scope db).0 ≡ ok tt
      → Deleted id (delete_memory id call admin scope db).1.memories
  unfolding delete_memory emit_event
  soft-Deleted id call admin scope db done =
      elim (Answer-cases (get_active_memory id call.user_id admin call.now scope db)) [
        | inl (f, e) ↦ cc (rw (delete_memory, e) at done)
        | inr (m, e) ↦
            let (i, active, by, is_it) =
              Addressed-row id call.user_id admin call.now scope db m e in
            let kept = check-memories env call (text "memory:delete") m.namespace db in
            elim (Answer-cases (check_access call (text "memory:delete") m.namespace db).0) [
              | inl (f, e') ↦ cc (rw (delete_memory, e, with_row, e') at done)
              | inr (u, e') ↦
                  let found = In-assign m.memory_id (soft_delete call.now) m db.memories i in
                  let self : (m.memory_id == m.memory_id) ≡ true = ground arith in
                  rw (delete_memory, e, with_row, e', kept)
                    (soft_delete call.now m, rw self at found, is_it, refl)
            ]
      ]

-- After a delete_memory that succeeded, in whichever sequence of calls follows, get_memory does not
-- find the memory, whoever asks.
pub delete_gone :
    {env : Env} (id : ℕ) (call later : Call) (admin : Bool) (scope scope' : Scope)
    (db left : Db env)
    → IsKeyed db.memories
    → Fresh call.memory_id db.memories
    → (delete_memory id call admin scope db).0 ≡ ok tt
    → Reach (delete_memory id call admin scope db).1 left
    → (get_memory id later scope' left).0 ≡ raised memory_not_found
delete_gone id call later admin scope scope' db left keyed fresh done r =
    let after =
      Change-IsKeyed call.user_id call.memory_id admin db.memories _ fresh keyed
        (delete-Change id call scope db admin) in
    let (kept, own_rows) = Reach-IsKeyed _ left 0 r after in
    get-Deleted id later scope' left kept.1
      (Reach-Deleted id _ left r (soft-Deleted id call admin scope db done))
