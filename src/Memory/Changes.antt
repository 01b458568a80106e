-- ===== src/Memory/Changes.antt =====
-- What each operation of the service does to the table of memories.
use kemory_community.Prelude.{
  ℕ, ◌≡◌, refl, sym, ap, ◌∙◌, ◌⊎◌, Text, text, Bool, true, false, ◌&&◌, Option, none, some, List,
  [], ◌∷◌, ◌++◌, keep, In, here, In-of_keep, Bool-cases, inl, inr, arith, ◌==◌,
}
use kemory_community.Memory.Schema.{Env, Memory, MemoryUpdate, Scope, Db, Answer, ok, raised, Call}
use kemory_community.Memory.Tenancy.{is_active, is_readable}
use kemory_community.Memory.Dedup.{assign, count_access, emit_event}
use kemory_community.Memory.Access.{
  check_access, has_expired, holds_key, unexpired, is_addressed, get_active_memory, with_row,
  get_memory, set_content, set_content_type, set_metadata, set_ttl, is_allowed_type,
  check_collision, apply_updates, flush_update, update_memory, soft_delete, delete_memory,
}
use kemory_community.Memory.Ending.{Answer-cases}
use kemory_community.Memory.Stages.{check-memories}
use kemory_community.Memory.Keys.{Free, holds-Free, scalar_one}
use kemory_community.Memory.Unique.{IsQuiet, others}

module _ {env : Env} (user_id new_id : ℕ) (admin : Bool) (rows : List (Memory env)) where
  -- One row that the caller may address is assigned to, or a row under a free key is added.
  pub data Change (after : List (Memory env)) : Type 0 where
    untouched : after ≡ rows → Change after
    assigned :
        (e : Memory env) (g : Memory env → Memory env)
        → In e rows
        → (admin ≡ true) ⊎ (e.user_id ≡ user_id)
        → ((m : Memory env) → (g m).memory_id ≡ m.memory_id)
        → ((m : Memory env) → (g m).user_id ≡ m.user_id)
        → ((m : Memory env) → is_active (g m).invalid_at ≡ true → is_active m.invalid_at ≡ true)
        → IsQuiet g ⊎ Free (g e) (others e.memory_id rows)
        → after ≡ assign e.memory_id g rows
        → Change after
    stored :
        (m : Memory env)
        → m.memory_id ≡ new_id
        → m.user_id ≡ user_id
        → Free m rows
        → after ≡ rows ++ m ∷ []
        → Change after

pub count-IsQuiet : {env : Env} (now : ℕ) → IsQuiet {env = env} (count_access now)
unfolding count_access
count-IsQuiet now m = ((refl, refl, refl), λ a. a)

delete-IsQuiet : {env : Env} (now : ℕ) → IsQuiet {env = env} (soft_delete now)
unfolding is_active
delete-IsQuiet now m = ((refl, refl, refl), λ a. absurd (cc a))

abbrev SameOwner : {env : Env} → Memory env → Memory env → Type 0
SameOwner a b =
    (a.memory_id ≡ b.memory_id) × (a.user_id ≡ b.user_id) × (a.invalid_at ≡ b.invalid_at)

content_kept : {env : Env} (c : Option Text) (m : Memory env) → SameOwner (set_content c m) m
content_kept none m = (refl, refl, refl)
content_kept (some t) m = (refl, refl, refl)

type_kept : {env : Env} (c : Option Text) (m : Memory env) → SameOwner (set_content_type c m) m
type_kept none m = (refl, refl, refl)
type_kept (some t) m = (refl, refl, refl)

meta_kept : {env : Env} (c : Option Text) (m : Memory env) → SameOwner (set_metadata c m) m
meta_kept none m = (refl, refl, refl)
meta_kept (some t) m = (refl, refl, refl)

ttl_kept : {env : Env} (now : ℕ) (c : Option ℕ) (m : Memory env) → SameOwner (set_ttl now c m) m
ttl_kept now none m = (refl, refl, refl)
ttl_kept now (some t) m = (refl, refl, refl)

-- An update keeps the identifier and the owner.
updates_kept :
    {env : Env} (now : ℕ) (request : MemoryUpdate) (m : Memory env)
    → SameOwner (apply_updates now request m) m
unfolding apply_updates
updates_kept now request m =
    let m1 = set_content request.content m in
    let m2 = set_content_type request.content_type m1 in
    let m3 = set_metadata request.metadata m2 in
    let a = content_kept request.content m in
    let b = type_kept request.content_type m1 in
    let c = meta_kept request.metadata m2 in
    let d = ttl_kept now request.ttl_seconds m3 in
    (d.0 ∙ c.0 ∙ b.0 ∙ a.0, d.1 ∙ c.1 ∙ b.1 ∙ a.1, d.2 ∙ c.2 ∙ b.2 ∙ a.2)

module _ {env : Env} (id user_id : ℕ) (admin : Bool) (now : ℕ) (scope : Scope) (db : Db env) where
  -- The row that an operation addresses is an active one of the caller, or the caller is an admin.
  abbrev pub Addressed : Memory env → Type 0
  Addressed m =
      In m db.memories
      × (is_active m.invalid_at ≡ true)
      × ((admin ≡ true) ⊎ (m.user_id ≡ user_id))
      × ((m.memory_id == id) ≡ true)

  unexpired-some :
      (a : Answer env (Option (Memory env))) (m : Memory env)
      → unexpired now a ≡ ok m
      → a ≡ ok (some m)
  unexpired-some (raised f) m h = cc h
  unexpired-some (ok none) m h = cc h
  unexpired-some (ok (some x)) m h = elim (Bool-cases (has_expired now x.expires_at)) [
    | inl e ↦ cc (rw e at h)
    | inr f ↦ let same : x ≡ m = cc (rw f at h) in ap (λ y. ok (some y)) same
  ]

  pub Addressed-row :
      (m : Memory env) → get_active_memory id user_id admin now scope db ≡ ok m → Addressed m
  unfolding get_active_memory is_addressed
  Addressed-row m h =
      let test = λ (n : Memory env). is_addressed admin user_id id n && is_readable scope n in
      let one = scalar_one (keep test db.memories) m (unexpired-some _ m h) in
      let found : In m db.memories × (test m ≡ true) =
        In-of_keep test db.memories (rw one (here refl)) in
      (
        found.0,
        ground (arith, found.1),
        elim (Bool-cases admin) [ inl a ↦ inl a | inr b ↦ inr (ground (arith, found.1, b)) ],
        ground (arith, found.1),
      )

module _ {env : Env} {A : Type 0} (id : ℕ) (call : Call) (admin : Bool) (scope : Scope)
    (db : Db env) (scope_name : Text) (next : Memory env → Db env → Answer env A × Db env)
    (P : List (Memory env) → Type 0) where
  -- The rest of an operation on the row that it addresses.
  abbrev Continues : Type 0
  Continues =
      (m : Memory env) (db' : Db env)
      → Addressed id call.user_id admin call.now scope db m
      → db'.memories ≡ db.memories
      → P (next m db').1.memories

  checked_change :
      (m : Memory env)
      → Addressed id call.user_id admin call.now scope db m
      → P db.memories
      → Continues
      → P (with_row call scope_name (ok m) db next).1.memories
  checked_change m found same go =
      let kept = check-memories env call scope_name m.namespace db in
      elim (Answer-cases (check_access call scope_name m.namespace db).0) [
        | inl (f, e) ↦ rw (with_row, e, kept) same
        | inr (u, e) ↦
            rw (with_row, e) (go m (check_access call scope_name m.namespace db).1 found kept)
      ]

  row_change :
      P db.memories
      → Continues
      → P
          (with_row call scope_name
            (get_active_memory id call.user_id admin call.now scope db)
            db
            next).1.memories
  row_change same go =
      elim (Answer-cases (get_active_memory id call.user_id admin call.now scope db)) [
        | inl (f, e) ↦ rw e same
        | inr (m, e) ↦
            rw e
              (checked_change m (Addressed-row id call.user_id admin call.now scope db m e) same go)
      ]

module _ {env : Env} (id : ℕ) (call : Call) (scope : Scope) (db : Db env) where
  pub get-Change :
      Change call.user_id call.memory_id false db.memories (get_memory id call scope db).1.memories
  unfolding get_memory count_access
  get-Change =
      row_change id call false scope db (text "memory:read") _
        (Change call.user_id call.memory_id false db.memories) (untouched refl)
        (λ m db' found kept.
          assigned m (count_access call.now) found.0 found.2 (λ n. refl) (λ n. refl) (λ n a. a)
            (inl (count-IsQuiet call.now)) (ap (assign m.memory_id (count_access call.now)) kept))

  pub delete-Change :
      (admin_view : Bool)
      → Change call.user_id call.memory_id admin_view db.memories
          (delete_memory id call admin_view scope db).1.memories
  unfolding delete_memory emit_event
  delete-Change admin_view =
      row_change id call admin_view scope db (text "memory:delete") _
        (Change call.user_id call.memory_id admin_view db.memories) (untouched refl)
        (λ m db' found kept.
          assigned m (soft_delete call.now) found.0 found.2 (λ n. refl) (λ n. refl)
            (λ n a. (delete-IsQuiet call.now n).1 a) (inl (delete-IsQuiet call.now))
            (ap (assign m.memory_id (soft_delete call.now)) kept))

  flush-Change :
      (request : MemoryUpdate) (admin_view : Bool) (m : Memory env) (db' : Db env)
      → Addressed id call.user_id admin_view call.now scope db m
      → db'.memories ≡ db.memories
      → Change call.user_id call.memory_id admin_view db.memories
          (flush_update (apply_updates call.now request) m db').1.memories
  unfolding flush_update
  flush-Change request admin_view m db' found kept =
      let f = apply_updates call.now request in
      elim (Bool-cases (holds_key (f m) (others m.memory_id db'.memories))) [
        | inl taken ↦ rw (flush_update, taken) (untouched kept)
        | inr free ↦
            rw (flush_update, free)
              (assigned m f found.0 found.2 (λ n. (updates_kept call.now request n).0)
                (λ n. (updates_kept call.now request n).1)
                (λ n a. ap is_active (sym (updates_kept call.now request n).2) ∙ a)
                (inr (holds-Free (f m) (others m.memory_id db.memories) (rw kept at free)))
                (ap (assign m.memory_id f) kept))
      ]

  pub update-Change :
      (request : MemoryUpdate) (admin_view : Bool)
      → Change call.user_id call.memory_id admin_view db.memories
          (update_memory id call request admin_view scope db).1.memories
  unfolding update_memory
  update-Change request admin_view =
      row_change id call admin_view scope db (text "memory:write") _
        (Change call.user_id call.memory_id admin_view db.memories) (untouched refl)
        (λ m db' found kept.
          elim (Answer-cases (check_collision call m request.content scope db')) [
            | inl (f, e) ↦ rw e (untouched kept)
            | inr (u, e) ↦ elim (Bool-cases (is_allowed_type request.content_type)) [
              | inr wrong ↦ rw (e, wrong) (untouched kept)
              | inl valid ↦ rw (e, valid) (flush-Change request admin_view m db' found kept)
            ]
          ])
