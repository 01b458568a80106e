-- ===== src/Memory/View.antt =====
-- The table as a map from keys to identifiers of active memories, and what the changes of the table
-- do to it.
use kemory_community.Prelude.{
  ℕ, ◌≡◌, refl, sym, ap, ◌∙◌, Text, text_eq, true, false, ◌&&◌, Option, none, some, List, [], ◌∷◌,
  ◌++◌, In, here, there, Bool-cases, ◌==◌, if◌then◌else◌, inl, inr, arith,
}
use kemory_community.Prelude.Order.{All-In}
use kemory_community.Memory.Schema.{Env, Memory}
use kemory_community.Memory.Tenancy.{is_active}
use kemory_community.Memory.Dedup.{has_hash, assign, count_access}
use kemory_community.Memory.Keys.{HasKeys, Free, has_hash-fields}

-- For a user, a namespace and a hash, the identifier of the active memory.
abbrev pub Keyed : Type 0
Keyed = ℕ → Text → Text → Option ℕ

-- `setdefault` on such a map.
unfoldable pub put_absent : Keyed → ℕ → Text → Text → ℕ → Keyed
put_absent st user_id namespace hash id u ns h = elim (st user_id namespace hash) [
  | some old ↦ st u ns h
  | none ↦ if user_id == u && text_eq namespace ns && text_eq hash h then some id else st u ns h
]

module _ {env : Env} where
  unfoldable pub view : List (Memory env) → Keyed
  unfolding has_hash
  view [] u ns h = none
  view (m ∷ ms) u ns h = if has_hash u ns h m then some m.memory_id else view ms u ns h

  pub view-assign :
      (id now : ℕ) (ms : List (Memory env)) (u : ℕ) (ns h : Text)
      → view (assign id (count_access now) ms) u ns h ≡ view ms u ns h
  unfolding view assign count_access has_hash
  view-assign id now [] u ns h = refl
  view-assign id now (m ∷ ms) u ns h = elim (Bool-cases (m.memory_id == id)) [
    | inl e ↦ rw (assign, e, view, view, view-assign id now ms u ns h) refl
    | inr f ↦ rw (assign, f, view, view, view-assign id now ms u ns h) refl
  ]

  pub view-In :
      (e : Memory env) (ms : List (Memory env)) (u : ℕ) (ns h : Text)
      → HasKeys ms
      → In e ms
      → has_hash u ns h e ≡ true
      → view ms u ns h ≡ some e.memory_id
  unfolding view
  view-In e [] u ns h keys i t = elim i [ ]
  view-In e (m ∷ ms) u ns h keys (here same) t =
      let t' : has_hash u ns h m ≡ true = ap (has_hash u ns h) (sym same) ∙ t in
      rw (view, t') (ap (λ (x : Memory env). some x.memory_id) (sym same))
  view-In e (m ∷ ms) u ns h keys (there i) t = elim (Bool-cases (has_hash u ns h m)) [
    | inr f ↦ rw (view, f) (view-In e ms u ns h keys.1 i t)
    | inl t' ↦
        let (user, name, hash, active) = has_hash-fields u ns h m t' in
        let taken = All-In _ ms (rw (user, name, hash) at keys.0 active) i in absurd (cc (taken, t))
  ]

  pub view-Free :
      (m : Memory env) (ms : List (Memory env))
      → Free m ms
      → view ms m.user_id m.namespace m.content_hash ≡ none
  unfolding view
  view-Free m [] free = refl
  view-Free m (x ∷ ms) free = rw (view, free.0) (view-Free m ms free.1)

  abbrev or_new : Memory env → ℕ → Text → Text → Option ℕ → Option ℕ
  or_new m u ns h (some old) = some old
  or_new m u ns h none = if has_hash u ns h m then some m.memory_id else none

  view-snoc :
      (m : Memory env) (ms : List (Memory env)) (u : ℕ) (ns h : Text)
      → view (ms ++ m ∷ []) u ns h ≡ or_new m u ns h (view ms u ns h)
  unfolding view
  view-snoc m [] u ns h = refl
  view-snoc m (x ∷ ms) u ns h = elim (Bool-cases (has_hash u ns h x)) [
    | inl t ↦ rw (view, t) refl
    | inr f ↦ rw (view, f) (view-snoc m ms u ns h)
  ]

  same_key :
      (m : Memory env) (u : ℕ) (ns h : Text)
      → m.invalid_at ≡ none
      → has_hash u ns h m ≡ (m.user_id == u && text_eq m.namespace ns && text_eq m.content_hash h)
  unfolding has_hash is_active
  same_key m u ns h active = rw (has_hash, active) ground arith

  or_new_id :
      (m : Memory env) (u : ℕ) (ns h : Text) (o : Option ℕ)
      → has_hash u ns h m ≡ false
      → or_new m u ns h o ≡ o
  or_new_id m u ns h none f = rw f refl
  or_new_id m u ns h (some i) f = refl

  -- A new row under a key that is free.
  pub view-append :
      (m : Memory env) (ms : List (Memory env)) (u : ℕ) (ns h : Text)
      → m.invalid_at ≡ none
      → Free m ms
      → view (ms ++ m ∷ []) u ns h
        ≡ put_absent (view ms) m.user_id m.namespace m.content_hash m.memory_id u ns h
  unfolding put_absent
  view-append m ms u ns h active free =
      let empty = view-Free m ms free in
      let key = same_key m u ns h active in
      elim (Bool-cases (has_hash u ns h m)) [
        | inl t ↦
            let (user, name, hash, live) = has_hash-fields u ns h m t in
            let none_yet : view ms u ns h ≡ none = rw (user, name, hash) at empty in
            rw (put_absent, empty, sym key, t, view-snoc m ms u ns h, none_yet, t) refl
        | inr f ↦
            rw (put_absent, empty, sym key, f, view-snoc m ms u ns h)
              (or_new_id m u ns h (view ms u ns h) f)
      ]
