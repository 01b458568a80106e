-- ===== src/Memory/Unique.antt =====
-- The keys of the active rows stay different through an access, a deletion, an update that the unique
-- index lets through, and an INSERT.
use kemory_community.Prelude.{
  ℕ, ◌≡◌, refl, ap, ◌∙◌, Text, text_eq_iff, true, false, not, List, [], ◌∷◌, ◌++◌, keep, In, here,
  there, Bool-cases, ◌==◌, inl, inr, arith,
}
use kemory_community.Memory.Schema.{Env, Memory}
use kemory_community.Memory.Tenancy.{is_active}
use kemory_community.Memory.Dedup.{has_hash, assign}
use kemory_community.Memory.Keys.{HasKeys, Free, has_hash-fields}
use kemory_community.Memory.Table.{Fresh, UniqueIds, All-assign, assign-Fresh}

module _ {env : Env} where
  -- The two rows have the same key.
  abbrev pub SameKey : Memory env → Memory env → Type 0
  SameKey a b =
      (a.user_id ≡ b.user_id) × (a.namespace ≡ b.namespace) × (a.content_hash ≡ b.content_hash)

  -- An assignment that keeps the key and makes no deleted row active.
  abbrev pub IsQuiet : (Memory env → Memory env) → Type 0
  IsQuiet g =
      (m : Memory env)
      → SameKey (g m) m × (is_active (g m).invalid_at ≡ true → is_active m.invalid_at ≡ true)

  quiet-has_hash :
      (g : Memory env → Memory env)
      → IsQuiet g
      → (u : ℕ) (ns h : Text) (m : Memory env) → has_hash u ns h m ≡ false
      → has_hash u ns h (g m) ≡ false
  unfolding has_hash
  quiet-has_hash g quiet u ns h m differs =
      let ((user, name, hash), active) = quiet m in
      rw (user, name, hash) ground (arith, active, differs)

  pub HasKeys-quiet :
      (id : ℕ) (g : Memory env → Memory env) (ms : List (Memory env))
      → IsQuiet g
      → HasKeys ms
      → HasKeys (assign id g ms)
  unfolding assign
  HasKeys-quiet id g [] quiet k = tt
  HasKeys-quiet id g (m ∷ ms) quiet k =
      let ((user, name, hash), active) = quiet m in
      let free : is_active m.invalid_at ≡ true → Free m (assign id g ms) = λ a.
        All-assign _ id g ms (quiet-has_hash g quiet m.user_id m.namespace m.content_hash)
          (k.0 a) in
      elim (Bool-cases (m.memory_id == id)) [
        | inl t ↦
            rw (assign, t)
              (λ a. rw (user, name, hash) (free (active a)), HasKeys-quiet id g ms quiet k.1)
        | inr f ↦ rw (assign, f) (free, HasKeys-quiet id g ms quiet k.1)
      ]

  own_key :
      (m : Memory env)
      → is_active m.invalid_at ≡ true
      → has_hash m.user_id m.namespace m.content_hash m ≡ true
  unfolding has_hash
  own_key m active = ground (
    arith,
    active,
    text_eq_iff m.namespace m.namespace,
    text_eq_iff m.content_hash m.content_hash,
  )

  -- An active row is not under the key of `m`: then `m` is not under its key.
  pub apart :
      (x m : Memory env)
      → is_active x.invalid_at ≡ true
      → has_hash m.user_id m.namespace m.content_hash x ≡ false
      → has_hash x.user_id x.namespace x.content_hash m ≡ false
  apart x m active differs = elim (Bool-cases (has_hash x.user_id x.namespace x.content_hash m)) [
    | inr f ↦ f
    | inl t ↦
        let (user, name, hash, live) = has_hash-fields x.user_id x.namespace x.content_hash m t in
        let taken = rw (user, name, hash) at differs in absurd (cc (taken, own_key x active))
  ]

  Free-snoc :
      (x m : Memory env) (ms : List (Memory env))
      → has_hash x.user_id x.namespace x.content_hash m ≡ false
      → Free x ms
      → Free x (ms ++ m ∷ [])
  Free-snoc x m [] differs f = (differs, tt)
  Free-snoc x m (y ∷ ms) differs f = (f.0, Free-snoc x m ms differs f.1)

  pub HasKeys-snoc :
      (m : Memory env) (ms : List (Memory env)) → Free m ms → HasKeys ms → HasKeys (ms ++ m ∷ [])
  HasKeys-snoc m [] free k = (λ a. tt, tt)
  HasKeys-snoc m (x ∷ ms) free k =
      (λ a. Free-snoc x m ms (apart x m a free.0) (k.0 a), HasKeys-snoc m ms free.1 k.1)

  -- The rows other than that of the identifier.
  abbrev pub others : ℕ → List (Memory env) → List (Memory env)
  others id ms = keep (λ n. not (n.memory_id == id)) ms

  others-Fresh : (id : ℕ) (ms : List (Memory env)) → Fresh id ms → others id ms ≡ ms
  others-Fresh id [] f = refl
  others-Fresh id (m ∷ ms) f = rw f.0 (ap (λ l. m ∷ l) (others-Fresh id ms f.1))

  Free-assign :
      (x e : Memory env) (f : Memory env → Memory env) (ms : List (Memory env))
      → has_hash x.user_id x.namespace x.content_hash (f e) ≡ false
      → ((m : Memory env) → In m ms → (m.memory_id == e.memory_id) ≡ true → m ≡ e)
      → Free x ms
      → Free x (assign e.memory_id f ms)
  unfolding assign
  Free-assign x e f [] differs one free = tt
  Free-assign x e f (m ∷ ms) differs one free =
      let rest = Free-assign x e f ms differs (λ n i. one n (there i)) free.1 in
      elim (Bool-cases (m.memory_id == e.memory_id)) [
        | inl t ↦
            rw (assign, t)
              (
                ap (λ n. has_hash x.user_id x.namespace x.content_hash (f n)) (one m (here refl) t)
                    ∙ differs,
                rest,
              )
        | inr d ↦ rw (assign, d) (free.0, rest)
      ]

  -- An assignment to one row whose new key no other active row has.
  pub HasKeys-assign :
      (e : Memory env) (f : Memory env → Memory env) (ms : List (Memory env))
      → (f e).memory_id ≡ e.memory_id
      → UniqueIds ms
      → ((m : Memory env) → In m ms → (m.memory_id == e.memory_id) ≡ true → m ≡ e)
      → Free (f e) (others e.memory_id ms)
      → HasKeys ms
      → HasKeys (assign e.memory_id f ms)
  unfolding assign
  HasKeys-assign e f [] same u one free k = tt
  HasKeys-assign e f (m ∷ ms) same u one free k = elim (Bool-cases (m.memory_id == e.memory_id)) [
    | inl t ↦
        let is_e = one m (here refl) t in
        let fresh : Fresh e.memory_id ms = rw is_e at u.0 in
        rw (assign, t, assign-Fresh e.memory_id f ms fresh, is_e)
          (λ a. rw (t, others-Fresh e.memory_id ms fresh) at free, k.1)
    | inr d ↦
        let free' = rw d at free in
        rw (assign, d)
          (
            λ a. Free-assign m e f ms (apart m (f e) a free'.0) (λ n i. one n (there i)) (k.0 a),
            HasKeys-assign e f ms same u.1 (λ n i. one n (there i)) free'.1 k.1,
          )
  ]
