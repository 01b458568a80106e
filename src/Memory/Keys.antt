-- ===== src/Memory/Keys.antt =====
-- The unique key (user_id, namespace, content_hash) of the active rows, and what a search by hash
-- finds under it.
use kemory_community.Prelude.{
  ℕ, ◌≡◌, refl, ◌⊎◌, inl, inr, Text, text_eq_iff, Bool, true, false, ◌&&◌, none, some, List, [],
  ◌∷◌, ◌++◌, keep, All, In, here, there, Bool-cases, arith,
}
use kemory_community.Memory.Schema.{Env, Memory, ok}
use kemory_community.Memory.Tenancy.{is_active}
use kemory_community.Memory.Dedup.{has_hash, scalar_one_or_none}
use kemory_community.Memory.Access.{holds_key}

module _ {env : Env} where
  -- No row under the key of `m`.
  abbrev pub Free : Memory env → List (Memory env) → Type 0
  Free m ms = All (λ n. has_hash m.user_id m.namespace m.content_hash n ≡ false) ms

  -- No two active rows have the same key.
  abbrev pub HasKeys : List (Memory env) → Type 0
  HasKeys [] = Unit
  HasKeys (m ∷ ms) = (is_active m.invalid_at ≡ true → Free m ms) × HasKeys ms

  pub has_hash-fields :
      (user_id : ℕ) (namespace hash : Text) (m : Memory env)
      → has_hash user_id namespace hash m ≡ true
      → (m.user_id ≡ user_id)
        × (m.namespace ≡ namespace)
        × (m.content_hash ≡ hash)
        × (is_active m.invalid_at ≡ true)
  unfolding has_hash
  has_hash-fields user_id namespace hash m h =
      ground (arith, text_eq_iff m.namespace namespace, text_eq_iff m.content_hash hash)

  module _ (user_id : ℕ) (namespace hash : Text) (p : Memory env → Bool) where
    abbrev found : List (Memory env) → List (Memory env)
    found ms = keep (λ m. has_hash user_id namespace hash m && p m) ms

    pub none_found :
        (ms : List (Memory env))
        → All (λ n. has_hash user_id namespace hash n ≡ false) ms
        → found ms ≡ []
    none_found [] h = refl
    none_found (m ∷ ms) h = rw h.0 (none_found ms h.1)

    -- A search by hash finds no row or one.
    pub found-single :
        (ms : List (Memory env))
        → HasKeys ms
        → (scalar_one_or_none (found ms) ≡ ok none)
          ⊎ ((e : Memory env) × (scalar_one_or_none (found ms) ≡ ok (some e)))
    unfolding scalar_one_or_none
    found-single [] k = inl refl
    found-single (m ∷ ms) k = elim (Bool-cases (has_hash user_id namespace hash m && p m)) [
      | inr f ↦ rw f (found-single ms k.1)
      | inl t ↦
          let (user, ns, h, active) = has_hash-fields user_id namespace hash m (ground arith) in
          let alone = none_found ms (rw (user, ns, h) at k.0 active) in inr (m, rw (t, alone) refl)
    ]

  pub none_empty : (ms : List (Memory env)) → scalar_one_or_none ms ≡ ok none → ms ≡ []
  unfolding scalar_one_or_none
  none_empty [] h = refl
  none_empty (m ∷ []) h = cc
  none_empty (m ∷ n ∷ ms) h = cc

  pub scalar_one :
      (ms : List (Memory env)) (e : Memory env) → scalar_one_or_none ms ≡ ok (some e) → ms ≡ e ∷ []
  unfolding scalar_one_or_none
  scalar_one [] e h = cc
  scalar_one (m ∷ []) e h = cc
  scalar_one (m ∷ n ∷ ms) e h = cc

  -- A key that is taken has a row.
  pub holds-In :
      (m : Memory env) (ms : List (Memory env))
      → holds_key m ms ≡ true
      → (n : Memory env) × In n ms × (has_hash m.user_id m.namespace m.content_hash n ≡ true)
  unfolding holds_key
  holds-In m [] h = cc
  holds-In m (x ∷ ms) h = elim (Bool-cases (has_hash m.user_id m.namespace m.content_hash x)) [
    | inl t ↦ (x, here refl, t)
    | inr f ↦ let (n, i, e) = holds-In m ms (rw (holds_key, f) at h) in (n, there i, e)
  ]

  pub holds-Free : (m : Memory env) (ms : List (Memory env)) → holds_key m ms ≡ false → Free m ms
  unfolding holds_key
  holds-Free m [] h = tt
  holds-Free m (x ∷ ms) h = (ground arith, holds-Free m ms (ground arith))

  pub HasKeys-of_append : (ms ns : List (Memory env)) → HasKeys (ms ++ ns) → HasKeys ms
  HasKeys-of_append [] ns k = tt
  HasKeys-of_append (m ∷ ms) ns k =
      (λ a. Free-of_append m ms ns (k.0 a), HasKeys-of_append ms ns k.1)
    where
      Free-of_append : (m : Memory env) (ms ns : List (Memory env)) → Free m (ms ++ ns) → Free m ms
      Free-of_append m [] ns h = tt
      Free-of_append m (x ∷ ms) ns h = (h.0, Free-of_append m ms ns h.1)
