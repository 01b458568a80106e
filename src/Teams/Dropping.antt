-- ===== src/Teams/Dropping.antt =====
-- Dropping entries leaves the others as fresh as they were.
use kemory_community.Prelude.{
  ℕ, ◌≡◌, refl, sym, ap, ◌∙◌, inl, inr, Text, text_eq, Bool, true, false, not, Option, none, some,
  List, [], ◌∷◌, keep, Bool-cases, if◌then◌else◌,
}
use kemory_community.Prelude.Dict.{
  lookup, remove, str_eq, pair_eq, pair_beq, pair_beq_iff, lookup-remove,
}
use kemory_community.Teams.Resolver.{
  Cached, FirstCache, SecondCache, RedisStatus, l2_key, delete_l2, invalidate_user,
}
use kemory_community.Teams.Freshness.{FirstSound, SecondSound}

-- A test of the keys keeps all entries of a key or none.
lookup-keep_key :
    (p : Text × Text → Bool) (k : Text × Text) (d : FirstCache)
    → lookup k (keep (λ q. p q.0) d) ≡ (if p k then lookup k d else none)
unfolding lookup
lookup-keep_key p k [] = elim (Bool-cases (p k)) [ inl t ↦ rw t refl | inr f ↦ rw f refl ]
lookup-keep_key p k ((j, v) ∷ d) =
    let rest = lookup-keep_key p k d in
    elim (Bool-cases (pair_beq j k)) [
      | inl same ↦
          let key = ap p ((pair_beq_iff j k).0 same) in
          elim (Bool-cases (p j)) [
            | inl t ↦ rw (t, same, sym key ∙ t) refl
            | inr f ↦ rw (f, rest, sym key ∙ f) refl
          ]
      | inr other ↦ elim (Bool-cases (p j)) [
        | inl t ↦ rw (t, other) rest
        | inr f ↦ rw (f, other) rest
      ]
    ]

module _ (members : ℕ → Text → Text → List Text) where
  dropped :
      (b : Bool) (o : Option Cached) (c : Cached) → (if b then o else none) ≡ some c → o ≡ some c
  dropped true o c h = h
  dropped false o c h = cc h

  pub invalidate-Sound :
      (u : Text) (now : ℕ) (l1 : FirstCache)
      → FirstSound members now l1
      → FirstSound members now (invalidate_user u l1)
  unfolding invalidate_user
  invalidate-Sound u now l1 sound u' o' c found =
      sound u' o' c
        (dropped _ _ c (sym (lookup-keep_key (λ k. not (text_eq k.0 u)) (u', o') l1) ∙ found))

  remaining :
      (b : Bool) (o : Option Cached) (c : Cached) → (if b then none else o) ≡ some c → o ≡ some c
  remaining true o c h = cc h
  remaining false o c h = h

  pub remove-Sound :
      (u o : Text) (now : ℕ) (l1 : FirstCache)
      → FirstSound members now l1
      → FirstSound members now (remove (u, o) l1)
  remove-Sound u o now l1 sound u' o' c found =
      sound u' o' c (remaining _ _ c (sym (lookup-remove (u, o) (u', o') l1) ∙ found))

  pub delete-Sound :
      (redis : RedisStatus) (key : Text) (now : ℕ) (l2 : SecondCache)
      → SecondSound members now l2
      → SecondSound members now (delete_l2 redis key l2)
  delete-Sound redis key now none sound = tt
  delete-Sound redis key now (some l2) sound = elim (Bool-cases redis.writes) [
    | inr f ↦ rw f sound
    | inl w ↦ rw w (λ u o c uuid found.
        sound u o c uuid (remaining _ _ c (sym (lookup-remove key (l2_key u o) l2) ∙ found)))
  ]
