-- ===== src/Memory/Similar.antt =====
-- What the search for a similar memory can return.
use kemory_community.Prelude.{
  ℕ, ◌≡◌, refl, inl, inr, Text, Bool, true, false, ◌&&◌, Option, none, some, List, [], ◌∷◌, keep,
  length, take, ◌==◌, In, here, there, In-of_keep, In-of_take, Bool-cases, Option-cases,
  if◌then◌else◌, arith,
}
use kemory_community.Prelude.Order.{In-Shuffled}
use kemory_community.Memory.Schema.{Env, Memory, Scope, Db, Settings}
use kemory_community.Memory.Tenancy.{select_memories}
use kemory_community.Memory.Dedup.{
  is_in, best_candidate, legacy_duplicate, find_id, first_hit, find_semantic_duplicate, is_embedded,
  is_hit, hits_or_none, org_or_legacy,
}

-- A row that the search for a similar memory returns is an active one of the user in the namespace.
module _ {env : Env} (user_id : ℕ) (namespace : Text) (rows : List (Memory env)) where
  abbrev pub IsOwnRow : Memory env → Type 0
  IsOwnRow m = In m rows × (is_in user_id namespace m ≡ true)

  abbrev pub OwnMatch : Option (Memory env × env.Float) → Type 0
  OwnMatch none = Unit
  OwnMatch (some p) = IsOwnRow p.0

abbrev FromList : {env : Env} → List (Memory env) → Option (Memory env) → Type 0
FromList ms none = Unit
FromList ms (some m) = In m ms

FromList-later :
    {env : Env} (m : Memory env) (ms : List (Memory env)) (o : Option (Memory env))
    → FromList ms o
    → FromList (m ∷ ms) o
FromList-later m ms none h = tt
FromList-later m ms (some n) h = there h

find_id-In : {env : Env} (id : ℕ) (ms : List (Memory env)) → FromList ms (find_id id ms)
unfolding find_id
find_id-In id [] = tt
find_id-In id (m ∷ ms) = elim (Bool-cases (m.memory_id == id)) [
  | inl e ↦ rw e (here refl)
  | inr f ↦ rw f (FromList-later m ms (find_id id ms) (find_id-In id ms))
]

FromList-if :
    {env : Env} (b : Bool) (all : List (Memory env)) (m : Memory env) (best : Option (Memory env))
    → In m all
    → FromList all best
    → FromList all (if b then some m else best)
FromList-if true all m best i h = i
FromList-if false all m best i h = h

-- The best candidate is one of the list, or the one before.
best-FromList :
    {env : Env} (q : List env.Float) (all ms : List (Memory env)) (best : Option (Memory env))
    (score : env.Float)
    → FromList all best
    → ((m : Memory env) → In m ms → In m all)
    → FromList all (best_candidate {env = env} q best score ms).0
unfolding best_candidate
best-FromList q all [] best score h sub = h
best-FromList {env = env} q all (m ∷ ms) best score h sub =
    best-FromList {env = env} q all ms _ _ (FromList-if _ all m best (sub m (here refl)) h)
      (λ n i. sub n (there i))

module _ {env : Env} (user_id : ℕ) (namespace : Text) (scope : Scope) (db : Db env) where
  abbrev Own : Option (Memory env × env.Float) → Type 0
  Own o = OwnMatch user_id namespace db.memories o

  Own-select :
      (p : Memory env → Bool) (m : Memory env)
      → In m (select_memories scope (λ n. is_in user_id namespace n && p n) db)
      → IsOwnRow user_id namespace db.memories m
  Own-select p m i = let (inside, test) = In-of_keep _ db.memories i in (inside, ground arith)

  accepted :
      (threshold : env.Float) (q : List env.Float) (ms : List (Memory env))
      (o : Option (Memory env)) (score : env.Float)
      → ((m : Memory env) → In m ms → IsOwnRow user_id namespace db.memories m)
      → FromList ms o
      → Own (elim o [
        | none ↦ none
        | some m ↦ if env.le threshold score then some (m, score) else none
      ])
  accepted threshold q ms none score own h = tt
  accepted threshold q ms (some m) score own h = elim (Bool-cases (env.le threshold score)) [
    | inl e ↦ rw e (own m h)
    | inr f ↦ rw f tt
  ]

  legacy-Own :
      (threshold : env.Float) (limit : ℕ) (q : List env.Float)
      → Own (legacy_duplicate {env = env} user_id namespace threshold limit q scope db)
  unfolding legacy_duplicate
  legacy-Own threshold limit q =
      let found = take limit (
        env.scan (Memory env)
          (select_memories scope (λ m. is_in user_id namespace m && is_embedded m) db)) in
      accepted threshold q found _ _
        (λ m i.
          Own-select is_embedded m
            (In-Shuffled (env.scan-Shuffled (Memory env) _) (In-of_take limit _ i)))
        (best-FromList {env = env} q found found none env.zero tt (λ m i. i))

  hit-Own :
      (hits : List (ℕ × env.Float)) (ms : List (Memory env))
      → ((m : Memory env) → In m ms → IsOwnRow user_id namespace db.memories m)
      → Own (first_hit {env = env} hits ms)
  unfolding first_hit
  hit-Own [] ms own = tt
  hit-Own ((id, score) ∷ hits) ms own =
      let found = find_id-In id ms in
      elim (Option-cases (find_id id ms)) [
        | inl e ↦ rw (first_hit, e) (hit-Own hits ms own)
        | inr (m, e) ↦ rw (first_hit, e) (own m (rw e at found))
      ]

  -- A similar memory is an active row of the user in the namespace.
  pub similar-Own :
      (s : Settings env) (q : List env.Float)
      → Own (find_semantic_duplicate {env = env} s user_id namespace q scope db)
  unfolding find_semantic_duplicate
  similar-Own s q =
      let eligible =
        keep (λ h. env.le s.dedup_semantic_threshold h.1)
          (hits_or_none (
            env.search db.vectors namespace user_id (org_or_legacy s scope.org_id) q
              s.dedup_semantic_max_candidates)) in
      elim (Bool-cases (length eligible == 0)) [
        | inl e ↦ rw e (legacy-Own s.dedup_semantic_threshold s.dedup_semantic_max_candidates q)
        | inr f ↦ rw f (hit-Own eligible _ (Own-select (λ m. is_hit eligible m.memory_id)))
      ]
