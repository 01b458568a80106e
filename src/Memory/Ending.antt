-- ===== src/Memory/Ending.antt =====
-- What the last part of `create_memory` can come to: one case for each way through the deduplication
-- and the INSERT.
use kemory_community.Prelude.{
  ◌≡◌, refl, ◌⊎◌, inl, inr, Text, true, false, ◌&&◌, Option, none, some, List, [], ◌∷◌, ◌++◌, keep,
}
use kemory_community.Memory.Schema.{
  Env, Memory, MemoryResponse, exact_hash, semantic, Scope, Db, Failure, Answer, ok, raised,
  bad_timestamp, bad_uuid, integrity_error, Call,
}
use kemory_community.Memory.Tenancy.{is_readable}
use kemory_community.Memory.Dedup.{has_hash, scalar_one_or_none, assign, count_access}
use kemory_community.Memory.Access.{holds_key}
use kemory_community.Memory.Similar.{IsOwnRow}

pub Answer-cases :
    {env : Env} {A : Type 0} (a : Answer env A)
    → ((f : Failure env) × (a ≡ raised f)) ⊎ ((x : A) × (a ≡ ok x))
Answer-cases (ok x) = inr (x, refl)
Answer-cases (raised f) = inl (f, refl)

module _ {env : Env} (call : Call) (namespace hash : Text) (scope : Scope)
    (rows arrived : List (Memory env)) where
  -- What a search by hash finds in the rows of a table.
  abbrev pub found_in : List (Memory env) → Answer env (Option (Memory env))
  found_in rs =
      scalar_one_or_none
        (keep (λ m. has_hash call.user_id namespace hash m && is_readable scope m) rs)

  abbrev pub IsTable : List (Memory env) → Type 0
  IsTable rs = (rs ≡ rows) ⊎ (rs ≡ rows ++ arrived)

  -- The new row has the key that was searched for.
  abbrev pub HasKey : Memory env → Type 0
  HasKey m =
      (m.memory_id ≡ call.memory_id)
      × (m.user_id ≡ call.user_id)
      × (m.namespace ≡ namespace)
      × (m.content_hash ≡ hash)
      × (m.invalid_at ≡ none)

  pub data Ending (p : Answer env (MemoryResponse env) × Db env) : Type 0 where
    refused :
        (f : Failure env)
        → (f ≡ bad_timestamp) ⊎ (f ≡ bad_uuid)
        → p.0 ≡ raised f
        → p.1.memories ≡ rows
        → Ending p
    ambiguous :
        (rs : List (Memory env)) (f : Failure env)
        → IsTable rs
        → found_in rs ≡ raised f
        → p.0 ≡ raised f
        → p.1.memories ≡ rs
        → Ending p
    unseen :
        (m : Memory env)
        → HasKey m
        → holds_key m (rows ++ arrived) ≡ true
        → found_in (rows ++ arrived) ≡ ok none
        → p.0 ≡ raised integrity_error
        → p.1.memories ≡ rows ++ arrived
        → Ending p
    matched :
        (rs : List (Memory env)) (e : Memory env) (r : MemoryResponse env)
        → IsTable rs
        → found_in rs ≡ ok (some e)
        → p.0 ≡ ok r
        → r.memory ≡ count_access call.now e
        → r.dedup ≡ some exact_hash
        → p.1.memories ≡ assign e.memory_id (count_access call.now) rs
        → Ending p
    similar :
        (e : Memory env) (score : env.Float) (r : MemoryResponse env)
        → IsOwnRow call.user_id namespace rows e
        → p.0 ≡ ok r
        → r.memory ≡ count_access call.now e
        → r.dedup ≡ some (semantic score)
        → p.1.memories ≡ assign e.memory_id (count_access call.now) rows
        → Ending p
    inserted :
        (m : Memory env) (r : MemoryResponse env)
        → HasKey m
        → holds_key m (rows ++ arrived) ≡ false
        → p.0 ≡ ok r
        → r.memory ≡ m
        → r.dedup ≡ none
        → p.1.memories ≡ (rows ++ arrived) ++ m ∷ []
        → Ending p
