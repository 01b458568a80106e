-- ===== src/Memory/Conflicts.antt =====
-- When `create_memory` meets the unique index of the table.
use kemory_community.Prelude.{
  ◌≡◌, ◌≢◌, refl, sym, ◌∙◌, ◌⊎◌, inl, inr, Text, true, false, ◌&&◌, Option, none, List, ◌++◌, All,
  In-keep, arith,
}
use kemory_community.Prelude.Order.{All-In}
use kemory_community.Memory.Schema.{
  Env, Memory, MemoryCreate, MemoryResponse, Scope, Db, Settings, Failure, Answer, ok, raised,
  bad_timestamp, bad_uuid, integrity_error, multiple_results, Call,
}
use kemory_community.Memory.Tenancy.{is_active, is_readable}
use kemory_community.Memory.Dedup.{has_hash, content_hash}
use kemory_community.Memory.Access.{holds_key}
use kemory_community.Memory.Create.{in_namespace, create_memory}
use kemory_community.Memory.Ending.{
  found_in, HasKey, Ending, refused, ambiguous, unseen, matched, similar, inserted,
}
use kemory_community.Memory.Ways.{write-Ending}
use kemory_community.Memory.Stages.{is_conflict}
use kemory_community.Memory.Entry.{stopped, went_on, create-Way}
use kemory_community.Memory.Keys.{
  HasKeys, found-single, none_empty, holds-In, has_hash-fields, HasKeys-of_append,
}

module _ {env : Env} (call : Call) (scope : Scope) where
  -- The request reads all active rows of the user.
  abbrev pub SeesOwn : List (Memory env) → Type 0
  SeesOwn rows =
      All
        (λ m. m.user_id ≡ call.user_id → is_active m.invalid_at ≡ true → is_readable scope m ≡ true)
        rows

  -- A row under the key of a new row is found.
  seen :
      (namespace hash : Text) (rows arrived table : List (Memory env)) (m : Memory env)
      → HasKey call namespace hash scope rows arrived m
      → SeesOwn table
      → holds_key m table ≡ true
      → found_in call namespace hash scope rows arrived table ≢ ok none
  unfolding has_hash
  seen namespace hash rows arrived table m (id, user, ns, h, active) sees taken empty =
      let (n, i, t) = holds-In m table taken in
      let (u, ns', h', live) = has_hash-fields m.user_id m.namespace m.content_hash n t in
      let readable = All-In _ table sees i (u ∙ user) live in
      let found =
        In-keep (λ x. has_hash call.user_id namespace hash x && is_readable scope x) table i
          (rw (sym user, sym ns, sym h) ground (arith, t, readable)) in
      elim (rw (none_empty _ empty) at found) [ ]

  harmless : (f : Failure env) → (f ≡ bad_timestamp) ⊎ (f ≡ bad_uuid) → is_conflict f ≡ false
  harmless f (inl e) = rw e refl
  harmless f (inr e) = rw e refl

  unambiguous :
      (namespace hash : Text) (rows arrived table : List (Memory env)) (f : Failure env)
      → HasKeys table
      → found_in call namespace hash scope rows arrived table ≢ raised f
  unambiguous namespace hash rows arrived table f keys e =
      elim (found-single call.user_id namespace hash (is_readable scope) table keys) [
        | inl n ↦ cc (n, e)
        | inr (x, n) ↦ cc (n, e)
      ]

  no_conflict :
      (namespace hash : Text) (rows arrived : List (Memory env))
      (p : Answer env (MemoryResponse env) × Db env) (f : Failure env)
      → HasKeys (rows ++ arrived)
      → SeesOwn (rows ++ arrived)
      → Ending call namespace hash scope rows arrived p
      → p.0 ≡ raised f
      → is_conflict f ≡ false
  no_conflict namespace hash rows arrived p f keys sees (refused g h e k) r =
      let same : g ≡ f = cc (e, r) in rw (sym same) (harmless g h)
  no_conflict namespace hash rows arrived p f keys sees (ambiguous rs g (inl s) a e k) r = absurd (
      unambiguous namespace hash rows arrived rows g (HasKeys-of_append rows arrived keys)
        (rw s at a))
  no_conflict namespace hash rows arrived p f keys sees (ambiguous rs g (inr s) a e k) r =
      absurd (unambiguous namespace hash rows arrived (rows ++ arrived) g keys (rw s at a))
  no_conflict namespace hash rows arrived p f keys sees (unseen m key taken none_seen e k) r =
      absurd (seen namespace hash rows arrived _ m key sees taken none_seen)
  no_conflict namespace hash rows arrived p f keys sees (matched rs x r' t a e m d k) r = cc (e, r)
  no_conflict namespace hash rows arrived p f keys sees (similar x sc r' o e m d k) r = cc (e, r)
  no_conflict namespace hash rows arrived p f keys sees (inserted m r' key h e k d l) r = cc (e, r)

-- Where the active rows, those of other requests included, have different keys and the request reads
-- all of the user's active rows, no call ends with an error of the unique index or because a search
-- by hash finds several rows.
pub create_no_conflict :
    {env : Env} (s : Settings env) (call : Call) (request : MemoryCreate) (org_id : Option Text)
    (arrived : List (Memory env)) (scope : Scope) (db : Db env)
    → HasKeys (db.memories ++ arrived)
    → SeesOwn call scope (db.memories ++ arrived)
    → ((create_memory s call request org_id arrived scope db).0 ≢ raised integrity_error)
      × ((create_memory s call request org_id arrived scope db).0 ≢ raised multiple_results)
create_no_conflict {env = env} s call request org_id arrived scope db keys sees = (
  λ e. differ integrity_error refl (quiet integrity_error e),
  λ e. differ multiple_results refl (quiet multiple_results e),
)
  where
    differ : (f : Failure env) → is_conflict f ≡ true → is_conflict f ≡ false → ⊥
    differ f t u = cc (t, u)

    quiet :
        (f : Failure env)
        → (create_memory s call request org_id arrived scope db).0 ≡ raised f
        → is_conflict f ≡ false
    quiet f r = elim (create-Way s call request org_id arrived scope db) [
      | stopped g h e kept ↦ let same : g ≡ f = cc (e, r) in rw (sym same) h
      | went_on ns redirected_from db2 granted kept e ↦
          no_conflict call scope ns (content_hash env request.content) db2.memories arrived _ f
            (rw kept keys) (rw kept sees)
            (write-Ending s call (in_namespace request ns) org_id redirected_from arrived scope db
              db2 (sym kept))
            (rw e at r)
    ]
