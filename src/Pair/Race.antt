-- ===== src/Pair/Race.antt =====
-- `mark_claimed` of backend/services/pair_service.py over Redis: it reads a copy of the record, and
-- writes it in another request, so that calls of two clients may interleave between the two.
use kemory_community.Prelude.{
  ℕ, ◌+◌, ◌-◌, ◌*◌, ◌/◌, ◌<◌, ◌≡◌, Text, ◌||◌, Option, none, some, leb, if◌then◌else◌,
}
use kemory_community.Pair.Record.{PairRecord, is_claimed, is_expired, claim}

-- A Redis database that keeps records as texts of JSON, which read back as what was written: `set`
-- writes with a lifetime in seconds, and `get` finds what was written last while that lasts.
pub record Redis : Type 1 where
  pub Db : Type 0
  pub get : Text → ℕ → Db → Option PairRecord
  pub set : Text → PairRecord → ℕ → ℕ → Db → Db
  pub get-set :
      (k : Text) (r : PairRecord) (ttl now later : ℕ) (db : Db)
      → later < now + ttl * 1_000_000
      → get k later (set k r ttl now db) ≡ some r

-- `max(1, int(record.expires_at - time.time()))`
unfoldable pub ttl_of : PairRecord → ℕ → ℕ
ttl_of r now = let left = (r.expires_at - now) / 1_000_000 in if leb 1 left then left else 1

module _ (redis : Redis) where
  open redis use {Db, get, set, get-set}

  -- The first request: `_load` and the tests, which leave a client with the copy to write.
  unfoldable pub begin_claim : Text → ℕ → Db → Option PairRecord
  begin_claim code now db = elim (get code now db) [
    | none ↦ none
    | some r ↦ if is_expired r now || is_claimed r then none else some r
  ]

  -- The second request: the assignments and `_save`.
  unfoldable pub end_claim : PairRecord → Text → Text → Text → ℕ → Db → PairRecord × Db
  end_claim r agent_id agent_name client_name now db =
      let r' = claim r agent_id agent_name client_name now in
      (r', set r.code r' (ttl_of r' now) now db)
