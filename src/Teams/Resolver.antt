-- ===== src/Teams/Resolver.antt =====
-- backend/services/team_resolver.py: the two caches of team memberships, and the functions that read
-- and drop them. A user is named by the text of an identifier; each process has its own first cache,
-- all share the second one, which Redis keeps.
use kemory_community.Prelude.{
  ℕ, ◌+◌, ◌≡◌, ◌⊎◌, Text, text, text_eq, Bool, not, Option, none, some, List, ◌∷◌, ◌++◌, keep, ltb,
  if◌then◌else◌,
}
use kemory_community.Prelude.Dict.{Dict, lookup, insert, remove, str_eq, pair_eq}

pub record Cached : Type 0 where
  pub teams : List Text
  pub expires_at : ℕ

abbrev pub FirstCache : Type 0
FirstCache = Dict (Text × Text) Cached

-- `none` where there is no Redis client.
abbrev pub SecondCache : Type 0
SecondCache = Option (Dict Text Cached)

-- What a bounded `TTLCache` drops when it is full: what is left is as it was.
pub record Cachetools : Type 0 where
  pub evict : FirstCache → FirstCache
  pub lookup-evict :
      (k : Text × Text) (d : FirstCache)
      → (lookup k (evict d) ≡ none) ⊎ (lookup k (evict d) ≡ lookup k d)

-- Whether the calls of Redis work in one request; a text that is no JSON counts as a failing read.
pub record RedisStatus : Type 0 where
  pub reads : Bool
  pub writes : Bool

abbrev pub l1_ttl : ℕ
l1_ttl = 5_000_000

abbrev pub l2_ttl : ℕ
l2_ttl = 60_000_000

unfoldable pub l2_key : Text → Text → Text
l2_key user_id org_id = text "kemory:teams:" ++ (org_id ++ b':' ∷ user_id)

-- The entry if its time is not over.
abbrev pub alive : ℕ → Option Cached → Option (List Text)
alive now none = none
alive now (some c) = if ltb now c.expires_at then some c.teams else none

abbrev pub entry : List Text → ℕ → Cached
entry teams expires_at = record { teams = teams; expires_at = expires_at }

unfoldable pub put_l1 : Cachetools → Text → Text → List Text → ℕ → FirstCache → FirstCache
unfolding insert
put_l1 tools user_id org_id teams now l1 =
    tools.evict (insert (user_id, org_id) (entry teams (now + l1_ttl)) l1)

unfoldable pub read_l2 : RedisStatus → Text → Text → ℕ → SecondCache → Option (List Text)
unfolding lookup l2_key
read_l2 redis user_id org_id now none = none
read_l2 redis user_id org_id now (some l2) =
    if redis.reads then alive now (lookup (l2_key user_id org_id) l2) else none

unfoldable pub write_l2 : RedisStatus → Text → Text → List Text → ℕ → SecondCache → SecondCache
unfolding insert l2_key
write_l2 redis user_id org_id teams now none = none
write_l2 redis user_id org_id teams now (some l2) =
    if redis.writes
    then some (insert (l2_key user_id org_id) (entry teams (now + l2_ttl)) l2)
    else some l2

-- `stored` is what the query of the members table answers.
unfoldable pub get_team_ids :
    Cachetools
    → RedisStatus
    → Text
    → Text
    → List Text
    → ℕ
    → FirstCache
    → SecondCache
    → List Text × FirstCache × SecondCache
unfolding put_l1 read_l2 write_l2 lookup
get_team_ids tools redis user_id org_id stored now l1 l2 =
    elim (alive now (lookup (user_id, org_id) l1)) [
      | some teams ↦ (teams, l1, l2)
      | none ↦ elim (read_l2 redis user_id org_id now l2) [
        | some teams ↦ (teams, put_l1 tools user_id org_id teams now l1, l2)
        | none ↦ (
          stored,
          put_l1 tools user_id org_id stored now l1,
          write_l2 redis user_id org_id stored now l2,
        )
      ]
    ]

unfoldable pub invalidate_user : Text → FirstCache → FirstCache
invalidate_user user_id l1 = keep (λ p. not (text_eq p.0.0 user_id)) l1

abbrev pub delete_l2 : RedisStatus → Text → SecondCache → SecondCache
delete_l2 redis key none = none
delete_l2 redis key (some l2) = if redis.writes then some (remove key l2) else some l2

unfoldable pub invalidate_for_org :
    RedisStatus → Text → Text → FirstCache → SecondCache → FirstCache × SecondCache
unfolding remove l2_key
invalidate_for_org redis user_id org_id l1 l2 =
    (remove (user_id, org_id) l1, delete_l2 redis (l2_key user_id org_id) l2)
