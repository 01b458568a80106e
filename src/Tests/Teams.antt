-- ===== src/Tests/Teams.antt =====
-- Tests of the resolver of team memberships.
use kemory_community.Prelude.{
  ℕ, ◌≡◌, ◌≤◌, refl, Text, text, text_eq, true, some, List, [], ◌∷◌, inr, ltb, if◌then◌else◌, arith,
}
use kemory_community.Prelude.Dict.{lookup, insert}
use kemory_community.Teams.Resolver.{
  Cachetools, RedisStatus, get_team_ids, put_l1, read_l2, write_l2, l2_key,
}
use kemory_community.Teams.Processes.{Pods, CacheCall, Reach, run, read, read_settled}

abbrev tools : Cachetools
tools = record { evict = λ d. d; lookup-evict = λ k d. inr refl }

abbrev works : RedisStatus
works = record { reads = true; writes = true }

abbrev user : Text
user = text "00000000-0000-0000-0000-000000000007"

-- The user leaves the team "a" for "b" after one second.
abbrev members : ℕ → Text → Text → List Text
members t u o = if ltb t 1_000_000 then text "a" ∷ [] else text "b" ∷ []

abbrev pods : Pods
pods = record { locals = λ p. []; shared = some [] }

-- Process 0 reads at the start, process 1 just before the shared entry ends.
abbrev early : Pods
early = run tools members 0 0 (CacheCall.get works user (text "org")) pods

abbrev late : Pods
late = run tools members 1 59_000_000 (CacheCall.get works user (text "org")) early

-- Sixty-two seconds after the change process 1 still answers with the old team.
stale : (read tools members 1 63_000_000 works user (text "org") late).0 ≡ text "a" ∷ []
unfolding run read get_team_ids put_l1 read_l2 write_l2 lookup insert l2_key text_eq
stale = refl

abbrev trace : Reach tools members (some []) 59_000_000 late
trace =
    Reach.step 1 59_000_000 (CacheCall.get works user (text "org"))
      (Reach.step 0 0 (CacheCall.get works user (text "org")) Reach.start (omega arith) refl)
      (omega arith) refl

moved : (t : ℕ) → 1_000_000 ≤ t → t ≤ 66_000_000 → members t user (text "org") ≡ text "b" ∷ []
moved t since h = ground arith

read_settled_example :
    (read tools members 1 66_000_000 works user (text "org") late).0 ≡ text "b" ∷ []
read_settled_example =
    read_settled tools members (some []) 59_000_000 late 1 66_000_000 1_000_000 works user
      (text "org") (text "b" ∷ []) refl trace (omega arith) refl moved (omega arith)
