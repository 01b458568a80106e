-- ===== src/Teams/Processes.antt =====
-- Several processes with caches of their own and one second cache, over a table of memberships that
-- changes.
use kemory_community.Prelude.{
  ℕ, ◌+◌, ◌≡◌, ◌≤◌, ◌∙◌, inl, inr, Text, none, some, List, [], length, Bool-cases, ◌==◌,
  if◌then◌else◌, arith,
}
use kemory_community.Prelude.Dict.{lookup}
use kemory_community.Teams.Resolver.{
  FirstCache, SecondCache, Cachetools, RedisStatus, l2_key, l2_ttl, get_team_ids, invalidate_user,
  invalidate_for_org,
}
use kemory_community.Teams.Freshness.{both_ttl, FirstSound, SecondSound, Recent-later, get-Fresh}
use kemory_community.Teams.Dropping.{invalidate-Sound, remove-Sound, delete-Sound}

pub record Pods : Type 0 where
  pub locals : ℕ → FirstCache
  pub shared : SecondCache

abbrev pub set_local : ℕ → FirstCache → (ℕ → FirstCache) → ℕ → FirstCache
set_local p l1 locals q = if q == p then l1 else locals q

-- A call of one process for a user, which is named by the 36 characters of a UUID, and an
-- organisation.
pub data CacheCall : Type 0 where
  get drop_for_org : RedisStatus → Text → Text → CacheCall
  drop_user : Text → CacheCall

abbrev pub user_of : CacheCall → Text
user_of (get redis u o) = u
user_of (drop_for_org redis u o) = u
user_of (drop_user u) = u

module _ (tools : Cachetools) (members : ℕ → Text → Text → List Text) where
  -- A read of process `p` at the time `now`.
  unfoldable pub read :
      ℕ → ℕ → RedisStatus → Text → Text → Pods → List Text × FirstCache × SecondCache
  unfolding get_team_ids
  read p now redis u o w = get_team_ids tools redis u o (members now u o) now (w.locals p) w.shared

  unfoldable pub run : ℕ → ℕ → CacheCall → Pods → Pods
  unfolding read invalidate_for_org invalidate_user
  run p now (get redis u o) w =
      let (teams, l1, l2) = read p now redis u o w in
      record { locals = set_local p l1 w.locals; shared = l2 }
  run p now (drop_for_org redis u o) w =
      let (l1, l2) = invalidate_for_org redis u o (w.locals p) w.shared in
      record { locals = set_local p l1 w.locals; shared = l2 }
  run p now (drop_user u) w = record w {
    locals = set_local p (invalidate_user u (w.locals p)) w.locals;
  }

  -- Calls of any processes, one after the other, from empty caches; the time does not go back.
  pub data Reach (empty : SecondCache) : ℕ → Pods → Type 0 where
    start : Reach empty 0 (record { locals = λ p. []; shared = empty })
    step :
        {before : ℕ} {w : Pods} (p now : ℕ) (call : CacheCall)
        → Reach empty before w
        → before ≤ now
        → length (user_of call) ≡ 36
        → Reach empty now (run p now call w)

  abbrev pub IsSound : ℕ → Pods → Type 0
  IsSound now w = ((p : ℕ) → FirstSound members now (w.locals p)) × SecondSound members now w.shared

  set-Sound :
      (p now : ℕ) (l1 : FirstCache) (locals : ℕ → FirstCache)
      → FirstSound members now l1
      → ((q : ℕ) → FirstSound members now (locals q))
      → (q : ℕ) → FirstSound members now (set_local p l1 locals q)
  set-Sound p now l1 locals new old q = elim (Bool-cases (q == p)) [
    | inl t ↦ rw t new
    | inr f ↦ rw f (old q)
  ]

  SecondSound-later :
      (now later : ℕ) (l2 : SecondCache)
      → now ≤ later
      → SecondSound members now l2
      → SecondSound members later l2
  SecondSound-later now later none h s = tt
  SecondSound-later now later (some l2) h s =
      λ u o c uuid found. Recent-later members l2_ttl now later u o c h (s u o c uuid found)

  IsSound-later : (now later : ℕ) (w : Pods) → now ≤ later → IsSound now w → IsSound later w
  IsSound-later now later w h (first, second) = (
    λ p u o c found. Recent-later members both_ttl now later u o c h (first p u o c found),
    SecondSound-later now later w.shared h second,
  )

  run-IsSound :
      (p now : ℕ) (call : CacheCall) (w : Pods)
      → length (user_of call) ≡ 36
      → IsSound now w
      → IsSound now (run p now call w)
  unfolding run read invalidate_for_org
  run-IsSound p now (get redis u o) w uuid (first, second) =
      let (l1, l2, answer) =
        get-Fresh members tools redis u o now (w.locals p) w.shared uuid (first p) second in
      (set-Sound p now _ w.locals l1 first, l2)
  run-IsSound p now (drop_for_org redis u o) w uuid (first, second) = (
    set-Sound p now _ w.locals (remove-Sound members u o now (w.locals p) (first p)) first,
    delete-Sound members redis (l2_key u o) now w.shared second,
  )
  run-IsSound p now (drop_user u) w uuid (first, second) = (
    set-Sound p now _ w.locals (invalidate-Sound members u now (w.locals p) (first p)) first,
    second,
  )

  abbrev pub IsEmpty : SecondCache → Type 0
  IsEmpty none = Unit
  IsEmpty (some l2) = l2 ≡ []

  empty-Sound : (empty : SecondCache) → IsEmpty empty → SecondSound members 0 empty
  unfolding lookup
  empty-Sound none e = tt
  empty-Sound (some l2) e = λ u o c uuid found. cc (rw e at found)

  start-IsSound :
      (empty : SecondCache)
      → IsEmpty empty
      → IsSound 0 (record { locals = λ p. []; shared = empty })
  unfolding lookup
  start-IsSound empty e = (λ p u o c found. cc found, empty-Sound empty e)

  Reach-IsSound :
      (empty : SecondCache) (last : ℕ) (w : Pods)
      → IsEmpty empty
      → Reach empty last w
      → IsSound last w
  Reach-IsSound empty last w e start = start-IsSound empty e
  Reach-IsSound empty last w e (step {before = before} {w = v} p now call r h uuid) =
      run-IsSound p now call v uuid
        (IsSound-later before now v h (Reach-IsSound empty before v e r))

  -- From empty caches, whatever the processes read or drop and whether or not Redis works: where a
  -- user's memberships in an organisation are the same since some time, a read by any process at
  -- least sixty-five seconds after this time answers with them.
  pub read_settled :
      (empty : SecondCache) (last : ℕ) (w : Pods) (p now since : ℕ) (redis : RedisStatus)
      (u o : Text) (teams : List Text)
      → IsEmpty empty
      → Reach empty last w
      → last ≤ now
      → length u ≡ 36
      → ((t : ℕ) → since ≤ t → t ≤ now → members t u o ≡ teams)
      → since + both_ttl ≤ now
      → (read p now redis u o w).0 ≡ teams
  unfolding read
  read_settled empty last w p now since redis u o teams e r h uuid settled late =
      let (first, second) = IsSound-later last now w h (Reach-IsSound empty last w e r) in
      let (l1, l2, (t, past, recent, holds)) =
        get-Fresh members tools redis u o now (w.locals p) w.shared uuid (first p) second in
      holds ∙ settled t (omega (arith, recent, late)) past
