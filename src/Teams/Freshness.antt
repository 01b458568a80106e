-- ===== src/Teams/Freshness.antt =====
-- How old an answer of the resolver can be.
use kemory_community.Prelude.{
  ℕ, ◌+◌, ◌≡◌, ◌≤◌, ◌<◌, refl, sym, ap, ◌∙◌, inl, inr, Text, text, text_eq, text_eq_iff, Option,
  none, some, List, ◌∷◌, ◌++◌, length, ltb, Bool-cases, Option-cases, arith,
}
use kemory_community.Prelude.Dict.{
  lookup, insert, str_eq, pair_eq, pair_beq, pair_beq_iff, lookup-insert,
}
use kemory_community.Prelude.Ends.{append_cancel, same_ends}
use kemory_community.Teams.Resolver.{
  Cached, FirstCache, SecondCache, Cachetools, RedisStatus, l1_ttl, l2_ttl, l2_key, alive, entry,
  put_l1, read_l2, write_l2, get_team_ids,
}

-- Sixty-five seconds: the lifetimes of both caches.
abbrev pub both_ttl : ℕ
both_ttl = 65_000_000

alive-some :
    (now : ℕ) (o : Option Cached) (teams : List Text)
    → alive now o ≡ some teams
    → (c : Cached) × (o ≡ some c) × (now < c.expires_at) × (c.teams ≡ teams)
alive-some now none teams h = cc h
alive-some now (some c) teams h = elim (Bool-cases (ltb now c.expires_at)) [
  | inl t ↦ (c, refl, ground (arith, t), cc (rw t at h))
  | inr f ↦ cc (rw f at h)
]

l2_key-injective :
    (u o u' o' : Text) → length u ≡ length u' → l2_key u o ≡ l2_key u' o' → (u ≡ u') × (o ≡ o')
unfolding l2_key
l2_key-injective u o u' o' l e =
    let rest = append_cancel (text "kemory:teams:") (o ++ b':' ∷ u) (o' ++ b':' ∷ u') e in
    let (org, user) = same_ends o o' (b':' ∷ u) (b':' ∷ u') (omega (arith, l)) rest in
    (cc user, org)

module _ (members : ℕ → Text → Text → List Text) where
  -- The entry holds what the table held at some time, and its lifetime ends soon enough after it.
  abbrev pub Recent : ℕ → ℕ → Text → Text → Cached → Type 0
  Recent slack now user_id org_id c =
      (t : ℕ) × (t ≤ now) × (c.expires_at ≤ t + slack) × (c.teams ≡ members t user_id org_id)

  abbrev pub FirstSound : ℕ → FirstCache → Type 0
  FirstSound now l1 =
      (u o : Text) (c : Cached) → lookup (u, o) l1 ≡ some c → Recent both_ttl now u o c

  abbrev pub SecondSound : ℕ → SecondCache → Type 0
  SecondSound now none = Unit
  SecondSound now (some l2) =
      (u o : Text) (c : Cached)
      → length u ≡ 36
      → lookup (l2_key u o) l2 ≡ some c
      → Recent l2_ttl now u o c

  -- The answer is what the table held less than sixty-five seconds ago.
  abbrev pub IsRecent : ℕ → Text → Text → List Text → Type 0
  IsRecent now u o teams = (t : ℕ) × (t ≤ now) × (now < t + both_ttl) × (teams ≡ members t u o)

  pub Recent-later :
      (slack now later : ℕ) (u o : Text) (c : Cached)
      → now ≤ later
      → Recent slack now u o c
      → Recent slack later u o c
  Recent-later slack now later u o c h (t, past, soon, holds) =
      (t, omega (arith, h, past), soon, holds)

  put_l1-Sound :
      (tools : Cachetools) (u o : Text) (teams : List Text) (now : ℕ) (l1 : FirstCache) (t : ℕ)
      → FirstSound now l1
      → t ≤ now
      → now + l1_ttl ≤ t + both_ttl
      → teams ≡ members t u o
      → FirstSound now (put_l1 tools u o teams now l1)
  unfolding put_l1
  put_l1-Sound tools u o teams now l1 t sound past soon holds u' o' c found =
      let d = insert (u, o) (entry teams (now + l1_ttl)) l1 in
      elim (tools.lookup-evict (u', o') d) [
        | inl gone ↦ cc (sym gone ∙ found)
        | inr same ↦
            let inside = sym (lookup-insert (u, o) (u', o') _ l1) ∙ (sym same ∙ found) in
            elim (Bool-cases (pair_beq (u, o) (u', o'))) [
              | inr f ↦ sound u' o' c (rw f at inside)
              | inl e ↦
                  let hit : some (entry teams (now + l1_ttl)) ≡ some c = rw e at inside in
                  let is_c : entry teams (now + l1_ttl) ≡ c = cc hit in
                  let key = (pair_beq_iff (u, o) (u', o')).0 e in
                  rw (sym is_c, sym (ap (λ k. k.0) key), sym (ap (λ k. k.1) key))
                    (t, past, soon, holds)
            ]
      ]

  write_l2-Sound :
      (redis : RedisStatus) (u o : Text) (now : ℕ) (l2 : SecondCache)
      → length u ≡ 36
      → SecondSound now l2
      → SecondSound now (write_l2 redis u o (members now u o) now l2)
  unfolding write_l2
  write_l2-Sound redis u o now none uuid sound = tt
  write_l2-Sound redis u o now (some l2) uuid sound = elim (Bool-cases redis.writes) [
    | inr f ↦ rw (write_l2, f) sound
    | inl w ↦
        rw (write_l2, w)
          (λ u' o' c uuid' found.
            let key = l2_key u o in
            let inside = sym (lookup-insert key (l2_key u' o') _ l2) ∙ found in
            elim (Bool-cases (text_eq key (l2_key u' o'))) [
              | inr f ↦ sound u' o' c uuid' (rw f at inside)
              | inl e ↦
                  let hit : some (entry (members now u o) (now + l2_ttl)) ≡ some c =
                    rw e at inside in
                  let is_c : entry (members now u o) (now + l2_ttl) ≡ c = cc hit in
                  let (user, org) =
                    l2_key-injective u o u' o' (uuid ∙ sym uuid') ((text_eq_iff _ _).0 e) in
                  rw (sym is_c, sym user, sym org) (now, omega arith, omega arith, refl)
            ])
  ]

  read_l2-Recent :
      (redis : RedisStatus) (u o : Text) (now : ℕ) (l2 : SecondCache) (teams : List Text)
      → length u ≡ 36
      → SecondSound now l2
      → read_l2 redis u o now l2 ≡ some teams
      → (t : ℕ) × (t ≤ now) × (now < t + l2_ttl) × (teams ≡ members t u o)
  unfolding read_l2
  read_l2-Recent redis u o now none teams uuid sound h = cc h
  read_l2-Recent redis u o now (some l2) teams uuid sound h = elim (Bool-cases redis.reads) [
    | inr f ↦ cc (rw (read_l2, f) at h)
    | inl r ↦
        let (c, found, live, same) = alive-some now _ teams (rw (read_l2, r) at h) in
        let (t, past, soon, holds) = sound u o c uuid found in
        (t, past, omega (arith, live, soon), sym same ∙ holds)
  ]

  -- What one read of the memberships gives and leaves.
  abbrev pub Fresh : ℕ → Text → Text → List Text × FirstCache × SecondCache → Type 0
  Fresh now u o r = FirstSound now r.1 × SecondSound now r.2 × IsRecent now u o r.0

  pub get-Fresh :
      (tools : Cachetools) (redis : RedisStatus) (u o : Text) (now : ℕ) (l1 : FirstCache)
      (l2 : SecondCache)
      → length u ≡ 36
      → FirstSound now l1
      → SecondSound now l2
      → Fresh now u o (get_team_ids tools redis u o (members now u o) now l1 l2)
  unfolding get_team_ids
  get-Fresh tools redis u o now l1 l2 uuid first second =
      elim (Option-cases (alive now (lookup (u, o) l1))) [
        | inr (teams, e) ↦
            let (c, found, live, same) = alive-some now _ teams e in
            let (t, past, soon, holds) = first u o c found in
            rw (get_team_ids, e)
              (first, second, (t, past, omega (arith, live, soon), sym same ∙ holds))
        | inl e ↦ elim (Option-cases (read_l2 redis u o now l2)) [
          | inr (teams, e') ↦
              let (t, past, soon, holds) = read_l2-Recent redis u o now l2 teams uuid second e' in
              rw (get_team_ids, e, e')
                (
                  put_l1-Sound tools u o teams now l1 t first past (omega (arith, soon)) holds,
                  second,
                  (t, past, omega (arith, soon), holds),
                )
          | inl e' ↦
              rw (get_team_ids, e, e')
                (
                  put_l1-Sound tools u o (members now u o) now l1 now first (omega arith)
                      (omega arith) refl,
                  write_l2-Sound redis u o now l2 uuid second,
                  (now, omega arith, omega arith, refl),
                )
        ]
      ]
