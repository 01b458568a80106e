-- ===== src/Orgs/Granting.antt =====
-- Where a resolved organisation comes from.
use kemory_community.Prelude.{
  ℕ, ◌+◌, ◌≡◌, ◌⊎◌, refl, sym, ap, ◌∙◌, inl, inr, Text, text, text_eq, text_eq_iff, Option, true,
  none, some, [], ◌∷◌, ◌++◌, length, ltb, leb, ◌==◌, ==_iff, ◌||◌, Bool-cases, Option-cases, arith,
}
use kemory_community.Prelude.Dict.{
  lookup, insert, str_eq, pair_eq, pair_beq, pair_beq_iff, lookup-insert,
}
use kemory_community.Prelude.Ends.{append_cancel, same_ends}
use kemory_community.Teams.Resolver.{RedisStatus}
use kemory_community.Orgs.Resolver.{
  OrgMembership, membership, Held, RoleCache, SharedCache, Bounded, Body, Json, Response, response,
  object, OrgResult, ok, org_resolve_error, attribute_error, local_ttl, shared_ttl, role_key, live,
  hold, put_local, read_shared, write_shared, read_body, keep_answer, ask_endpoint,
  resolve_org_role,
}
use kemory_community.Orgs.ActiveOrg.{
  OrgSettings, AuthContext, ResolvedActiveOrg, admit, has_no_text, is_resolved, requested_org,
  resolve_active_org,
}

live-some :
    (now : ℕ) (o : Option Held) (m : OrgMembership)
    → live now o ≡ some m
    → (c : Held) × (o ≡ some c) × (c.held ≡ m)
live-some now none m h = cc h
live-some now (some c) m h = elim (Bool-cases (ltb now c.expires_at)) [
  | inl t ↦ (c, refl, cc (rw t at h))
  | inr f ↦ cc (rw f at h)
]

role_key-injective :
    (u o u' o' : Text) → length u ≡ length u' → role_key u o ≡ role_key u' o' → (u ≡ u') × (o ≡ o')
unfolding role_key
role_key-injective u o u' o' l e =
    let rest = append_cancel (text "kemory:orgrole:") (o ++ b':' ∷ u) (o' ++ b':' ∷ u') e in
    let (org, user) = same_ends o o' (b':' ∷ u) (b':' ∷ u') (omega (arith, l)) rest in
    (cc user, org)

-- `Vouched user org m`: the endpoint has answered that `m` is the membership of the user.
module _ (Vouched : Text → Text → OrgMembership → Type 0) where
  abbrev pub LocalVouched : RoleCache → Type 0
  LocalVouched l1 = (u o : Text) (c : Held) → lookup (u, o) l1 ≡ some c → Vouched u o c.held

  abbrev pub SharedVouched : SharedCache → Type 0
  SharedVouched none = Unit
  SharedVouched (some l2) =
      (u o : Text) (c : Held)
      → length u ≡ 36
      → lookup (role_key u o) l2 ≡ some c
      → Vouched u o c.held

  abbrev pub AnswerVouched : Text → Text → Response → Type 0
  AnswerVouched u o answer =
      (b : Body) → answer ≡ response 200 (object b) → Vouched u o (read_body b)

  put_local-Vouched :
      (tools : Bounded) (u o : Text) (m : OrgMembership) (now : ℕ) (l1 : RoleCache)
      → LocalVouched l1
      → Vouched u o m
      → LocalVouched (put_local tools u o m now l1)
  unfolding put_local
  put_local-Vouched tools u o m now l1 sound new u' o' c found =
      let d = insert (u, o) (hold m (now + local_ttl)) l1 in
      elim (tools.lookup-evict (u', o') d) [
        | inl gone ↦ cc (sym gone ∙ found)
        | inr same ↦
            let inside = sym (lookup-insert (u, o) (u', o') _ l1) ∙ (sym same ∙ found) in
            elim (Bool-cases (pair_beq (u, o) (u', o'))) [
              | inr f ↦ sound u' o' c (rw f at inside)
              | inl e ↦
                  let hit : some (hold m (now + local_ttl)) ≡ some c = rw e at inside in
                  let is_c : hold m (now + local_ttl) ≡ c = cc hit in
                  let key = (pair_beq_iff (u, o) (u', o')).0 e in
                  rw (sym is_c, sym (ap (λ k. k.0) key), sym (ap (λ k. k.1) key)) new
            ]
      ]

  write_shared-Vouched :
      (redis : RedisStatus) (u o : Text) (m : OrgMembership) (now : ℕ) (l2 : SharedCache)
      → length u ≡ 36
      → SharedVouched l2
      → Vouched u o m
      → SharedVouched (write_shared redis u o m now l2)
  unfolding write_shared
  write_shared-Vouched redis u o m now none uuid sound new = tt
  write_shared-Vouched redis u o m now (some l2) uuid sound new = elim (Bool-cases redis.writes) [
    | inr f ↦ rw (write_shared, f) sound
    | inl w ↦
        rw (write_shared, w)
          (λ u' o' c uuid' found.
            let key = role_key u o in
            let inside = sym (lookup-insert key (role_key u' o') _ l2) ∙ found in
            elim (Bool-cases (text_eq key (role_key u' o'))) [
              | inr f ↦ sound u' o' c uuid' (rw f at inside)
              | inl e ↦
                  let hit : some (hold m (now + shared_ttl)) ≡ some c = rw e at inside in
                  let is_c : hold m (now + shared_ttl) ≡ c = cc hit in
                  let (user, org) =
                    role_key-injective u o u' o' (uuid ∙ sym uuid') ((text_eq_iff _ _).0 e) in
                  rw (sym is_c, sym user, sym org) new
            ])
  ]

  read_shared-Vouched :
      (redis : RedisStatus) (u o : Text) (now : ℕ) (l2 : SharedCache) (m : OrgMembership)
      → length u ≡ 36
      → SharedVouched l2
      → read_shared redis u o now l2 ≡ some m
      → Vouched u o m
  unfolding read_shared
  read_shared-Vouched redis u o now none m uuid sound h = cc h
  read_shared-Vouched redis u o now (some l2) m uuid sound h = elim (Bool-cases redis.reads) [
    | inr f ↦ cc (rw (read_shared, f) at h)
    | inl r ↦
        let (c, found, same) = live-some now _ m (rw (read_shared, r) at h) in
        rw (sym same) (sound u o c uuid found)
  ]

  -- A membership that is answered is vouched, or none.
  abbrev pub RoleVouched : Text → Text → OrgResult OrgMembership → Type 0
  RoleVouched u o (ok m) = (m.org_role ≡ none) ⊎ Vouched u o m
  RoleVouched u o org_resolve_error = Unit
  RoleVouched u o attribute_error = Unit

  abbrev pub Resolved : Text → Text → OrgResult OrgMembership × RoleCache × SharedCache → Type 0
  Resolved u o r = RoleVouched u o r.0 × LocalVouched r.1 × SharedVouched r.2

  keep_answer-Resolved :
      (tools : Bounded) (redis : RedisStatus) (u o : Text) (body : Json) (now : ℕ) (l1 : RoleCache)
      (l2 : SharedCache)
      → length u ≡ 36
      → LocalVouched l1
      → SharedVouched l2
      → AnswerVouched u o (response 200 body)
      → Resolved u o (keep_answer tools redis u o body now l1 l2)
  unfolding keep_answer
  keep_answer-Resolved tools redis u o Json.no_json now l1 l2 uuid first second new =
      (tt, first, second)
  keep_answer-Resolved tools redis u o Json.no_object now l1 l2 uuid first second new =
      (tt, first, second)
  keep_answer-Resolved tools redis u o (object b) now l1 l2 uuid first second new = (
    inr (new b refl),
    put_local-Vouched tools u o (read_body b) now l1 first (new b refl),
    write_shared-Vouched redis u o (read_body b) now l2 uuid second (new b refl),
  )

  ask_endpoint-Resolved :
      (tools : Bounded) (redis : RedisStatus) (u o : Text) (answer : Response) (now : ℕ)
      (l1 : RoleCache) (l2 : SharedCache)
      → length u ≡ 36
      → LocalVouched l1
      → SharedVouched l2
      → AnswerVouched u o answer
      → Resolved u o (ask_endpoint tools redis u o answer now l1 l2)
  unfolding ask_endpoint
  ask_endpoint-Resolved tools redis u o Response.unreachable now l1 l2 uuid first second new =
      (tt, first, second)
  ask_endpoint-Resolved tools redis u o (response status body) now l1 l2 uuid first second new =
      elim (Bool-cases (leb 500 status)) [
        | inl t ↦ rw (ask_endpoint, t) (tt, first, second)
        | inr low ↦ elim (Bool-cases (status == 200)) [
          | inr f ↦ rw (ask_endpoint, low, f) (inl refl, first, second)
          | inl t ↦
              let is_200 = (==_iff status 200).0 t in
              rw (ask_endpoint, low, t)
                (keep_answer-Resolved tools redis u o body now l1 l2 uuid first second
                  (λ b e. new b (rw (is_200, e) refl)))
        ]
      ]

  resolve-Resolved :
      (tools : Bounded) (redis : RedisStatus) (u o : Text) (answer : Response) (now : ℕ)
      (l1 : RoleCache) (l2 : SharedCache)
      → length u ≡ 36
      → LocalVouched l1
      → SharedVouched l2
      → AnswerVouched u o answer
      → Resolved u o (resolve_org_role tools redis u o answer now l1 l2)
  unfolding resolve_org_role
  resolve-Resolved tools redis u o answer now l1 l2 uuid first second new =
      elim (Option-cases (live now (lookup (u, o) l1))) [
        | inr (m, e) ↦
            let (c, found, same) = live-some now _ m e in
            rw (resolve_org_role, e) (inr (rw (sym same) (first u o c found)), first, second)
        | inl e ↦ elim (Option-cases (read_shared redis u o now l2)) [
          | inr (m, e') ↦
              let valid = read_shared-Vouched redis u o now l2 m uuid second e' in
              rw (resolve_org_role, e, e')
                (inr valid, put_local-Vouched tools u o m now l1 first valid, second)
          | inl e' ↦
              rw (resolve_org_role, e, e')
                (ask_endpoint-Resolved tools redis u o answer now l1 l2 uuid first second new)
        ]
      ]

  -- No organisation, or one in which the user has a vouched role.
  abbrev pub IsGranted : Text → OrgResult ResolvedActiveOrg → Type 0
  IsGranted u (ok r) =
      (r.org_id ≡ [])
      ⊎ ((role : Text) × (r.org_role ≡ some role)
          × Vouched u r.org_id (membership (some role) r.org_type))
  IsGranted u org_resolve_error = Unit
  IsGranted u attribute_error = Unit

  admit-IsGranted :
      (u o : Text) (outcome : OrgResult OrgMembership)
      → RoleVouched u o outcome
      → IsGranted u (admit o outcome)
  unfolding admit
  admit-IsGranted u o org_resolve_error h = inl refl
  admit-IsGranted u o attribute_error h = tt
  admit-IsGranted u o (ok m) h = elim (Option-cases m.org_role) [
    | inl e ↦ rw (admit, e) (inl refl)
    | inr (role, e) ↦
        rw (admit, e)
          (elim h [ inl gone ↦ cc (sym gone ∙ e) | inr valid ↦ inr (role, refl, rw (sym e) valid) ])
  ]

  -- Where the memberships in both caches and in the endpoint's answer are vouched for, user
  -- identifiers have thirty-six bytes and the organisation is resolved against the memberships,
  -- `resolve_active_org` raises, gives no organisation, or one in which the user has a vouched
  -- role, and leaves both caches vouched for.
  pub resolve-IsGranted :
      (s : OrgSettings) (tools : Bounded) (redis : RedisStatus) (auth : AuthContext)
      (header : Option Text) (answer : Response) (now : ℕ) (l1 : RoleCache) (l2 : SharedCache)
      → is_resolved s auth ≡ true
      → length auth.user_id ≡ 36
      → LocalVouched l1
      → SharedVouched l2
      → AnswerVouched auth.user_id (requested_org auth header) answer
      → let r = resolve_active_org s tools redis auth header answer now l1 l2 in
        IsGranted auth.user_id r.0 × LocalVouched r.1 × SharedVouched r.2
  unfolding resolve_active_org
  resolve-IsGranted s tools redis auth header answer now l1 l2 asked uuid first second new =
      let o = requested_org auth header in
      elim (Bool-cases (has_no_text o || text_eq o s.tenant_legacy_sentinel)) [
        | inl t ↦ rw (resolve_active_org, asked, t) (inl refl, first, second)
        | inr f ↦
            let (role, first', second') =
              resolve-Resolved tools redis auth.user_id o answer now l1 l2 uuid first second new in
            rw (resolve_active_org, asked, f)
              (admit-IsGranted auth.user_id o _ role, first', second')
      ]
