-- ===== src/Gatekeeper/Effects.antt =====
-- What `evaluate` writes: the counters of the agent, and the consent request of a "jit" rule.
use kemory_community.Prelude.{
  ℕ, ◌+◌, ◌≡◌, refl, sym, ap, ◌∙◌, text, text_eq, text_eq_iff, Bool, true, false, none, some, List,
  [], ◌∷◌, Text, In, here, there, In-of_keep, Bool-cases, inl, inr, ◌⊎◌, if◌then◌else◌, ◌==◌, arith,
}
use kemory_community.Gatekeeper.Schema.{
  PermissionRule, EvaluationRequest, GatekeeperDecision, AgentStats, Vault, Env, ok,
}
use kemory_community.Gatekeeper.Scope.{applies}
use kemory_community.Gatekeeper.Rules.{names_agent}
use kemory_community.Gatekeeper.Evaluate.{
  decide, evaluate, is_fetched, fetch_rules, text_or_empty, allow_decision, jit_decision,
  count_request, increment_agent_stats, new_consent,
}

-- All requests that the rows of an agent have counted, and how many rows it has.
abbrev pub requests : ℕ → List AgentStats → ℕ
requests a [] = 0
requests a (row ∷ rows) =
    (if row.agent_id == a then row.total_reads + row.total_writes + row.denied_requests else 0)
    + requests a rows

abbrev pub rows_of : ℕ → List AgentStats → ℕ
rows_of a [] = 0
rows_of a (row ∷ rows) = (if row.agent_id == a then 1 else 0) + rows_of a rows

requests-increment :
    (a b : ℕ) (scope : Text) (granted : Bool) (rows : List AgentStats)
    → requests a (increment_agent_stats b scope granted rows)
      ≡ requests a rows + (if a == b then rows_of a rows else 0)
unfolding increment_agent_stats count_request
requests-increment a b scope granted [] = ground arith
requests-increment a b scope granted (row ∷ rows) =
    ground (arith, requests-increment a b scope granted rows)

-- A decision that has opened a consent request names it.
clash :
    {A : Type 0} (x d : GatekeeperDecision) (r : PermissionRule) (new_id : ℕ)
    → x ≡ d
    → x ≡ jit_decision r new_id
    → d.consent_id ≡ none
    → A
clash x d r new_id same opened settled =
    cc (ap (λ (y : GatekeeperDecision). y.consent_id) (sym same ∙ opened))

module _ (env : Env) (user_id : ℕ) (request : EvaluationRequest) (agent_id now new_id : ℕ)
    (db : Vault) where
  abbrev decision : List PermissionRule → GatekeeperDecision
  decision rs = (decide env user_id request agent_id now new_id db rs).0

  abbrev after : List PermissionRule → Vault
  after rs = (decide env user_id request agent_id now new_id db rs).1

  -- A rule among `rs` that applies and asks for consent has opened one request.
  abbrev pub OpensOne : List PermissionRule → GatekeeperDecision → Vault → Type 0
  OpensOne rs d db' =
      (r : PermissionRule) × In r rs
      × (applies env request agent_id now r ≡ true)
      × (r.action ≡ text "jit")
      × (d ≡ jit_decision r new_id)
      × (db'.consents ≡ new_consent user_id request agent_id now new_id r ∷ db.consents)
      × (db'.agents ≡ db.agents)

  abbrev pub CountsOne : GatekeeperDecision → Vault → Type 0
  CountsOne d db' =
      (d.consent_id ≡ none)
      × (db'.agents ≡ increment_agent_stats agent_id request.scope d.allowed db.agents)
      × (db'.consents ≡ db.consents)

  -- What one call of `decide` has written, over the rules that it read.
  abbrev pub Wrote : List PermissionRule → GatekeeperDecision × Vault → Type 0
  Wrote rs (d, db') = (CountsOne d db' ⊎ OpensOne rs d db') × (db'.rules ≡ db.rules)

  Wrote-cons :
      (r : PermissionRule) (rs : List PermissionRule) (p : GatekeeperDecision × Vault)
      → Wrote rs p
      → Wrote (r ∷ rs) p
  Wrote-cons r rs (d, db') (inl c, same) = (inl c, same)
  Wrote-cons r rs (d, db') (inr (s, m, t, j, e, c, a), same) =
      (inr (s, there m, t, j, e, c, a), same)

  pub decide-Wrote :
      (rs : List PermissionRule) → Wrote rs (decide env user_id request agent_id now new_id db rs)
  unfolding decide
  decide-Wrote [] = (inl (refl, refl, refl), refl)
  decide-Wrote (r ∷ rs) =
      let later = Wrote-cons r rs _ (decide-Wrote rs) in
      elim (Bool-cases (applies env request agent_id now r)) [
        | inr f ↦ rw f later
        | inl t ↦ rw t (elim (Bool-cases (text_eq r.action (text "allow"))) [
          | inl a ↦ rw a (inl (refl, refl, refl), refl)
          | inr na ↦ rw na (elim (Bool-cases (text_eq r.action (text "deny"))) [
            | inl d ↦ rw d (inl (refl, refl, refl), refl)
            | inr nd ↦ rw nd (elim (Bool-cases (text_eq r.action (text "jit"))) [
              | inl j ↦
                  rw j (inr (r, here refl, t, (text_eq_iff r.action _).0 j, refl, refl, refl), refl)
              | inr nj ↦ rw nj later
            ])
          ])
        ])
      ]

  -- A decision grants access by a rule among `rs` that applies and allows, or it grants none.
  abbrev Grants : List PermissionRule → GatekeeperDecision × Vault → Type 0
  Grants rs (d, db') =
      (d.allowed ≡ false)
      ⊎ ((r : PermissionRule) × In r rs
          × (applies env request agent_id now r ≡ true)
          × (r.action ≡ text "allow")
          × (d ≡ allow_decision r))

  Grants-cons :
      (r : PermissionRule) (rs : List PermissionRule) (p : GatekeeperDecision × Vault)
      → Grants rs p
      → Grants (r ∷ rs) p
  Grants-cons r rs (d, db') (inl no_access) = inl no_access
  Grants-cons r rs (d, db') (inr (s, m, t, a, e)) = inr (s, there m, t, a, e)

  decide-Grants :
      (rs : List PermissionRule) → Grants rs (decide env user_id request agent_id now new_id db rs)
  unfolding decide
  decide-Grants [] = inl refl
  decide-Grants (r ∷ rs) =
      let later =
        Grants-cons r rs (decide env user_id request agent_id now new_id db rs)
          (decide-Grants rs) in
      elim (Bool-cases (applies env request agent_id now r)) [
        | inr f ↦ rw f later
        | inl t ↦ rw t (elim (Bool-cases (text_eq r.action (text "allow"))) [
          | inl a ↦ rw a (inr (r, here refl, t, (text_eq_iff r.action _).0 a, refl))
          | inr na ↦ rw na (elim (Bool-cases (text_eq r.action (text "deny"))) [
            | inl d ↦ rw d (inl refl)
            | inr nd ↦ rw nd (elim (Bool-cases (text_eq r.action (text "jit"))) [
              | inl j ↦ rw j (inl refl)
              | inr nj ↦ rw nj later
            ])
          ])
        ])
      ]

  abbrev pub run : GatekeeperDecision × Vault
  run = decide env user_id request agent_id now new_id db (fetch_rules env user_id db)

  pub evaluate_runs :
      names_agent request.agent_id ≡ true
      → env.parse_uuid (text_or_empty request.agent_id) ≡ some agent_id
      → evaluate env user_id request now new_id db ≡ (ok run.0, run.1)
  unfolding evaluate
  evaluate_runs named parsed = ground arith

  -- Access is granted to a named agent only by an active rule of the user with the action "allow"
  -- which applies to the request; the decision names that rule.
  pub evaluate_allowed_by_rule :
      (d : GatekeeperDecision)
      → names_agent request.agent_id ≡ true
      → env.parse_uuid (text_or_empty request.agent_id) ≡ some agent_id
      → (evaluate env user_id request now new_id db).0 ≡ ok d
      → d.allowed ≡ true
      → (r : PermissionRule) × In r db.rules
        × (r.user_id ≡ user_id)
        × (r.is_active ≡ true)
        × (applies env request agent_id now r ≡ true)
        × (r.action ≡ text "allow")
        × (d.matched_rule_id ≡ some r.rule_id)
  unfolding fetch_rules is_fetched
  evaluate_allowed_by_rule d named parsed result granted =
      let same : run.0 ≡ d = cc (evaluate_runs named parsed, result) in
      elim (decide-Grants (fetch_rules env user_id db)) [
        | inl refused ↦ cc
        | inr (r, m, t, a, e) ↦
            let (inside, test) =
              In-of_keep (is_fetched user_id) db.rules (env.in-of_by_priority r _ m) in
            (
              r,
              inside,
              ground arith,
              ground arith,
              t,
              a,
              ap (λ (x : GatekeeperDecision). x.matched_rule_id) (sym same ∙ e),
            )
      ]

  -- A decision on a named agent's request that opens no consent request raises the sum of the
  -- counters of each of the agent's rows by one, and of no other agent's.
  pub evaluate-requests :
      (a : ℕ) (d : GatekeeperDecision) (db' : Vault)
      → names_agent request.agent_id ≡ true
      → env.parse_uuid (text_or_empty request.agent_id) ≡ some agent_id
      → evaluate env user_id request now new_id db ≡ (ok d, db')
      → d.consent_id ≡ none
      → requests a db'.agents
        ≡ requests a db.agents + (if a == agent_id then rows_of a db.agents else 0)
  evaluate-requests a d db' named parsed result settled =
      let same : run.0 ≡ d = cc (evaluate_runs named parsed, result) in
      let same' : run.1 ≡ db' = cc (evaluate_runs named parsed, result) in
      elim (decide-Wrote (fetch_rules env user_id db)).0 [
        | inl (c, agents, consents) ↦
            rw (sym (ap (λ (v : Vault). v.agents) same') ∙ agents)
              (requests-increment a agent_id request.scope run.0.allowed db.agents)
        | inr (r, m, t, j, e, c, agents) ↦ clash run.0 d r new_id same e settled
      ]
