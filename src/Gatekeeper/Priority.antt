-- ===== src/Gatekeeper/Priority.antt =====
-- What `evaluate` decides: the first rule in the order of priority, and a denial where none applies.
use kemory_community.Prelude.{
  ℕ, ◌≤◌, ◌≡◌, refl, ap, ◌∙◌, text, text_eq, text_in, Bool, true, false, ◌&&◌, some, List, [], ◌∷◌,
  All, In, here, there, In-cons, In-keep, In-of_keep, Bool-cases, inl, inr, if◌then◌else◌, arith,
}
use kemory_community.Gatekeeper.Schema.{
  PermissionRule, EvaluationRequest, GatekeeperDecision, Vault, Env, ok, Sorted,
}
use kemory_community.Gatekeeper.Scope.{applies, validate_action}
use kemory_community.Gatekeeper.Rules.{names_agent}
use kemory_community.Gatekeeper.Evaluate.{
  decide, evaluate, is_fetched, fetch_rules, text_or_empty, allow_decision, deny_decision,
  jit_decision, default_decision,
}

-- The decision that a rule with a known action makes.
abbrev pub decision_of : PermissionRule → ℕ → GatekeeperDecision
decision_of r new_id =
    if text_eq r.action (text "allow")
    then allow_decision r
    else if text_eq r.action (text "deny")
    then deny_decision r
    else jit_decision r new_id

All-In :
    (P : PermissionRule → Type 0) {r : PermissionRule} (rs : List PermissionRule)
    → All P rs
    → In r rs
    → P r
All-In P [] h m = elim m [ ]
All-In P (x ∷ rs) h (here e) = rw e h.0
All-In P (x ∷ rs) h (there m) = All-In P rs h.1 m

head_le :
    (x : PermissionRule) (rs : List PermissionRule) (s : PermissionRule)
    → Sorted (x ∷ rs)
    → In s (x ∷ rs)
    → x.priority ≤ s.priority
head_le x rs s h (here e) = rw e (omega arith)
head_le x rs s h (there m) = All-In (λ r. x.priority ≤ r.priority) rs h.0 m

module _ (env : Env) (user_id : ℕ) (request : EvaluationRequest) (agent_id now new_id : ℕ)
    (db : Vault) where
  -- The rule applies to the request and has one of the three actions.
  abbrev pub binds : PermissionRule → Bool
  binds r = applies env request agent_id now r && validate_action r.action

  decide_binding :
      (r : PermissionRule) (rs : List PermissionRule)
      → binds r ≡ true
      → (decide env user_id request agent_id now new_id db (r ∷ rs)).0 ≡ decision_of r new_id
  unfolding decide validate_action text_in
  decide_binding r rs h = ground arith

  decide_passing :
      (r : PermissionRule) (rs : List PermissionRule)
      → binds r ≡ false
      → decide env user_id request agent_id now new_id db (r ∷ rs)
        ≡ decide env user_id request agent_id now new_id db rs
  unfolding decide validate_action text_in
  decide_passing r rs h = ground arith

  -- The first binding rule decides, and in a sorted list no binding rule has a smaller priority.
  decide-Sorted :
      (rs : List PermissionRule) (s : PermissionRule)
      → Sorted rs
      → In s rs
      → binds s ≡ true
      → (r : PermissionRule) × In r rs
        × (binds r ≡ true)
        × (r.priority ≤ s.priority)
        × ((decide env user_id request agent_id now new_id db rs).0 ≡ decision_of r new_id)
  decide-Sorted [] s h m b = elim m [ ]
  decide-Sorted (x ∷ rs) s h m b = elim (Bool-cases (binds x)) [
    | inl t ↦ (x, here refl, t, head_le x rs s h m, decide_binding x rs t)
    | inr f ↦ elim (In-cons m) [
      | inl e ↦ cc (ap binds e)
      | inr n ↦
          let (r, in_rs, ok_r, le, eq) = decide-Sorted rs s h.1 n b in
          (r, there in_rs, ok_r, le, ap (λ p. p.0) (decide_passing x rs f) ∙ eq)
    ]
  ]

  decide_unbound :
      (rs : List PermissionRule)
      → ((r : PermissionRule) → In r rs → binds r ≡ true → ⊥)
      → (decide env user_id request agent_id now new_id db rs).0 ≡ default_decision
  unfolding decide
  decide_unbound [] h = refl
  decide_unbound (x ∷ rs) h = elim (Bool-cases (binds x)) [
    | inl t ↦ absurd (h x (here refl) t)
    | inr f ↦ ap (λ p. p.0) (decide_passing x rs f) ∙ decide_unbound rs (λ r m. h r (there m))
  ]

  agent_decision :
      names_agent request.agent_id ≡ true
      → env.parse_uuid (text_or_empty request.agent_id) ≡ some agent_id
      → evaluate env user_id request now new_id db ≡ (
        ok (decide env user_id request agent_id now new_id db (fetch_rules env user_id db)).0,
        (decide env user_id request agent_id now new_id db (fetch_rules env user_id db)).1,
      )
  unfolding evaluate
  agent_decision named parsed = ground arith

  fetched :
      (s : PermissionRule)
      → In s db.rules
      → s.user_id ≡ user_id
      → s.is_active ≡ true
      → In s (fetch_rules env user_id db)
  unfolding fetch_rules is_fetched
  fetched s m own active =
      env.in-by_priority s _ (In-keep (is_fetched user_id) db.rules m (ground arith))

  of_fetched :
      (s : PermissionRule)
      → In s (fetch_rules env user_id db)
      → In s db.rules × (s.user_id ≡ user_id) × (s.is_active ≡ true)
  unfolding fetch_rules is_fetched
  of_fetched s m =
      let (inside, test) = In-of_keep (is_fetched user_id) db.rules (env.in-of_by_priority s _ m) in
      (inside, ground arith, ground arith)

  -- Whenever an active rule `s` of the user applies to a named agent's request, with one of the
  -- three actions, the decision is that of an active rule of the user which applies, has one of
  -- the three actions, and whose priority number is at most that of `s`.
  pub evaluate_priority :
      (s : PermissionRule)
      → names_agent request.agent_id ≡ true
      → env.parse_uuid (text_or_empty request.agent_id) ≡ some agent_id
      → In s db.rules
      → s.user_id ≡ user_id
      → s.is_active ≡ true
      → binds s ≡ true
      → (r : PermissionRule) × (In r db.rules × (r.user_id ≡ user_id) × (r.is_active ≡ true))
        × (binds r ≡ true)
        × (r.priority ≤ s.priority)
        × ((evaluate env user_id request now new_id db).0 ≡ ok (decision_of r new_id))
  unfolding fetch_rules
  evaluate_priority s named parsed m own active b =
      let (r, in_r, ok_r, le, eq) =
        decide-Sorted (fetch_rules env user_id db) s (env.by_priority-Sorted _)
          (fetched s m own active) b in
      (r, of_fetched r in_r, ok_r, le, ap (λ p. p.0) (agent_decision named parsed) ∙ ap ok eq)

  -- If no active rule of the user both applies to a named agent's request and has one of the three
  -- actions, the request is denied by default.
  pub evaluate_default_deny :
      names_agent request.agent_id ≡ true
      → env.parse_uuid (text_or_empty request.agent_id) ≡ some agent_id
      → ((s : PermissionRule)
          → In s db.rules
          → s.user_id ≡ user_id
          → s.is_active ≡ true
          → binds s ≡ true
          → ⊥)
      → (evaluate env user_id request now new_id db).0 ≡ ok default_decision
  evaluate_default_deny named parsed h =
      ap (λ p. p.0) (agent_decision named parsed)
      ∙ ap ok (
          decide_unbound (fetch_rules env user_id db)
            (λ r m b. let (inside, own, active) = of_fetched r m in h r inside own active b))
