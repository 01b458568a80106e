-- ===== src/Memory/Stages.antt =====
-- What `check_access` decides, and what it leaves alone.
use kemory_community.Prelude.{
  ◌≡◌, refl, ◌⊎◌, inl, inr, Text, text, text_eq_iff, Bool, true, false, some, [], Bool-cases, arith,
  In,
}
use kemory_community.Gatekeeper.Schema.{PermissionRule, Vault, Result, err}
use kemory_community.Gatekeeper.Scope.{applies}
use kemory_community.Gatekeeper.Rules.{names_agent}
use kemory_community.Gatekeeper.Evaluate.{evaluate}
use kemory_community.Gatekeeper.Effects.{evaluate_allowed_by_rule}
use kemory_community.Memory.Schema.{
  Env, Db, Failure, ok, raised, access_denied, bad_uuid, integrity_error, multiple_results, Call,
}
use kemory_community.Memory.Resolve.{ResolutionAction, reuse, auto_redirect, suggest, create_new}
use kemory_community.Memory.Access.{access_request, check_access}

-- The errors that only a conflict of rows causes.
abbrev pub is_conflict : {env : Env} → Failure env → Bool
is_conflict integrity_error = true
is_conflict multiple_results = true
is_conflict f = false

Result-cases :
    {A : Type 0} (r : Result A)
    → ((e : kemory_community.Gatekeeper.Schema.Error) × (r ≡ err e)) ⊎ ((x : A) × (r ≡ Result.ok x))
Result-cases (Result.ok x) = inr (x, refl)
Result-cases (err e) = inl (e, refl)

pub action-cases :
    (a : ResolutionAction)
    → (a ≡ reuse) ⊎ ((a ≡ auto_redirect) ⊎ ((a ≡ suggest) ⊎ (a ≡ create_new)))
action-cases reuse = inl refl
action-cases auto_redirect = inr (inl refl)
action-cases suggest = inr (inr (inl refl))
action-cases create_new = inr (inr (inr refl))

module _ (env : Env) (call : Call) where
  -- Some active rule of the user allows the agent the scope in the namespace.
  abbrev pub Allowed : Text → Text → Vault → Type 0
  Allowed scope namespace vault =
      (r : PermissionRule) × In r vault.rules
      × (r.user_id ≡ call.user_id)
      × (r.is_active ≡ true)
      × (applies env.gate (access_request env call scope namespace) call.agent_id call.now r ≡ true)
      × (r.action ≡ text "allow")

  named : names_agent (some (env.str_uuid call.agent_id)) ≡ true
  unfolding names_agent
  named =
      let a = env.str_uuid call.agent_id in
      ground (
        arith,
        text_eq_iff a [],
        text_eq_iff a (text "None"),
        text_eq_iff a (text "none"),
        env.str_uuid-nonempty call.agent_id,
        env.str_uuid-None call.agent_id,
        env.str_uuid-none call.agent_id,
      )

  abbrev asked : Text → Text → Db env → Result kemory_community.Gatekeeper.Schema.GatekeeperDecision
  asked scope namespace db =
      (evaluate env.gate call.user_id (access_request env call scope namespace) call.now
        call.consent_id db.vault).0

  pub checked-Allowed :
      (scope namespace : Text) (db : Db env)
      → call.skip_gatekeeper ≡ false
      → (check_access call scope namespace db).0 ≡ ok tt
      → Allowed scope namespace db.vault
  unfolding check_access
  checked-Allowed scope namespace db asks granted = elim (Result-cases (asked scope namespace db)) [
    | inl (e, h) ↦ cc (rw (check_access, asks, h) at granted)
    | inr (d, h) ↦ elim (Bool-cases d.allowed) [
      | inl t ↦
          let (r, inside, own, active, fits, allows, names) =
            evaluate_allowed_by_rule env.gate call.user_id (access_request env call scope namespace)
              call.agent_id call.now call.consent_id db.vault d named
              (env.parse-str_uuid call.agent_id) h t in
          (r, inside, own, active, fits, allows)
      | inr f ↦ cc (rw (check_access, asks, h, f) at granted)
    ]
  ]

  pub check-memories :
      (scope namespace : Text) (db : Db env)
      → (check_access call scope namespace db).1.memories ≡ db.memories
  unfolding check_access
  check-memories scope namespace db = elim (Bool-cases call.skip_gatekeeper) [
    | inl t ↦ rw (check_access, t) refl
    | inr f ↦ rw (check_access, f) refl
  ]

  pub check-cases :
      (scope namespace : Text) (db : Db env)
      → ((check_access call scope namespace db).0 ≡ ok tt)
        ⊎ ((f : Failure env) × (is_conflict f ≡ false)
            × ((check_access call scope namespace db).0 ≡ raised f))
  unfolding check_access
  check-cases scope namespace db = elim (Bool-cases call.skip_gatekeeper) [
    | inl t ↦ inl (rw (check_access, t) refl)
    | inr f ↦ elim (Result-cases (asked scope namespace db)) [
      | inl (e, h) ↦ inr (bad_uuid, refl, rw (check_access, f, h) refl)
      | inr (d, h) ↦ elim (Bool-cases d.allowed) [
        | inl t ↦ inl (rw (check_access, f, h, t) refl)
        | inr g ↦ inr (access_denied, refl, rw (check_access, f, h, g) refl)
      ]
    ]
  ]
