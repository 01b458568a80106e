-- ===== src/Gatekeeper/Writes.antt =====
-- What `evaluate` writes, column by column.
use kemory_community.Prelude.{
  ℕ, ◌+◌, ◌≡◌, text, has_infix, Bool, true, false, not, ◌&&◌, some, none, List, [], ◌∷◌, In, ◌⊎◌,
  if◌then◌else◌, ◌==◌,
}
use kemory_community.Gatekeeper.Schema.{
  PermissionRule, EvaluationRequest, ConsentRequest, GatekeeperDecision, AgentStats, Vault, Env,
  Status, jit_pending,
}
use kemory_community.Gatekeeper.Scope.{applies, is_blank}

-- One column is raised by one: the denials where access was not granted, the writes where the scope
-- names them, else the reads.
abbrev pub raised_row : Bool → Bool → AgentStats → AgentStats
raised_row granted writes row = record row {
  denied_requests = row.denied_requests + (if granted then 0 else 1);
  total_writes = row.total_writes + (if granted && writes then 1 else 0);
  total_reads = row.total_reads + (if granted && not writes then 1 else 0);
}

-- The rows of the agent are raised, the others as they were.
abbrev pub Raised : ℕ → Bool → Bool → List AgentStats → List AgentStats → Type 0
Raised a granted writes [] [] = Unit
Raised a granted writes (row ∷ rows) (row' ∷ rows') =
    (row' ≡ (if row.agent_id == a then raised_row granted writes row else row))
    × Raised a granted writes rows rows'
Raised a granted writes [] (row' ∷ rows') = ⊥
Raised a granted writes (row ∷ rows) [] = ⊥

module _ (env : Env) (user_id : ℕ) (request : EvaluationRequest) (agent_id now new_id : ℕ)
    (db : Vault) where
  -- The pending request, with sixty seconds to live, that a rule asks for.
  abbrev pub pending_consent : PermissionRule → ConsentRequest
  pending_consent r = record {
    consent_id = new_id;
    user_id = user_id;
    agent_id = agent_id;
    requested_scope = request.scope;
    requested_resource = if is_blank request.resource then request.namespace else request.resource;
    rule_id = r.rule_id;
    priority = r.priority;
    status = Status.pending;
    expires_at = now + 60_000_000;
    resolved_at = none;
  }

  -- A rule among `rs` that applies and asks for consent has opened one request.
  abbrev pub Opened : List PermissionRule → GatekeeperDecision → Vault → Type 0
  Opened rs d db' =
      (r : PermissionRule) × In r rs
      × (applies env request agent_id now r ≡ true)
      × (r.action ≡ text "jit")
      × (d.allowed ≡ false)
      × (d.outcome ≡ jit_pending)
      × (d.matched_rule_id ≡ some r.rule_id)
      × (d.consent_id ≡ some new_id)
      × (db'.consents ≡ pending_consent r ∷ db.consents)
      × (db'.agents ≡ db.agents)

  abbrev pub Counted : GatekeeperDecision → Vault → Type 0
  Counted d db' =
      (d.consent_id ≡ none)
      × Raised agent_id d.allowed (has_infix request.scope (text "write")) db.agents db'.agents
      × (db'.consents ≡ db.consents)

  -- What one evaluation has written, over the rules that it read.
  abbrev pub Effect : List PermissionRule → GatekeeperDecision → Vault → Type 0
  Effect rs d db' = (Counted d db' ⊎ Opened rs d db') × (db'.rules ≡ db.rules)
