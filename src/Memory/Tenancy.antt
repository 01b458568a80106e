-- ===== src/Memory/Tenancy.antt =====
-- `_build_tenant_predicate` of backend/core/tenancy.py: the condition that is added to every SELECT.
use kemory_community.Prelude.{
  ℕ, Text, text, text_eq, Bool, true, false, ◌&&◌, ◌||◌, Option, none, some, List, [], ◌∷◌, keep,
  ◌==◌, if◌then◌else◌,
}
use kemory_community.Memory.Schema.{Env, Memory, AiChat, Scope, Db}

abbrev in_teams : List ℕ → Option ℕ → Bool
in_teams teams none = false
in_teams [] (some t) = false
in_teams (u ∷ teams) (some t) = u == t || in_teams teams (some t)

unfoldable pub org_predicate : Scope → Text → Bool
org_predicate scope org_id =
    if text_eq scope.org_id []
    then text_eq org_id (text "__no_active_scope__")
    else text_eq org_id scope.org_id

unfoldable pub memory_predicate : {env : Env} → Scope → Memory env → Bool
unfolding org_predicate
memory_predicate scope m =
    if text_eq scope.org_id []
    then org_predicate scope m.org_id
    else org_predicate scope m.org_id
      && (m.user_id == scope.user_id
          || text_eq m.visibility (text "org-public")
          || (text_eq m.visibility (text "team") && in_teams scope.team_ids m.team_id))

-- The listener `_do_orm_execute`.
unfoldable pub is_readable : {env : Env} → Scope → Memory env → Bool
is_readable scope m = scope.is_bypassed || memory_predicate scope m

unfoldable pub is_readable_chat : Scope → AiChat → Bool
is_readable_chat scope c = scope.is_bypassed || org_predicate scope c.org_id

-- A column that is NULL.
unfoldable pub is_active : Option ℕ → Bool
is_active none = true
is_active (some t) = false

-- `select(Memory).where(...)`, whose condition is `p`
abbrev pub select_memories : {env : Env} → Scope → (Memory env → Bool) → Db env → List (Memory env)
select_memories scope p db = keep (λ m. p m && is_readable scope m) db.memories
