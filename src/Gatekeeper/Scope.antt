-- ===== src/Gatekeeper/Scope.antt =====
-- `validate_scope`, `validate_action` and the matching helpers of
-- backend/services/gatekeeper_service.py.
use kemory_community.Prelude.{
  ℕ, ◌/◌, ◌%◌, Text, text, text_eq, text_in, starts_with, Bool, true, false, ◌&&◌, ◌||◌, Option,
  none, some, List, [], ◌∷◌, ◌++◌, take, leb, ltb, ◌==◌, if◌then◌else◌,
}
use kemory_community.Gatekeeper.Schema.{
  TimeWindow, Conditions, PermissionRule, EvaluationRequest, Env,
}

-- `t.split(c)` with the piece before `t`, reversed into it by `cons_first`.
cons_first : ℕ → List Text → List Text
cons_first c [] = (c ∷ []) ∷ []
cons_first c (p ∷ ps) = (c ∷ p) ∷ ps

unfoldable pub split : ℕ → Text → List Text
unfolding cons_first
split sep [] = [] ∷ []
split sep (c ∷ t) = let rest = split sep t in if c == sep then [] ∷ rest else cons_first c rest

-- `sep.join(parts)`
unfoldable pub join : Text → List Text → Text
join sep [] = []
join sep (p ∷ []) = p
join sep (p ∷ q ∷ ps) = p ++ sep ++ join sep (q ∷ ps)

-- `t.endswith(s)`
unfoldable pub ends_with : Text → Text → Bool
unfolding text_eq
ends_with [] s = text_eq [] s
ends_with (c ∷ t) s = text_eq (c ∷ t) s || ends_with t s

-- `t[:-1]`
unfoldable pub drop_last : Text → Text
drop_last [] = []
drop_last (c ∷ []) = []
drop_last (c ∷ d ∷ t) = c ∷ drop_last (d ∷ t)

abbrev pub valid_scopes : List Text
valid_scopes =
    text "memory:read"
    ∷ text "memory:write"
    ∷ text "memory:delete"
    ∷ text "namespace:read"
    ∷ text "namespace:write"
    ∷ text "namespace:create"
    ∷ text "graph:read"
    ∷ text "graph:write"
    ∷ text "admin:*"
    ∷ []

abbrev pub valid_actions : List Text
valid_actions = text "allow" ∷ text "deny" ∷ text "jit" ∷ []

unfoldable pub validate_scope : Text → Bool
unfolding text_in split join
validate_scope scope =
    if text_in scope valid_scopes
    then true
    else text_in (join (text ":") (take 2 (split b':' scope))) valid_scopes

unfoldable pub validate_action : Text → Bool
unfolding text_in
validate_action action = text_in action valid_actions

unfoldable pub matches_agent : PermissionRule → ℕ → Bool
matches_agent rule agent_id = elim rule.agent_id [ none ↦ true | some a ↦ a == agent_id ]

unfoldable pub matches_scope : Text → Text → Bool
unfolding text_eq ends_with starts_with drop_last
matches_scope scope requested =
    if text_eq scope requested
    then true
    else if text_eq scope (text "admin:*")
    then true
    else if ends_with scope (text ":*")
    then starts_with requested (drop_last scope)
    else false

-- `not v` for an optional text
abbrev pub is_blank : Option Text → Bool
is_blank none = true
is_blank (some []) = true
is_blank (some (c ∷ t)) = false

abbrev or_empty : Option Text → Text
or_empty none = []
or_empty (some t) = t

unfoldable pub matches_namespace : Env → PermissionRule → Option Text → Bool
matches_namespace env rule namespace =
    if is_blank rule.namespace_filter
    then true
    else if is_blank namespace
    then true
    else env.fnmatch (or_empty namespace) (or_empty rule.namespace_filter)

-- The hour of the day of a time in microseconds.
abbrev pub hour : ℕ → ℕ
hour now = now / 3_600_000_000 % 24

abbrev get_or_default : Option ℕ → ℕ → ℕ
get_or_default none d = d
get_or_default (some h) d = h

abbrev within : Option TimeWindow → ℕ → Bool
within none now = true
within (some tw) now =
    leb (get_or_default tw.start_hour 0) (hour now)
    && ltb (hour now) (get_or_default tw.end_hour 24)

abbrev met : Option Conditions → ℕ → Bool
met none now = true
met (some c) now = within c.time_window now

unfoldable pub matches_conditions : PermissionRule → ℕ → Bool
matches_conditions rule now = met rule.conditions now

-- The four guards of the loop in `evaluate`.
unfoldable pub applies : Env → EvaluationRequest → ℕ → ℕ → PermissionRule → Bool
applies env request agent_id now rule =
    matches_agent rule agent_id
    && matches_scope rule.scope request.scope
    && matches_namespace env rule request.namespace
    && matches_conditions rule now
