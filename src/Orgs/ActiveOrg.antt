-- ===== src/Orgs/ActiveOrg.antt =====
-- backend/core/active_org.py: the organisation that a request is authorized against.
use kemory_community.Prelude.{
  ℕ, Text, text, text_eq, Bool, true, false, not, ◌||◌, Option, none, some, [], ◌∷◌, if◌then◌else◌,
}
use kemory_community.Teams.Resolver.{RedisStatus}
use kemory_community.Orgs.Resolver.{
  OrgMembership, RoleCache, SharedCache, Bounded, Response, OrgResult, ok, org_resolve_error,
  attribute_error, first_truthy, resolve_org_role,
}

pub record OrgSettings : Type 0 where
  pub active_org_mode : Text
  pub tenant_legacy_sentinel : Text

pub record AuthContext : Type 0 where
  pub auth_method : Text
  pub user_id : Text
  pub org_id : Option Text

pub record ResolvedActiveOrg : Type 0 where
  pub org_id : Text
  pub org_role : Option Text
  pub org_type : Option Text

abbrev pub active_org : Text → Option Text → Option Text → ResolvedActiveOrg
active_org org role kind = record { org_id = org; org_role = role; org_type = kind }

abbrev pub text_or_empty : Option Text → Text
text_or_empty none = []
text_or_empty (some t) = t

abbrev pub has_no_text : Text → Bool
has_no_text [] = true
has_no_text (c ∷ cs) = false

-- What becomes of the answer of `resolve_org_role`.
unfoldable pub admit : Text → OrgResult OrgMembership → OrgResult ResolvedActiveOrg
admit requested org_resolve_error = ok (active_org [] none none)
admit requested attribute_error = attribute_error
admit requested (ok m) = elim m.org_role [
  | none ↦ ok (active_org [] none none)
  | some role ↦ ok (active_org requested (some role) m.org_type)
]

-- Whether the organisation is resolved against the memberships.
abbrev pub is_resolved : OrgSettings → AuthContext → Bool
is_resolved s auth =
    if not (text_eq s.active_org_mode (text "m3"))
    then false
    else text_eq auth.auth_method (text "keycloak")

abbrev pub requested_org : AuthContext → Option Text → Text
requested_org auth header = text_or_empty (first_truthy header auth.org_id)

unfoldable pub resolve_active_org :
    OrgSettings
    → Bounded
    → RedisStatus
    → AuthContext
    → Option Text
    → Response
    → ℕ
    → RoleCache
    → SharedCache
    → OrgResult ResolvedActiveOrg × RoleCache × SharedCache
unfolding admit resolve_org_role
resolve_active_org s tools redis auth header answer now l1 l2 =
    let requested = requested_org auth header in
    if not (is_resolved s auth)
    then (ok (active_org (text_or_empty auth.org_id) none none), l1, l2)
    else if has_no_text requested || text_eq requested s.tenant_legacy_sentinel
    then (ok (active_org [] none none), l1, l2)
    else let (outcome, l1', l2') =
        resolve_org_role tools redis auth.user_id requested answer now l1 l2 in
      (admit requested outcome, l1', l2')
