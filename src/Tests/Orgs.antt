-- ===== src/Tests/Orgs.antt =====
-- Tests of the resolver of the active organisation.
use kemory_community.Prelude.{◌≡◌, refl, sym, ap, inr, Text, text, text_eq, true, none, some, []}
use kemory_community.Prelude.Dict.{lookup, insert}
use kemory_community.Teams.Resolver.{RedisStatus}
use kemory_community.Orgs.Resolver.{
  OrgMembership, membership, Bounded, Body, Response, response, object, ok, resolve_org_role,
  read_body, put_local, read_shared, write_shared, ask_endpoint, keep_answer, role_key,
}
use kemory_community.Orgs.ActiveOrg.{
  OrgSettings, AuthContext, active_org, admit, resolve_active_org,
}
use kemory_community.Orgs.Granting.{
  IsGranted, LocalVouched, SharedVouched, AnswerVouched, resolve-IsGranted,
}

abbrev tools : Bounded
tools = record { evict = λ d. d; lookup-evict = λ k d. inr refl }

abbrev works : RedisStatus
works = record { reads = true; writes = true }

abbrev settings : OrgSettings
settings = record { active_org_mode = text "m3"; tenant_legacy_sentinel = text "legacy" }

abbrev caller : AuthContext
caller = record {
  auth_method = text "keycloak";
  user_id = text "00000000-0000-0000-0000-000000000007";
  org_id = some (text "home");
}

abbrev body : Body
body = record { org_role = some (text "admin"); space_type = some []; org_type = none }

-- The header names the organisation that is asked for.
asks_header :
    (resolve_active_org settings tools works caller
      (some (text "org"))
      (response 200 (object body))
      0
      []
      (some [])).0
    ≡ ok (active_org (text "org") (some (text "admin")) none)
unfolding resolve_active_org resolve_org_role ask_endpoint keep_answer put_local read_shared
    write_shared lookup insert role_key admit text_eq
asks_header = refl

-- Without the endpoint and without an entry there is no organisation, and nothing is cached.
fails_closed :
    resolve_active_org settings tools works caller none Response.unreachable 0 [] (some [])
    ≡ (ok (active_org [] none none), [], some [])
unfolding resolve_active_org resolve_org_role ask_endpoint read_shared lookup role_key admit text_eq
fails_closed = refl

abbrev VouchedRole : Text → Text → OrgMembership → Type 0
VouchedRole u o m = m ≡ membership (some (text "admin")) none

no_entry : LocalVouched VouchedRole []
unfolding lookup
no_entry u o c found = cc found

no_shared_entry : SharedVouched VouchedRole (some [])
unfolding lookup
no_shared_entry u o c uuid found = cc found

answered : AnswerVouched VouchedRole caller.user_id (text "org") (response 200 (object body))
answered b e = let same : body ≡ b = cc e in sym (ap read_body same)

resolve-IsGranted_example :
    let r =
      resolve_active_org settings tools works caller
        (some (text "org"))
        (response 200 (object body))
        0
        []
        (some []) in
    IsGranted VouchedRole caller.user_id r.0
    × LocalVouched VouchedRole r.1
    × SharedVouched VouchedRole r.2
unfolding text_eq
resolve-IsGranted_example =
    resolve-IsGranted VouchedRole settings tools works caller (some (text "org"))
      (response 200 (object body)) 0 [] (some []) refl refl no_entry no_shared_entry answered
