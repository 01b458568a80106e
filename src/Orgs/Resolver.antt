-- ===== src/Orgs/Resolver.antt =====
-- backend/services/org_role_resolver.py: the role of a user in an organisation, from two caches or
-- from the endpoint of core_backend.
use kemory_community.Prelude.{
  ℕ, ◌+◌, ◌≡◌, ◌⊎◌, Text, text, text_eq, not, Option, none, some, [], ◌∷◌, ◌++◌, keep, ltb, ◌==◌,
  leb, if◌then◌else◌,
}
use kemory_community.Prelude.Dict.{Dict, lookup, insert, remove, str_eq, pair_eq}
use kemory_community.Teams.Resolver.{RedisStatus}

-- `org_role` is `none` for a user who is known to be no member.
pub record OrgMembership : Type 0 where
  pub org_role : Option Text
  pub org_type : Option Text

abbrev pub membership : Option Text → Option Text → OrgMembership
membership role kind = record { org_role = role; org_type = kind }

pub record Held : Type 0 where
  pub held : OrgMembership
  pub expires_at : ℕ

abbrev pub RoleCache : Type 0
RoleCache = Dict (Text × Text) Held

-- `none` where there is no Redis client.
abbrev pub SharedCache : Type 0
SharedCache = Option (Dict Text Held)

-- What a bounded `TTLCache` drops when it is full: what is left is as it was.
pub record Bounded : Type 0 where
  pub evict : RoleCache → RoleCache
  pub lookup-evict :
      (k : Text × Text) (d : RoleCache)
      → (lookup k (evict d) ≡ none) ⊎ (lookup k (evict d) ≡ lookup k d)

-- The fields that the resolver reads from the object; `space_type` is that of its "organization".
pub record Body : Type 0 where
  pub org_role : Option Text
  pub space_type : Option Text
  pub org_type : Option Text

pub data Json : Type 0 where
  no_json : Json
  no_object : Json
  object : Body → Json

pub data Response : Type 0 where
  unreachable : Response
  response : ℕ → Json → Response

-- An answer, or the exception that leaves the function.
pub data OrgResult (A : Type 0) : Type 0 where
  ok : A → OrgResult A
  org_resolve_error : OrgResult A
  attribute_error : OrgResult A

abbrev pub local_ttl : ℕ
local_ttl = 5_000_000

abbrev pub shared_ttl : ℕ
shared_ttl = 60_000_000

unfoldable pub role_key : Text → Text → Text
role_key sub org_id = text "kemory:orgrole:" ++ (org_id ++ b':' ∷ sub)

-- `a or b`
abbrev pub first_truthy : Option Text → Option Text → Option Text
first_truthy none b = b
first_truthy (some []) b = b
first_truthy (some (c ∷ cs)) b = some (c ∷ cs)

abbrev pub live : ℕ → Option Held → Option OrgMembership
live now none = none
live now (some c) = if ltb now c.expires_at then some c.held else none

abbrev pub hold : OrgMembership → ℕ → Held
hold m expires_at = record { held = m; expires_at = expires_at }

unfoldable pub put_local : Bounded → Text → Text → OrgMembership → ℕ → RoleCache → RoleCache
unfolding insert
put_local tools sub org_id m now l1 =
    tools.evict (insert (sub, org_id) (hold m (now + local_ttl)) l1)

unfoldable pub read_shared : RedisStatus → Text → Text → ℕ → SharedCache → Option OrgMembership
unfolding lookup role_key
read_shared redis sub org_id now none = none
read_shared redis sub org_id now (some l2) =
    if redis.reads then live now (lookup (role_key sub org_id) l2) else none

unfoldable pub write_shared :
    RedisStatus → Text → Text → OrgMembership → ℕ → SharedCache → SharedCache
unfolding insert role_key
write_shared redis sub org_id m now none = none
write_shared redis sub org_id m now (some l2) =
    if redis.writes
    then some (insert (role_key sub org_id) (hold m (now + shared_ttl)) l2)
    else some l2

abbrev pub read_body : Body → OrgMembership
read_body b = membership b.org_role (first_truthy b.space_type b.org_type)

-- What becomes of the body of an answer with the status 200.
unfoldable pub keep_answer :
    Bounded
    → RedisStatus
    → Text
    → Text
    → Json
    → ℕ
    → RoleCache
    → SharedCache
    → OrgResult OrgMembership × RoleCache × SharedCache
unfolding put_local write_shared
keep_answer tools redis sub org_id no_json now l1 l2 = (org_resolve_error, l1, l2)
keep_answer tools redis sub org_id no_object now l1 l2 = (attribute_error, l1, l2)
keep_answer tools redis sub org_id (object b) now l1 l2 = (
  ok (read_body b),
  put_local tools sub org_id (read_body b) now l1,
  write_shared redis sub org_id (read_body b) now l2,
)

-- The part after the two caches.
unfoldable pub ask_endpoint :
    Bounded
    → RedisStatus
    → Text
    → Text
    → Response
    → ℕ
    → RoleCache
    → SharedCache
    → OrgResult OrgMembership × RoleCache × SharedCache
unfolding keep_answer
ask_endpoint tools redis sub org_id unreachable now l1 l2 = (org_resolve_error, l1, l2)
ask_endpoint tools redis sub org_id (response status body) now l1 l2 =
    if leb 500 status
    then (org_resolve_error, l1, l2)
    else if not (status == 200)
    then (ok (membership none none), l1, l2)
    else keep_answer tools redis sub org_id body now l1 l2

unfoldable pub resolve_org_role :
    Bounded
    → RedisStatus
    → Text
    → Text
    → Response
    → ℕ
    → RoleCache
    → SharedCache
    → OrgResult OrgMembership × RoleCache × SharedCache
unfolding put_local read_shared ask_endpoint lookup
resolve_org_role tools redis sub org_id answer now l1 l2 =
    elim (live now (lookup (sub, org_id) l1)) [
      | some m ↦ (ok m, l1, l2)
      | none ↦ elim (read_shared redis sub org_id now l2) [
        | some m ↦ (ok m, put_local tools sub org_id m now l1, l2)
        | none ↦ ask_endpoint tools redis sub org_id answer now l1 l2
      ]
    ]

unfoldable pub invalidate_sub : Text → RoleCache → RoleCache
invalidate_sub sub l1 = keep (λ p. not (text_eq p.0.0 sub)) l1

abbrev pub delete_shared : RedisStatus → Text → SharedCache → SharedCache
delete_shared redis key none = none
delete_shared redis key (some l2) = if redis.writes then some (remove key l2) else some l2

unfoldable pub invalidate_role :
    RedisStatus → Text → Text → RoleCache → SharedCache → RoleCache × SharedCache
unfolding remove role_key
invalidate_role redis sub org_id l1 l2 =
    (remove (sub, org_id) l1, delete_shared redis (role_key sub org_id) l2)
