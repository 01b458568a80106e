-- ===== src/Orgs.antt =====
-- The organisation that a request acts in: backend/services/org_role_resolver.py and
-- backend/core/active_org.py.
pub mod Resolver
pub mod ActiveOrg
pub mod Granting
