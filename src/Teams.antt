-- ===== src/Teams.antt =====
-- The resolver of team memberships: backend/services/team_resolver.py.
pub mod Resolver
pub mod Freshness
pub mod Dropping
pub mod Processes
