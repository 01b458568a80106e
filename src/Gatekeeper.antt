-- ===== src/Gatekeeper.antt =====
-- The permission engine, backend/services/gatekeeper_service.py: its rules, the decision on a
-- request, and the consent requests that a decision may open.
pub mod Schema
pub mod Scope
pub mod Rules
pub mod Evaluate
pub mod Consent
pub mod Priority
pub mod Effects
pub mod Writes
pub mod Covers
pub mod Lifecycle
pub mod Reach
pub mod Validity
