-- ===== src/Audit.antt =====
-- The audit log, backend/services/audit_service.py with backend/models/audit_log.py.
pub mod Schema
pub mod Log
pub mod Query
pub mod Limits
pub mod Verify
pub mod Chain
pub mod Logged
pub mod Tamper
pub mod Admission
