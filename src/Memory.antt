-- ===== src/Memory.antt =====
-- The memory service of the server: backend/services/memory_service.py, with the namespace matcher
-- and the tenant filter through which it reads.
pub mod Schema
pub mod Tenancy
pub mod Matcher
pub mod Resolve
pub mod Dedup
pub mod Access
pub mod Insert
pub mod Create
pub mod Similar
pub mod Ending
pub mod Ways
pub mod Stages
pub mod Entry
pub mod Keys
pub mod Conflicts
pub mod Hidden
pub mod Expired
pub mod View
pub mod Refines
pub mod Targets
pub mod Table
pub mod Unique
pub mod Changes
pub mod Creation
pub mod Lifecycle
pub mod Deletion
pub mod Listing
