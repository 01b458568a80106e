-- ===== src/Local.antt =====
-- The local storage backend, kemory/storage/local.py: its SQLite tables of episodes and edges.
pub mod Schema
pub mod Episodes
pub mod Graph
pub mod Forget
pub mod Lifecycle
pub mod Survival
pub mod Forgetting
pub mod Links
pub mod Access
