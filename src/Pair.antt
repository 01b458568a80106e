-- ===== src/Pair.antt =====
-- Short-lived pair codes, backend/services/pair_service.py: the in-memory store, and the Redis store.
pub mod Record
pub mod Memory
pub mod Claims
pub mod Race
