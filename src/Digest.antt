-- ===== src/Digest.antt =====
-- Parts of the session digest, backend/services/session_digest_service.py.
pub mod Turns
pub mod Lossless
pub mod Budget
pub mod SourceIds
pub mod Fitted
pub mod RoundTrip
