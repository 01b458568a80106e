-- ===== src/Aaak.antt =====
-- The line format of kemory/compression/aaak.py.
pub mod Value
pub mod ValueRoundTrip
pub mod Line
pub mod LineRoundTrip
pub mod Strip
pub mod Tokens
pub mod Record
pub mod Exact
pub mod Lossless
