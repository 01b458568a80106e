-- ===== src/Tests.antt =====
-- Tests on concrete inputs, and the theorems applied to them.
mod Gatekeeper
mod Pair
mod Audit
mod Compression
mod Digest
mod Local
mod Aaak
mod Memory
mod Teams
mod Orgs
