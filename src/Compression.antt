-- ===== src/Compression.antt =====
-- The cache of compressed namespaces, kemory/compression/cache.py.
pub mod Cache
pub mod Hits
