-- ===== src/Casstore.antt =====
-- casstore: the cache in front of the snapshot store.
pub mod Cache
