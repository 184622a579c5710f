-- ===== src/Meta.antt =====
-- The PostgreSQL filesystem metadata engine, mlfs/internal/meta.
pub mod Errno
pub mod Table
pub mod Locks
pub mod Ownership
pub mod Slices
pub mod Names
pub mod Handles
pub mod Scope
