-- ===== src/Fileio.antt =====
-- The data path of the filesystem, mlfs/internal/fileio.
pub mod Chunks
pub mod Resolve
pub mod Files
pub mod Replay
