-- ===== src/Meta/Errno.antt =====
-- The error numbers that mlfs/internal/meta returns, and which statement of a transaction the
-- database server refuses (none, for most calls).
use memorylayer_storage.Prelude.{Bool, true}

-- `ok` stands for the errno 0.
pub data Errno : Type 0 where
  ok enoent eagain eio estale eisdir enotdir enotempty eexist einval enosys eperm eacces : Errno

-- The statements of one transaction, in the order in which a method issues them.
pub data Stmt : Type 0 where
  first_select second_select third_select write_row second_write commit : Stmt

-- Which statements the server carries out. The server is not part of the repository: a call takes
-- its answers as an argument.
abbrev pub Server : Type 0
Server = Stmt → Bool

abbrev pub healthy : Server
healthy s = true
