-- ===== src/Meta/Locks.antt =====
-- Advisory locks over the tables `flock` and `plock`: mlfs/internal/meta/locks.go. A method takes the
-- session id of its engine (`lockSID`), the answers of the database server and the two tables, and
-- returns the tables and an errno. The column `records` holds the list that its JSON encodes. The
-- transactions are READ COMMITTED and lock no row that they read, so the tables that a SELECT sees may be
-- older than those that the write meets: `flock_seen` and `setlk_seen` take both, and `flock` and `setlk`
-- are the calls with which no other transaction overlaps.
pub mod Ranges
pub mod Conflicts
pub mod Exclusion
pub mod Flocks
pub mod Reach
pub mod Effects
mod Examples
use memorylayer_storage.Prelude.{
  ℕ, ◌+◌, ◌-◌, Bool, true, false, ◌&&◌, ◌||◌, not, Option, none, some, List, [], ◌∷◌, ◌++◌, ltb,
  leb, ◌==◌, if◌then◌else◌, is_some, keep, u64,
}
use memorylayer_storage.Meta.Errno.{
  Errno, ok, eagain, eio, Server, first_select, second_select, write_row, second_write, commit,
}
use memorylayer_storage.Meta.Table.{Row, has_key, select, upsert, delete_key, delete_sid}

-- 'R', 'W' and 'U'
abbrev pub flock_shared : ℕ
flock_shared = 82

abbrev pub flock_exclusive : ℕ
flock_exclusive = 87

abbrev pub flock_unlock : ℕ
flock_unlock = 85

-- F_RDLCK, F_WRLCK and F_UNLCK of the syscall package on Linux
abbrev pub f_rdlck : ℕ
f_rdlck = 0

abbrev pub f_wrlck : ℕ
f_wrlck = 1

abbrev pub f_unlck : ℕ
f_unlck = 2

-- `end` is inclusive.
pub record PlockRec : Type 0 where
  pub typ : ℕ
  pub start : ℕ
  pub end : ℕ
  pub pid : ℕ

pub record LockDb : Type 0 where
  pub flocks : List (Row ℕ)
  pub plocks : List (Row (List PlockRec))

abbrev pub no_locks : LockDb
no_locks = record { flocks = []; plocks = [] }

-- The loop over the rows of one inode in `Flock`.
pub flock_scan : ℕ → ℕ → ℕ → ℕ → List (Row ℕ) → Bool → Bool
flock_scan sid inode owner typ [] conflict = conflict
flock_scan sid inode owner typ (r ∷ rs) conflict = flock_scan sid inode owner typ rs (
    if not (r.inode == inode)
    then conflict
    else if r.sid == sid && r.owner == owner
    then conflict
    else if typ == flock_exclusive || r.value == flock_exclusive
    then true
    else conflict)

-- `Flock`, whose SELECT sees the rows `seen`.
abbrev pub flock_seen : ℕ → Server → ℕ → ℕ → ℕ → List (Row ℕ) → LockDb → LockDb × Errno
flock_seen sid server inode owner typ seen db =
    if typ == flock_unlock
    then (if server write_row && server commit
        then (record db { flocks = delete_key inode sid owner db.flocks }, ok)
        else (db, eio))
    else if not (server first_select)
    then (db, eio)
    else if flock_scan sid inode owner typ seen false
    then (db, eagain)
    else if server write_row && server commit
    then (record db { flocks = upsert inode sid owner typ db.flocks }, ok)
    else (db, eio)

-- `Flock`, while no other transaction writes the table.
pub flock : ℕ → Server → ℕ → ℕ → ℕ → LockDb → LockDb × Errno
flock sid server inode owner typ db = flock_seen sid server inode owner typ db.flocks db

-- `decodePlock` of a column that is absent is the empty list.
abbrev pub or_empty : Option (List PlockRec) → List PlockRec
or_empty none = []
or_empty (some recs) = recs

pub load_my_plock : ℕ → ℕ → ℕ → List (Row (List PlockRec)) → List PlockRec
load_my_plock sid inode owner rows = or_empty (select inode sid owner rows)

pub load_other_plocks : ℕ → ℕ → ℕ → List (Row (List PlockRec)) → List PlockRec
load_other_plocks sid inode owner [] = []
load_other_plocks sid inode owner (r ∷ rs) =
    let rest = load_other_plocks sid inode owner rs in
    if not (r.inode == inode)
    then rest
    else if r.sid == sid && r.owner == owner
    then rest
    else r.value ++ rest

pub plock_conflict : List PlockRec → ℕ → ℕ → ℕ → Option PlockRec
plock_conflict [] typ start end = none
plock_conflict (r ∷ others) typ start end =
    let rest = plock_conflict others typ start end in
    if ltb r.end start || ltb end r.start
    then rest
    else if typ == f_wrlck || r.typ == f_wrlck
    then some r
    else rest

-- What is left of one record: the head before the new range and the tail after it.
pub trim : ℕ → ℕ → PlockRec → List PlockRec
trim start end r =
    if ltb r.end start || ltb end r.start
    then r ∷ []
    else (if ltb r.start start then record r { end = u64 (start - 1) } ∷ [] else [])
      ++ (if ltb end r.end then record r { start = u64 (end + 1) } ∷ [] else [])

pub trim_all : ℕ → ℕ → List PlockRec → List PlockRec
trim_all start end [] = []
trim_all start end (r ∷ rs) = trim start end r ++ trim_all start end rs

pub split_range : List PlockRec → ℕ → ℕ → ℕ → ℕ → List PlockRec
split_range recs typ start end pid =
    if typ == f_unlck
    then trim_all start end recs
    else trim_all start end recs ++ record { typ = typ; start = start; end = end; pid = pid } ∷ []

pub record LockInfo : Type 0 where
  pub typ : ℕ
  pub start : ℕ
  pub end : ℕ
  pub pid : ℕ
  pub errno : Errno

pub getlk : ℕ → Server → ℕ → ℕ → ℕ → ℕ → ℕ → LockDb → LockInfo
getlk sid server inode owner typ start end db =
    if not (server first_select)
    then record { typ = 0; start = 0; end = 0; pid = 0; errno = eio }
    else elim (plock_conflict (load_other_plocks sid inode owner db.plocks) typ start end) [
      | none ↦ record { typ = f_unlck; start = start; end = end; pid = 0; errno = ok }
      | some c ↦ record { typ = c.typ; start = c.start; end = c.end; pid = c.pid; errno = ok }
    ]

-- The row of `plock` after the new record list is written: an empty list deletes the row.
pub store_plock :
    ℕ → ℕ → ℕ → List PlockRec → List (Row (List PlockRec)) → List (Row (List PlockRec))
store_plock sid inode owner [] rows = delete_key inode sid owner rows
store_plock sid inode owner (r ∷ rs) rows = upsert inode sid owner (r ∷ rs) rows

-- `Setlk`, whose two SELECTs see the rows `others` and `mine`.
abbrev pub setlk_seen :
    ℕ
    → Server
    → ℕ
    → ℕ
    → ℕ
    → ℕ
    → ℕ
    → ℕ
    → List (Row (List PlockRec))
    → List (Row (List PlockRec))
    → LockDb
    → LockDb × Errno
setlk_seen sid server inode owner typ start end pid others mine db =
    if not (typ == f_unlck) && not (server first_select)
    then (db, eio)
    else if not (typ == f_unlck)
        && is_some (plock_conflict (load_other_plocks sid inode owner others) typ start end)
    then (db, eagain)
    else if server second_select && (server write_row && server commit)
    then (
      record db {
        plocks =
            store_plock sid inode owner
              (split_range (load_my_plock sid inode owner mine) typ start end pid) db.plocks;
      },
      ok,
    )
    else (db, eio)

-- `Setlk`, while no other transaction writes the table.
pub setlk : ℕ → Server → ℕ → ℕ → ℕ → ℕ → ℕ → ℕ → LockDb → LockDb × Errno
setlk sid server inode owner typ start end pid db =
    setlk_seen sid server inode owner typ start end pid db.plocks db.plocks db

-- `true` beside the tables: the transaction committed.
pub clear_all_locks : Server → LockDb → LockDb × Bool
clear_all_locks server db =
    if server write_row && (server second_write && server commit)
    then (no_locks, true)
    else (db, false)

pub clear_locks_for_sid : ℕ → Server → LockDb → LockDb × Bool
clear_locks_for_sid sid server db =
    if server write_row && (server second_write && server commit)
    then (record { flocks = delete_sid sid db.flocks; plocks = delete_sid sid db.plocks }, true)
    else (db, false)

-- The error of the one statement is ignored.
pub clear_plocks : ℕ → Server → ℕ → ℕ → LockDb → LockDb
clear_plocks sid server inode owner db =
    if owner == 0
    then db
    else if server write_row
    then record db { plocks = delete_key inode sid owner db.plocks }
    else db
