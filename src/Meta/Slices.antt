-- ===== src/Meta/Slices.antt =====
-- File contents in the metadata engine: the tables `node` and `slice_ref`, with the operations of
-- mlfs/internal/meta/slices.go and `Write` of mlfs/internal/meta/ops.go. The rows of `slice_ref` stand
-- in the order of their ids, which is the order of their inserts.
pub mod Content
pub mod Writing
pub mod Truncating
pub mod Copies
pub mod Cloning
pub mod Ranges
mod Examples
use memorylayer_storage.Prelude.{
  ℕ, ◌+◌, ◌-◌, ◌*◌, ◌^◌, Bool, true, false, ◌&&◌, not, Option, none, some, List, [], ◌∷◌, ◌++◌, map,
  ltb, leb, ◌==◌, if◌then◌else◌, any, keep, u32,
}
use memorylayer_storage.Meta.Errno.{
  Errno, ok, enoent, eisdir, einval, eio, Server, first_select, second_select, write_row, commit,
}
use memorylayer_storage.Meta.Ownership.{FenceError, fence_errno}

-- meta.SliceRef: the bytes [off, off + len) of the slice `id`, at `pos` in the chunk.
pub record SliceRef : Type 0 where
  pub pos : ℕ
  pub id : ℕ
  pub size : ℕ
  pub off : ℕ
  pub len : ℕ

-- 64 MiB
abbrev pub chunk_size : ℕ
chunk_size = 2 ^ 26

abbrev pub type_file : ℕ
type_file = 1

abbrev pub type_directory : ℕ
type_directory = 2

-- A row of `slice_ref`: a slice of the chunk `indx` of a file.
pub record SliceRow : Type 0 where
  pub inode : ℕ
  pub indx : ℕ
  pub ref : SliceRef
  pub open ref use *

-- The columns of `node` that these operations read and write.
pub record Node : Type 0 where
  pub typ : ℕ
  pub length : ℕ
  pub mtime : ℕ
  pub ctime : ℕ

-- The operation and the payload of a row of `fs_changelog`.
pub data Change : Type 0 where
  truncated : ℕ → Change
  wrote : ℕ → ℕ → ℕ → Change
  cloned : ℕ → ℕ → Change
  cloned_range : ℕ → ℕ → ℕ → ℕ → Change

pub record Db : Type 0 where
  pub nodes : ℕ → Option Node
  pub slices : List SliceRow
  pub changelog : List (ℕ × Change)

-- The answers of `acquireScope`, before the transaction, and of `checkFence`, in it.
pub record Gate : Type 0 where
  pub scope : Errno
  pub fence : Option FenceError

abbrev pub admitted : Gate
admitted = record { scope = ok; fence = none }

abbrev pub past_fence : Option FenceError → Db → Db × Errno → Db × Errno
past_fence none db body = body
past_fence (some e) db body = (db, fence_errno (some e))

-- `acquireScope`, then the transaction behind its fence.
abbrev pub guarded : Gate → Db → Db × Errno → Db × Errno
guarded gate db body = elim gate.scope [ ok ↦ past_fence gate.fence db body | st ↦ (db, st) ]

-- The writing statements and the commit; a failure of any rolls back.
abbrev pub committed : Server → Db → Db → Db × Errno
committed server db db' = if server write_row && server commit then (db', ok) else (db, eio)

abbrev pub put_node : ℕ → Node → (ℕ → Option Node) → ℕ → Option Node
put_node inode n nodes i = if inode == i then some n else nodes i

-- `none` for the error of the query.
unfoldable pub read_slices : Server → ℕ → ℕ → Db → Option (List SliceRef)
read_slices server inode indx db =
    if server first_select
    then some (map (λ r. r.ref) (keep (λ r. r.inode == inode && r.indx == indx) db.slices))
    else none

-- Where a row starts in the file.
abbrev pub row_start : SliceRow → ℕ
row_start r = r.indx * chunk_size + r.pos

-- DELETE ... WHERE inode=$1 AND start >= size
unfoldable pub drop_beyond : ℕ → ℕ → List SliceRow → List SliceRow
drop_beyond inode size rows = keep (λ r. not (r.inode == inode && leb size (row_start r))) rows

-- UPDATE ... SET slen = size - start WHERE inode=$1 AND start < size AND start + slen > size
abbrev pub trim_row : ℕ → ℕ → SliceRow → SliceRow
trim_row inode size r =
    if r.inode == inode && (ltb (row_start r) size && ltb size (row_start r + r.len))
    then record r { ref = record r.ref { len = size - row_start r } }
    else r

unfoldable pub truncate_rows : ℕ → ℕ → List SliceRow → List SliceRow
truncate_rows inode size rows = map (trim_row inode size) (drop_beyond inode size rows)

-- The transaction of `Truncate`, past its fence.
unfoldable pub truncate_tx : Server → ℕ → ℕ → ℕ → Db → Db × Errno
truncate_tx server now inode size db =
    (if not (server first_select) then (db, eio) else elim (db.nodes inode) [
      | none ↦ (db, enoent)
      | some cur ↦
          if cur.typ == type_directory
          then (db, eisdir)
          else committed server db (record {
            nodes =
                put_node inode (record cur { length = size; mtime = now; ctime = now }) db.nodes;
            slices = if ltb size cur.length then truncate_rows inode size db.slices else db.slices;
            changelog = db.changelog ++ (inode, truncated size) ∷ [];
          })
    ])

unfoldable pub truncate : Gate → Server → ℕ → ℕ → ℕ → Db → Db × Errno
truncate gate server now inode size db = guarded gate db (truncate_tx server now inode size db)

-- UNIQUE (inode, slice_id)
abbrev pub has_slice : ℕ → ℕ → List SliceRow → Bool
has_slice inode id rows = any (λ r. r.inode == inode && r.id == id) rows

-- INSERT ... ON CONFLICT (inode, slice_id) DO NOTHING
unfoldable pub insert_row : SliceRow → List SliceRow → List SliceRow
insert_row r rows = if has_slice r.inode r.id rows then rows else rows ++ r ∷ []

-- The transaction of `Write`, past its fence.
unfoldable pub write_tx : Server → ℕ → ℕ → ℕ → SliceRef → Db → Db × Errno
write_tx server now inode indx s db =
    (if not (server first_select) then (db, eio) else elim (db.nodes inode) [
      | none ↦ (db, enoent)
      | some cur ↦
          if not (cur.typ == type_file)
          then (db, einval)
          else if has_slice inode s.id db.slices
          then committed server db db
          else let new_len = indx * chunk_size + s.pos + s.len in
            committed server db (record {
              nodes =
                  put_node inode
                    (record cur {
                      length = if ltb cur.length new_len then new_len else cur.length;
                      mtime = now;
                      ctime = now;
                    })
                    db.nodes;
              slices = insert_row (record { inode = inode; indx = indx; ref = s }) db.slices;
              changelog = db.changelog ++ (inode, wrote indx s.pos s.len) ∷ [];
            })
    ])

unfoldable pub write : Gate → Server → ℕ → ℕ → ℕ → SliceRef → Db → Db × Errno
write gate server now inode indx s db = guarded gate db (write_tx server now inode indx s db)

-- The rows of an INSERT ... SELECT, one after another, each ON CONFLICT DO NOTHING.
pub insert_rows : List SliceRow → List SliceRow → List SliceRow
insert_rows [] rows = rows
insert_rows (r ∷ new) rows = insert_rows new (insert_row r rows)

-- The order in which the server yields the rows of a SELECT without ORDER BY.
abbrev pub Scan : Type 0
Scan = List SliceRow → List SliceRow

pub clone_rows : Scan → ℕ → ℕ → List SliceRow → List SliceRow
clone_rows scan src dst rows =
    let copy = λ (r : SliceRow). record r { inode = dst } in
    insert_rows (map copy (scan (keep (λ r. r.inode == src) rows))) rows

pub clone_tx : Server → Scan → ℕ → ℕ → ℕ → Db → Db × Errno
clone_tx server scan now src_ino dst_ino db =
    (if not (server first_select) then (db, eio) else elim (db.nodes src_ino) [
      | none ↦ (db, enoent)
      | some src ↦ if not (server second_select) then (db, eio) else elim (db.nodes dst_ino) [
        | none ↦ (db, enoent)
        | some dst ↦
            if not (src.typ == type_file)
            then (db, einval)
            else committed server db (record {
              nodes =
                  put_node dst_ino (record dst { length = src.length; mtime = now; ctime = now })
                    db.nodes;
              slices = clone_rows scan src_ino dst_ino db.slices;
              changelog = db.changelog ++ (dst_ino, cloned src_ino src.length) ∷ [];
            })
      ]
    ])

pub clone : Gate → Server → Scan → ℕ → ℕ → ℕ → Db → Db × Errno
clone gate server scan now src_ino dst_ino db =
    guarded gate db (clone_tx server scan now src_ino dst_ino db)

-- indx >= first AND indx < first + n, with the sum taken in 32 bits
abbrev pub in_range : ℕ → ℕ → ℕ → SliceRow → Bool
in_range inode first n r = r.inode == inode && (leb first r.indx && ltb r.indx (u32 (first + n)))

-- Clear the destination chunks, then copy the source rows over. `src_idx + $2` of the statement is
-- indx + (dstIdx - srcIdx), which is not negative for a row of the range.
pub clone_range_rows : Scan → ℕ → ℕ → ℕ → ℕ → ℕ → List SliceRow → List SliceRow
clone_range_rows scan src dst src_idx dst_idx n rows =
    let cleared = keep (λ r. not (in_range dst dst_idx n r)) rows in
    let copy = λ (r : SliceRow). record r { inode = dst; indx = r.indx + dst_idx - src_idx } in
    insert_rows (map copy (scan (keep (in_range src src_idx n) cleared))) cleared

pub clone_range_tx : Server → Scan → ℕ → ℕ → ℕ → ℕ → ℕ → Db → Db × Errno
clone_range_tx server scan src_ino dst_ino src_idx dst_idx n_chunks db =
    (if not (server first_select) then (db, eio) else elim (db.nodes src_ino) [
      | none ↦ (db, enoent)
      | some src ↦ if not (server second_select) then (db, eio) else elim (db.nodes dst_ino) [
        | none ↦ (db, enoent)
        | some dst ↦
            if not (dst.typ == type_file)
            then (db, einval)
            else committed server db (record db {
              slices = clone_range_rows scan src_ino dst_ino src_idx dst_idx n_chunks db.slices;
              changelog =
                  db.changelog ++ (dst_ino, cloned_range src_ino src_idx dst_idx n_chunks) ∷ [];
            })
      ]
    ])

pub clone_range : Gate → Server → Scan → ℕ → ℕ → ℕ → ℕ → ℕ → Db → Db × Errno
clone_range gate server scan src_ino dst_ino src_idx dst_idx n_chunks db =
    if n_chunks == 0
    then (db, ok)
    else guarded gate db (clone_range_tx server scan src_ino dst_ino src_idx dst_idx n_chunks db)
