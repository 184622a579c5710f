-- ===== src/Fileio/Files.antt =====
-- The data path of a file: `Files` of mlfs/internal/fileio/fileio.go with `Write` and `Read`, over a
-- chunk store, the log and the slices of the metadata engine, and `NewSlice` of
-- mlfs/internal/meta/engine.go. Offsets are not negative, and slice ids stay below 2 ^ 63. `crc` is
-- the checksum of the log.
pub mod View
pub mod Ids
pub mod Effects
pub mod Rounds
pub mod Writing
pub mod Buffers
pub mod Segments
pub mod Windows
pub mod Looping
pub mod Reading
pub mod Roundtrip
mod Examples
use memorylayer_storage.Prelude.{
  ℕ, zero, suc, ◌+◌, ◌-◌, ◌*◌, ◌/◌, ◌%◌, ◌^◌, Bool, true, false, not, Option, none, some, List, [],
  ◌∷◌, ◌++◌, length, take, drop, ltb, leb, is_some, ◌==◌, if◌then◌else◌, u32,
}
use memorylayer_storage.Meta.Errno.{Errno, ok, enoent, eio, Server, first_select}
use memorylayer_storage.Meta.Slices
use memorylayer_storage.Meta.Slices.{Db, Gate, chunk_size, read_slices}
use memorylayer_storage.Wal.{Record, op_write}
use memorylayer_storage.Wal.Log
use memorylayer_storage.Wal.Log.{Log, Disk}
use memorylayer_storage.Fileio.Chunks.{Store}
use memorylayer_storage.Fileio.Resolve.{Seg, resolve}

abbrev pub inode_batch : ℕ
inode_batch = 1024

-- The batch of slice ids of a daemon, [next, end), and the counter `nextslice` of the database.
pub record SliceIds : Type 0 where
  pub counter : ℕ
  pub next : ℕ
  pub end : ℕ

-- `NewSlice`; the Boolean is whether the database answers, where it is asked.
unfoldable pub new_slice : Bool → SliceIds → SliceIds × Option ℕ
new_slice answers ids =
    if leb ids.end ids.next
    then if answers
      then (
        record {
          counter = ids.counter + inode_batch;
          next = ids.counter + inode_batch - inode_batch + 1;
          end = ids.counter + inode_batch;
        },
        some (ids.counter + inode_batch - inode_batch),
      )
      else (ids, none)
    else (record ids { next = ids.next + 1 }, some ids.next)

-- `wal` is none without a log.
pub record Files (S : Type 0) : Type 0 where
  pub ids : SliceIds
  pub chunks : S
  pub wal : Option Log
  pub db : Db

-- What a round of `Write` meets: the database under `NewSlice`, the file system under the log, and the
-- gate, the server and the clock of the metadata engine.
pub record Round : Type 0 where
  pub answers : Bool
  pub makes : Bool
  pub disk : Disk
  pub gate : Gate
  pub server : Server
  pub now : ℕ

pub data WriteError : Type 0 where
  new_slice_failed chunk_failed wal_failed : WriteError
  meta_failed : Errno → WriteError

abbrev pub errno_error : Errno → Option WriteError
errno_error st = elim st [ ok ↦ none | e ↦ some (meta_failed e) ]

pub data ReadError : Type 0 where
  getattr_failed slices_failed chunk_unread out_of_fuel : ReadError

-- `copy(p[at:], bytes)`
unfoldable pub splice : List ℕ → ℕ → List ℕ → List ℕ
splice buf at bytes = take at buf ++ (bytes ++ drop (at + length bytes) buf)

abbrev pub zeros : ℕ → List ℕ
zeros zero = []
zeros (suc n) = 0 ∷ zeros n

module _ {S : Type 0} (store : Store S) where
  -- The loop of `Read` over the segments of a chunk.
  unfoldable pub read_segs : ℕ → ℕ → List Seg → List ℕ → S → S × Option (List ℕ)
  read_segs base offset [] buf s = (s, some buf)
  read_segs base offset (g ∷ segs) buf s = elim (g.id == 0) [
    | true ↦ read_segs base offset segs buf s
    | false ↦
        let r = store.read_at g.id g.src_off (g.end - g.start) s in
        elim r.1 [
          | none ↦ (r.0, none)
          | some bytes ↦ read_segs base offset segs (splice buf (base + g.start - offset) bytes) r.0
        ]
  ]

  -- The loop of `Read` over the chunks, on fuel; `servers` is the database at each `ReadSlices`.
  unfoldable pub read_loop :
      ℕ → (ℕ → Server) → ℕ → ℕ → ℕ → ℕ → List ℕ → Files S → Files S × Option ReadError × List ℕ
  read_loop zero servers ino offset end cur buf f =
      if ltb cur end then (f, some out_of_fuel, buf) else (f, none, buf)
  read_loop (suc fuel) servers ino offset end cur buf f = elim (ltb cur end) [
    | false ↦ (f, none, buf)
    | true ↦
        let indx = u32 (cur / chunk_size) in
        let base = indx * chunk_size in
        let lo = u32 (cur - base) in
        let hi_byte = if ltb end (base + chunk_size) then end else base + chunk_size in
        let hi = u32 (hi_byte - base) in
        elim (read_slices (servers indx) ino indx f.db) [
          | none ↦ (f, some slices_failed, buf)
          | some slices ↦
              let r = read_segs base offset (resolve slices lo hi) buf f.chunks in
              elim r.1 [
                | none ↦ (record f { chunks = r.0 }, some chunk_unread, buf)
                | some buf' ↦
                    read_loop fuel servers ino offset end hi_byte buf' (record f { chunks = r.0 })
              ]
        ]
  ]

  -- `len` is that of the caller's buffer; the answer is the part of it that is filled.
  unfoldable pub read :
      Server → (ℕ → Server) → ℕ → ℕ → ℕ → Files S → Files S × Option ReadError × List ℕ
  read server servers ino offset len f =
      if not (server first_select) then (f, some getattr_failed, []) else elim (f.db.nodes ino) [
        | none ↦ (f, some getattr_failed, [])
        | some attr ↦
            if leb attr.length offset
            then (f, none, [])
            else if len == 0
            then (f, none, [])
            else let end = if ltb attr.length (offset + len) then attr.length else offset + len in
              read_loop (end - offset) servers ino offset end offset (zeros (end - offset)) f
      ]

module _ {S : Type 0} (store : Store S) (crc : List ℕ → ℕ) where
  -- The log entry and the metadata write of a slice that is in the chunk store.
  unfoldable pub write_meta : Round → ℕ → ℕ → ℕ → ℕ → ℕ → Files S → Files S × Option WriteError
  write_meta round ino indx pos n id f =
      let r =
        Slices.write round.gate round.server round.now ino indx
          (record { pos = pos; id = id; size = u32 n; off = 0; len = u32 n }) f.db in
      (record f { db = r.0 }, errno_error r.1)

  -- `wal.Append`, where there is a log; the Boolean is whether `Write` goes on.
  unfoldable pub log_slice : Round → ℕ → ℕ → ℕ → ℕ → ℕ → Option Log → Option Log × Bool
  log_slice round ino indx pos n id none = (none, true)
  log_slice round ino indx pos n id (some w) =
      let r =
        Log.append crc round.makes round.disk
          (record {
            seq = 0;
            op = op_write;
            ino = ino;
            indx = indx;
            off = pos;
            slice_id = id;
            size = u32 n;
            slice_off = 0;
            slice_len = u32 n;
          })
          w in
      (some r.0, is_some r.1)

  unfoldable pub write_logged : Round → ℕ → ℕ → ℕ → ℕ → ℕ → Files S → Files S × Option WriteError
  write_logged round ino indx pos n id f =
      let r = log_slice round ino indx pos n id f.wal in
      if r.1
      then write_meta round ino indx pos n id (record f { wal = r.0 })
      else (record f { wal = r.0 }, some wal_failed)

  unfoldable pub write_chunk :
      Round → ℕ → ℕ → ℕ → List ℕ → ℕ → ℕ → Files S → Files S × Option WriteError
  write_chunk round ino indx pos bytes class id f =
      let r = store.write id bytes class f.chunks in
      if r.1
      then write_logged round ino indx pos (length bytes) id (record f { chunks = r.0 })
      else (record f { chunks = r.0 }, some chunk_failed)

  -- One round of `Write`: `bytes` at `pos` of the chunk `indx`.
  unfoldable pub write_round :
      Round → ℕ → ℕ → ℕ → List ℕ → ℕ → Files S → Files S × Option WriteError
  write_round round ino indx pos bytes class f =
      let r = new_slice round.answers f.ids in
      elim r.1 [
        | none ↦ (record f { ids = r.0 }, some new_slice_failed)
        | some id ↦ write_chunk round ino indx pos bytes class id (record f { ids = r.0 })
      ]

  -- The loop, on fuel; the round of a chunk is `rounds` at its index.
  unfoldable pub write_loop :
      ℕ → (ℕ → Round) → ℕ → ℕ → List ℕ → ℕ → ℕ → Files S → Files S × ℕ × Option WriteError
  write_loop zero rounds ino offset body class written f = (f, written, none)
  write_loop (suc fuel) rounds ino offset [] class written f = (f, written, none)
  write_loop (suc fuel) rounds ino offset (b ∷ body) class written f =
      let indx = u32 (offset / chunk_size) in
      let pos = u32 (offset % chunk_size) in
      let room = chunk_size - pos in
      let n = if ltb room (length (b ∷ body)) then room else length (b ∷ body) in
      let r = write_round (rounds indx) ino indx pos (take n (b ∷ body)) class f in
      elim r.1 [
        | none ↦ write_loop fuel rounds ino (offset + n) (drop n (b ∷ body)) class (written + n) r.0
        | some e ↦ (r.0, written, some e)
      ]

  -- Each round takes a byte at least, so that the length is fuel enough.
  unfoldable pub write :
      (ℕ → Round) → ℕ → ℕ → List ℕ → ℕ → Files S → Files S × ℕ × Option WriteError
  write rounds ino offset body class f = write_loop (length body) rounds ino offset body class 0 f
