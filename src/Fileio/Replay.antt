-- ===== src/Fileio/Replay.antt =====
-- Recovery of the metadata from the write-ahead log: `ReplayWAL` of mlfs/internal/fileio/replay.go, over
-- the log and the slices of the metadata engine.
pub mod Recovery
mod Examples
use memorylayer_storage.Prelude.{
  ℕ, ◌+◌, ◌*◌, ◌^◌, Bool, true, false, Option, none, some, List, [], ◌∷◌, ◌==◌, if◌then◌else◌,
}
use memorylayer_storage.Meta.Errno.{Errno, ok, enoent, einval, estale, Server}
use memorylayer_storage.Meta.Slices
use memorylayer_storage.Meta.Slices.{SliceRef, Db, Gate, truncate}
use memorylayer_storage.Wal.{Record, op_write, op_truncate}
use memorylayer_storage.Wal.Log
use memorylayer_storage.Wal.Log.{Log, checkpoint}

pub record ReplayResult : Type 0 where
  pub applied : ℕ
  pub skipped : ℕ

-- The gate, the server and the clock of the metadata engine for one record.
pub record Answer : Type 0 where
  pub gate : Gate
  pub server : Server
  pub now : ℕ

abbrev pub slice_of : Record → SliceRef
slice_of rec = record {
  pos = rec.off;
  id = rec.slice_id;
  size = rec.size;
  off = rec.slice_off;
  len = rec.slice_len;
}

-- The operation of a record; `none` for one that is not known.
unfoldable pub redo : Answer → Record → Db → Option (Db × Errno)
redo a rec db =
    if rec.op == op_write
    then some (Slices.write a.gate a.server a.now rec.ino rec.indx (slice_of rec) db)
    else if rec.op == op_truncate
    then some (truncate a.gate a.server a.now rec.ino (rec.indx * 2 ^ 32 + rec.off) db)
    else none

-- How the callback counts an errno; `none` ends the replay.
abbrev pub counted : Errno → ReplayResult → Option ReplayResult
counted st res = elim st [
  | ok ↦ some (record res { applied = res.applied + 1 })
  | enoent ↦ some (record res { skipped = res.skipped + 1 })
  | einval ↦ some (record res { skipped = res.skipped + 1 })
  | estale ↦ some (record res { skipped = res.skipped + 1 })
  | _ ↦ none
]

-- The callback over the records, in order; the Boolean is whether it came through. The answers are by
-- sequence number.
unfoldable pub redo_all : (ℕ → Answer) → List Record → ReplayResult → Db → Db × ReplayResult × Bool
redo_all answers [] res db = (db, res, true)
redo_all answers (rec ∷ recs) res db = elim (redo (answers rec.seq) rec db) [
  | none ↦ (db, res, false)
  | some r ↦ elim (counted r.1 res) [
    | none ↦ (r.0, res, false)
    | some res' ↦ redo_all answers recs res' r.0
  ]
]

-- `ReplayWAL`: the log is checkpointed when all records are through; `removes` is as for `Checkpoint`.
pub replay_wal :
    (List ℕ → ℕ) → (ℕ → Answer) → (ℕ → Bool) → Log → Db → Log × Db × ReplayResult × Bool
replay_wal crc answers removes w db =
    let r = redo_all answers (Log.replay crc w) (record { applied = 0; skipped = 0 }) db in
    let checkpointed = checkpoint removes w.seq w in
    if r.2 then (checkpointed.0, r.0, r.1, checkpointed.1) else (w, r.0, r.1, false)
