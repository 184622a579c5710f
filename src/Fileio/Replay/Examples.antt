-- ===== src/Fileio/Replay/Examples.antt =====
-- Replays at a concrete log: a write of 100 bytes, which a truncation to nothing takes away, and a later
-- write of 10 bytes.
use memorylayer_storage.Prelude.{
  ℕ, ◌≡◌, refl, true, false, none, some, [], ◌∷◌, if◌then◌else◌, ◌==◌,
}
use memorylayer_storage.Meta.Errno.{healthy, ok}
use memorylayer_storage.Meta.Slices
use memorylayer_storage.Meta.Slices.{
  SliceRow, Db, admitted, type_file, write_tx, insert_row, truncate, truncate_tx, truncate_rows,
  drop_beyond,
}
use memorylayer_storage.Meta.Slices.Content.{found}
use memorylayer_storage.Meta.Slices.Writing.{row_of}
use memorylayer_storage.Wal.{Record, op_write}
use memorylayer_storage.Fileio.Replay.{Answer, ReplayResult, redo_all, slice_of}
use memorylayer_storage.Fileio.Replay.Recovery.{redo_all-committed, found-redo_stale}

abbrev calm : ℕ → Answer
calm seq = record { gate = admitted; server = healthy; now = 9 }

abbrev older : Record
older = record {
  seq = 1;
  op = op_write;
  ino = 3;
  indx = 0;
  off = 0;
  slice_id = 5;
  size = 100;
  slice_off = 0;
  slice_len = 100;
}

abbrev newer : Record
newer = record older { seq = 2; slice_id = 6; size = 10; slice_len = 10 }

abbrev start : Db
start = record {
  nodes = λ i.
      if i == 3 then some (record { typ = type_file; length = 0; mtime = 0; ctime = 0 }) else none;
  slices = [];
  changelog = [];
}

-- The calls that the daemon makes before it crashes.
abbrev crashed : Db
crashed =
    let a = Slices.write admitted healthy 9 3 0 (slice_of older) start in
    let b = truncate admitted healthy 9 3 0 a.0 in
    (Slices.write admitted healthy 9 3 0 (slice_of newer) b.0).0

newer_only : crashed.slices ≡ row_of 3 0 (slice_of newer) ∷ []
unfolding Slices.write write_tx insert_row truncate truncate_tx truncate_rows drop_beyond
newer_only = refl

newer_kept : Slices.has_slice 3 6 crashed.slices ≡ true
unfolding Slices.write write_tx insert_row truncate truncate_tx truncate_rows drop_beyond
newer_kept = refl

older_lost : Slices.has_slice 3 5 crashed.slices ≡ false
unfolding Slices.write write_tx insert_row truncate truncate_tx truncate_rows drop_beyond
older_lost = refl

older_runs : (Slices.write admitted healthy 9 3 0 (slice_of older) crashed).1 ≡ ok
unfolding Slices.write write_tx insert_row truncate truncate_tx truncate_rows drop_beyond
older_runs = refl

abbrev none_yet : ReplayResult
none_yet = record { applied = 0; skipped = 0 }

redo_all-committed_example : (redo_all calm (newer ∷ []) none_yet crashed).0 ≡ crashed
redo_all-committed_example =
    redo_all-committed calm (newer ∷ []) none_yet crashed ((refl, newer_kept), tt)

found-redo_stale_example :
    found 3 7 (redo_all calm (older ∷ newer ∷ []) none_yet crashed).0.slices ≡ some (5, 7)
found-redo_stale_example =
    found-redo_stale calm older newer none_yet crashed 7 refl refl older_lost newer_kept older_runs
      refl
