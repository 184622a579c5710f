-- ===== src/Wal/Examples.antt =====
-- The theorems on the write-ahead log at concrete inputs.
use memorylayer_storage.Prelude.{
  ℕ, ◌%◌, ◌^◌, ◌<◌, ◌≡◌, refl, sym, ◌+◌, u64, true, none, some, List, [], ◌∷◌, ◌++◌, length, arith,
}
use mathlib.Core.List.{append-nil}
use memorylayer_storage.Wal.{Record, op_write, marshal, unmarshal_record, frame, max_seq_of}
use memorylayer_storage.Wal.Codec.{Fits, unmarshal_record-marshal}
use memorylayer_storage.Wal.Scanning.{frames}
use memorylayer_storage.Wal.Log.{
  Log, durable, short, append, sort_segments, load_sorted, load, replay, checkpoint,
}
use memorylayer_storage.Wal.Log.Durable.{IsWell, IsNumbered, Appended, append-durable}
use memorylayer_storage.Wal.Log.Hidden.{replay-append_hidden}
use memorylayer_storage.Wal.Log.Recovery.{Recovered, load-append_short}
use memorylayer_storage.Wal.Log.Checkpoints.{Checkpointed, pending-checkpoint}

-- A checksum of 32 bits.
abbrev sum32 : List ℕ → ℕ
sum32 p = length p % 2 ^ 32

sum32_fits : (p : List ℕ) → sum32 p < 2 ^ 32
sum32_fits p = omega arith

abbrev first : Record
first = record {
  seq = 1;
  op = op_write;
  ino = 3;
  indx = 0;
  off = 40;
  slice_id = 6;
  size = 20;
  slice_off = 0;
  slice_len = 20;
}

first-Fits : Fits first
first-Fits = record {
  seq = omega arith;
  op = omega arith;
  ino = omega arith;
  indx = omega arith;
  off = omega arith;
  slice_id = omega arith;
  size = omega arith;
  slice_off = omega arith;
  slice_len = omega arith;
}

unmarshal_record-marshal_example : unmarshal_record (marshal first) ≡ some first
unmarshal_record-marshal_example = unmarshal_record-marshal first first-Fits

-- The log of an empty directory.
abbrev empty_log : Log
empty_log = record {
  segment_size = 2 ^ 26;
  seq = 0;
  segs = [];
  cur = record { start_seq = 1; max_seq = 0; file = [] };
  cur_bytes = 0;
}

empty_log_lem : load sum32 (2 ^ 26) [] ≡ empty_log
unfolding load sort_segments load_sorted
empty_log_lem = refl

empty_log-IsWell : IsWell sum32 empty_log
unfolding frames max_seq_of
empty_log-IsWell = record {
  closed = tt;
  current = record { records = []; bytes = refl; fits = tt; highest = refl };
  bound = omega arith;
  names = (tt, tt);
}

empty_log-IsNumbered : IsNumbered empty_log
empty_log-IsNumbered = record {
  size = omega arith;
  opened = omega arith;
  next = λ e. absurd (ground (arith, e));
}

append-durable_example :
    Appended sum32 sum32_fits empty_log first (append sum32 true durable first empty_log)
append-durable_example =
    append-durable sum32 sum32_fits empty_log first empty_log-IsWell empty_log-IsNumbered first-Fits
      (omega arith)

load-append_short_example :
    let stopped = (append sum32 true (short 30) first empty_log).0 in
    Recovered sum32 sum32_fits empty_log (load sum32 (2 ^ 26) (stopped.segs ++ stopped.cur ∷ []))
load-append_short_example =
    load-append_short sum32 sum32_fits (2 ^ 26) empty_log first 30 empty_log-IsWell
      empty_log-IsNumbered (omega arith) (omega arith)

replay-append_hidden_example :
    let failed = append sum32 true (short 2) first empty_log in
    let after = append sum32 true durable first failed.0 in
    (failed.1 ≡ none)
    × (after.1 ≡ some (u64 (u64 (empty_log.seq + 1) + 1)))
    × (replay sum32 after.0 ≡ replay sum32 empty_log)
replay-append_hidden_example =
    replay-append_hidden sum32 sum32_fits empty_log first first 2 empty_log-IsWell refl
      (omega arith) (omega arith)

-- A log with a closed segment of one record, and one more record in the open segment.
abbrev second : Record
second = record first { seq = 2 }

second-Fits : Fits second
second-Fits = record {
  seq = omega arith;
  op = omega arith;
  ino = omega arith;
  indx = omega arith;
  off = omega arith;
  slice_id = omega arith;
  size = omega arith;
  slice_off = omega arith;
  slice_len = omega arith;
}

abbrev rolled_log : Log
rolled_log = record {
  segment_size = 53;
  seq = 2;
  segs = record { start_seq = 1; max_seq = 1; file = frame sum32 first } ∷ [];
  cur = record { start_seq = 2; max_seq = 2; file = frame sum32 second };
  cur_bytes = 53;
}

rolled_log-IsWell : IsWell sum32 rolled_log
unfolding frames max_seq_of
rolled_log-IsWell = record {
  closed = (
    record {
      records = first ∷ [];
      bytes = sym (append-nil (frame sum32 first));
      fits = (first-Fits, tt);
      highest = refl;
    },
    tt,
  );
  current = record {
    records = second ∷ [];
    bytes = sym (append-nil (frame sum32 second));
    fits = (second-Fits, tt);
    highest = refl;
  };
  bound = omega arith;
  names = ((omega arith, tt), (tt, tt));
}

-- The closed segment is committed and its file can be removed.
pending-checkpoint_example :
    Checkpointed sum32 sum32_fits
      (λ name. true)
      1
      rolled_log
      (checkpoint (λ name. true) 1 rolled_log)
pending-checkpoint_example =
    pending-checkpoint sum32 sum32_fits (λ name. true) 1 rolled_log rolled_log-IsWell
