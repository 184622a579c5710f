-- ===== src/Wal/Log.antt =====
-- The log: its segments, `Append` with the roll to a new segment, `Replay`, `Checkpoint` and the
-- recovery of `load`, as in mlfs/internal/wal/wal.go. A segment is named by its first sequence number,
-- and stands in the list with the bytes of its file; segments of one name share the file, so that what is
-- written to one is written to all.
pub mod Names
pub mod Durable
pub mod Recovery
pub mod Checkpoints
pub mod Hidden
use memorylayer_storage.Prelude.{
  ℕ, ◌+◌, Bool, true, false, ◌&&◌, not, Option, none, some, List, [], ◌∷◌, ◌++◌, length, take, ltb,
  leb, ◌==◌, if◌then◌else◌, u64,
}
use memorylayer_storage.Wal.{Record, Scanned, frame, segment_records, scan_segment}

pub record Segment : Type 0 where
  pub start_seq : ℕ
  pub max_seq : ℕ
  pub file : List ℕ

-- `segs` is the list of closed segments and `cur` the segment that is open for appending, the last
-- of `w.segs`.
pub record Log : Type 0 where
  pub segment_size : ℕ
  pub seq : ℕ
  pub segs : List Segment
  pub cur : Segment
  pub cur_bytes : ℕ

-- What the file system does with a frame: all bytes are written and synced, some of them are
-- written, or all are written and the sync fails.
pub data Disk : Type 0 where
  durable : Disk
  short : ℕ → Disk
  unsynced : Disk

-- What the file of a name has, if there is one.
unfoldable pub existing : ℕ → List Segment → List ℕ
existing name [] = []
existing name (s ∷ segs) = if s.start_seq == name then s.file else existing name segs

-- The closed segments after a write to the file of a name.
unfoldable pub write_file : ℕ → List ℕ → List Segment → List Segment
write_file name bytes [] = []
write_file name bytes (s ∷ segs) =
    let rest = write_file name bytes segs in
    (if s.start_seq == name then record s { file = s.file ++ bytes } else s) ∷ rest

-- `rollLocked`, when the file is opened: a file that is there already is appended to.
pub roll : ℕ → Log → Log
roll start_seq w = record w {
  segs = w.segs ++ w.cur ∷ [];
  cur = record {
    start_seq = start_seq;
    max_seq = 0;
    file = existing start_seq (w.segs ++ w.cur ∷ []);
  };
  cur_bytes = 0;
}

abbrev pub write_cur : List ℕ → Log → Log
write_cur bytes w = record w {
  segs = write_file w.cur.start_seq bytes w.segs;
  cur = record w.cur { file = w.cur.file ++ bytes };
}

-- The sequence number and the frame of `Append`, on the open segment. `none` is an error.
pub append_frame : (List ℕ → ℕ) → Disk → Record → Log → Log × Option ℕ
append_frame crc disk rec w =
    let seq = u64 (w.seq + 1) in
    let bytes = frame crc (record rec { seq = seq }) in
    elim disk [
      | durable ↦ (
        record w {
          seq = seq;
          segs = write_file w.cur.start_seq bytes w.segs;
          cur = record w.cur { max_seq = seq; file = w.cur.file ++ bytes };
          cur_bytes = w.cur_bytes + length bytes;
        },
        some seq,
      )
      | short k ↦ (record (write_cur (take k bytes) w) { seq = seq }, none)
      | unsynced ↦ (record (write_cur bytes w) { seq = seq }, none)
    ]

-- `makes` tells whether a new segment can be made, where one is wanted.
pub append : (List ℕ → ℕ) → Bool → Disk → Record → Log → Log × Option ℕ
append crc makes disk rec w =
    if leb w.segment_size w.cur_bytes
    then if makes then append_frame crc disk rec (roll (u64 (w.seq + 1)) w) else (w, none)
    else append_frame crc disk rec w

pub replay_segments : (List ℕ → ℕ) → List Segment → List Record
replay_segments crc [] = []
replay_segments crc (s ∷ segs) = segment_records crc s.file ++ replay_segments crc segs

-- The records that `Replay` hands to its callback, in order, for a callback without errors.
pub replay : (List ℕ → ℕ) → Log → List Record
replay crc w = replay_segments crc (w.segs ++ w.cur ∷ [])

-- A segment whose records are all committed.
abbrev pub is_committed : ℕ → Segment → Bool
is_committed up_to_seq s = not (s.max_seq == 0) && leb s.max_seq up_to_seq

-- The closed segments that `Checkpoint` keeps, when every file can be removed.
pub checkpoint_segments : ℕ → List Segment → List Segment
checkpoint_segments up_to_seq [] = []
checkpoint_segments up_to_seq (s ∷ segs) =
    let kept = checkpoint_segments up_to_seq segs in
    if is_committed up_to_seq s then kept else s ∷ kept

-- The closed segments whose files are left; `removes` tells of which names the files can be removed, and
-- the first that cannot ends the loop.
unfoldable pub checkpoint_left : (ℕ → Bool) → ℕ → List Segment → List Segment
checkpoint_left removes up_to_seq [] = []
checkpoint_left removes up_to_seq (s ∷ segs) =
    let rest = checkpoint_left removes up_to_seq segs in
    if is_committed up_to_seq s then if removes s.start_seq then rest else s ∷ segs else s ∷ rest

unfoldable pub checkpoint_ends : (ℕ → Bool) → ℕ → List Segment → Bool
checkpoint_ends removes up_to_seq [] = true
checkpoint_ends removes up_to_seq (s ∷ segs) =
    let rest = checkpoint_ends removes up_to_seq segs in
    if is_committed up_to_seq s then removes s.start_seq && rest else rest

-- `Checkpoint`; the Boolean is false for an error, which leaves the list as it was, with the segments
-- whose files are gone.
pub checkpoint : (ℕ → Bool) → ℕ → Log → Log × Bool
checkpoint removes up_to_seq w =
    if checkpoint_ends removes up_to_seq w.segs
    then (record w { segs = checkpoint_segments up_to_seq w.segs }, true)
    else (w, false)

-- The files in the directory after a checkpoint.
abbrev pub files_left : (ℕ → Bool) → ℕ → Log → List Segment
files_left removes up_to_seq w = checkpoint_left removes up_to_seq w.segs ++ w.cur ∷ []

pub scan_closed : (List ℕ → ℕ) → List Segment → List Segment
scan_closed crc [] = []
scan_closed crc (s ∷ segs) =
    record s { max_seq = (scan_segment crc false s.file).max_seq } ∷ scan_closed crc segs

pub highest : ℕ → List Segment → ℕ
highest seq [] = seq
highest seq (s ∷ segs) = highest (if ltb seq s.max_seq then s.max_seq else seq) segs

-- `load`, past the listing of the directory.
pub load_segments : (List ℕ → ℕ) → ℕ → List Segment → Segment → Log
load_segments crc segment_size closed last =
    let scanned = scan_segment crc true last.file in
    let segs = scan_closed crc closed in
    let cur = record last { max_seq = scanned.max_seq; file = scanned.file } in
    record {
      segment_size = segment_size;
      seq = highest 0 (segs ++ cur ∷ []);
      segs = segs;
      cur = cur;
      cur_bytes = length scanned.file;
    }

pub load_from : (List ℕ → ℕ) → ℕ → List Segment → Segment → List Segment → Log
load_from crc segment_size closed s [] = load_segments crc segment_size closed s
load_from crc segment_size closed s (next ∷ files) =
    load_from crc segment_size (closed ++ s ∷ []) next files

-- sort.Strings, on names with their numbers padded with zeros
pub insert_segment : Segment → List Segment → List Segment
insert_segment s [] = s ∷ []
insert_segment s (t ∷ segs) =
    let rest = insert_segment s segs in
    if leb s.start_seq t.start_seq then s ∷ t ∷ segs else t ∷ rest

unfoldable pub sort_segments : List Segment → List Segment
sort_segments [] = []
sort_segments (s ∷ segs) = insert_segment s (sort_segments segs)

-- The files by their names; an empty directory gets the segment 1.
unfoldable pub load_sorted : (List ℕ → ℕ) → ℕ → List Segment → Log
load_sorted crc segment_size [] = record {
  segment_size = segment_size;
  seq = 0;
  segs = [];
  cur = record { start_seq = 1; max_seq = 0; file = [] };
  cur_bytes = 0;
}
load_sorted crc segment_size (s ∷ files) = load_from crc segment_size [] s files

-- The files of the directory, in any order.
unfoldable pub load : (List ℕ → ℕ) → ℕ → List Segment → Log
load crc segment_size files = load_sorted crc segment_size (sort_segments files)
