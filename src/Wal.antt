-- ===== src/Wal.antt =====
-- The write-ahead log of mlfs/internal/wal/wal.go: records, frames, the scan of a segment and the log
-- itself. Bytes are numbers below 256. `crc` stands for crc32.ChecksumIEEE.
pub mod Codec
pub mod Scanning
pub mod Log
mod Examples
use memorylayer_storage.Prelude.{
  ℕ, zero, suc, ◌+◌, ◌*◌, ◌/◌, ◌%◌, ◌^◌, Bool, true, false, ◌||◌, ◌&&◌, not, Option, none, some,
  List, [], ◌∷◌, ◌++◌, length, take, drop, ltb, leb, ◌==◌, if◌then◌else◌,
}

-- binary.BigEndian.PutUint32 and PutUint64
abbrev pub put_uint32 : ℕ → List ℕ
put_uint32 v = v / 2 ^ 24 % 256 ∷ v / 2 ^ 16 % 256 ∷ v / 2 ^ 8 % 256 ∷ v % 256 ∷ []

abbrev pub put_uint64 : ℕ → List ℕ
put_uint64 v = put_uint32 (v / 2 ^ 32) ++ put_uint32 (v % 2 ^ 32)

-- The byte at the head; the callers have checked the length.
abbrev pub byte_at : List ℕ → ℕ
byte_at [] = 0
byte_at (b ∷ bs) = b

-- binary.BigEndian.Uint32 and Uint64
abbrev pub uint32 : List ℕ → ℕ
uint32 bs =
    byte_at bs * 2 ^ 24
    + byte_at (drop 1 bs) * 2 ^ 16
    + byte_at (drop 2 bs) * 2 ^ 8
    + byte_at (drop 3 bs)

abbrev pub uint64 : List ℕ → ℕ
uint64 bs = uint32 bs * 2 ^ 32 + uint32 (drop 4 bs)

abbrev pub op_write : ℕ
op_write = 1

abbrev pub op_truncate : ℕ
op_truncate = 2

pub record Record : Type 0 where
  pub seq : ℕ
  pub op : ℕ
  pub ino : ℕ
  pub indx : ℕ
  pub off : ℕ
  pub slice_id : ℕ
  pub size : ℕ
  pub slice_off : ℕ
  pub slice_len : ℕ

abbrev pub record_payload_len : ℕ
record_payload_len = 45

pub marshal : Record → List ℕ
marshal r =
    put_uint64 r.seq
    ++ (r.op % 256 ∷ [])
    ++ put_uint64 r.ino
    ++ put_uint32 r.indx
    ++ put_uint32 r.off
    ++ put_uint64 r.slice_id
    ++ put_uint32 r.size
    ++ put_uint32 r.slice_off
    ++ put_uint32 r.slice_len

pub unmarshal_record : List ℕ → Option Record
unmarshal_record b =
    if not (length b == record_payload_len)
    then none
    else some (record {
      seq = uint64 b;
      op = byte_at (drop 8 b);
      ino = uint64 (drop 9 b);
      indx = uint32 (drop 17 b);
      off = uint32 (drop 21 b);
      slice_id = uint64 (drop 25 b);
      size = uint32 (drop 33 b);
      slice_off = uint32 (drop 37 b);
      slice_len = uint32 (drop 41 b);
    })

-- The frame that `Append` writes: the payload's length, its checksum, the payload.
pub frame : (List ℕ → ℕ) → Record → List ℕ
frame crc r =
    let payload = marshal r in put_uint32 (length payload) ++ put_uint32 (crc payload) ++ payload

-- One round of the loop of `scanSegment` and of `replaySegment`, on what is left of the file: `none`
-- where the loop breaks, and otherwise the record and the rest.
pub read_frame : (List ℕ → ℕ) → List ℕ → Option (Record × List ℕ)
read_frame crc bs =
    let body = drop 8 bs in
    if ltb (length bs) 8
    then none
    else if not (uint32 bs == record_payload_len)
    then none
    else if ltb (length body) record_payload_len
    then none
    else if not (crc (take record_payload_len body) == uint32 (drop 4 bs))
    then none
    else elim (unmarshal_record (take record_payload_len body)) [
      | none ↦ none
      | some rec ↦ some (rec, drop record_payload_len body)
    ]

-- The loop, with the records that it reads. A round takes 53 bytes, so the number of bytes is
-- fuel enough.
pub read_frames : (List ℕ → ℕ) → ℕ → List ℕ → List Record
read_frames crc zero bs = []
read_frames crc (suc fuel) bs = elim (read_frame crc bs) [
  | none ↦ []
  | some p ↦ let rest = read_frames crc fuel p.1 in p.0 ∷ rest
]

-- The valid records of a segment's file.
pub segment_records : (List ℕ → ℕ) → List ℕ → List Record
segment_records crc bs = read_frames crc (length bs) bs

pub max_seq_of : List Record → ℕ
max_seq_of [] = 0
max_seq_of (r ∷ rs) = let m = max_seq_of rs in if ltb m r.seq then r.seq else m

pub record Scanned : Type 0 where
  pub count : ℕ
  pub max_seq : ℕ
  pub file : List ℕ

-- `scanSegment`: the number of records, their highest sequence number, and the file, cut behind the
-- last valid record (each takes 8 + 45 bytes) if it is the last segment.
pub scan_segment : (List ℕ → ℕ) → Bool → List ℕ → Scanned
scan_segment crc trunc_torn bs =
    let rs = segment_records crc bs in
    record {
      count = length rs;
      max_seq = max_seq_of rs;
      file = if trunc_torn then take (length rs * 53) bs else bs;
    }
