-- ===== src/Wal/Log/Durable.antt =====
-- Well-formed logs, and what `Append` of mlfs/internal/wal/wal.go does to one.
use memorylayer_storage.Prelude.{
  ℕ, ◌+◌, ◌^◌, ◌≤◌, ◌<◌, ◌≡◌, refl, ap, sym, ◌∙◌, true, Option, some, List, [], ◌∷◌, ◌++◌, leb, u64,
  arith, All, All-append, Bool-cases, inl, inr,
}
use mathlib.Core.List.{append_assoc, append-nil}
use memorylayer_storage.Wal.{Record, frame, read_frames, segment_records, max_seq_of}
use memorylayer_storage.Wal.Codec.{Fits, read_frame-short}
use memorylayer_storage.Wal.Scanning.{frames, frames-append, segment_records-frames}
use memorylayer_storage.Wal.Log.Names.{
  IsAscending, below_last, write_file-other, existing-above, all_below, append-IsAscending,
  last-IsAscending,
}
use memorylayer_storage.Wal.Log.{
  Segment, Log, durable, write_file, roll, append_frame, append, replay_segments, replay,
}

-- The file of a segment is the frames of records in the range of their types, and `maxSeq` is the
-- highest sequence number of them.
pub record Whole (crc : List ℕ → ℕ) (s : Segment) : Type 0 where
  pub records : List Record
  pub bytes : s.file ≡ frames crc records
  pub fits : All Fits records
  pub highest : max_seq_of records ≡ s.max_seq

pub record IsWell (crc : List ℕ → ℕ) (w : Log) : Type 0 where
  pub closed : All (Whole crc) w.segs
  pub current : Whole crc w.cur
  pub bound : w.cur.max_seq ≤ w.seq
  pub names : IsAscending (w.segs ++ w.cur ∷ [])

-- The next roll gets a name above that of the open segment.
pub record IsNumbered (w : Log) : Type 0 where
  pub size : 0 < w.segment_size
  pub opened : w.cur.start_seq ≤ w.seq + 1
  pub next : leb w.segment_size w.cur_bytes ≡ true → w.cur.start_seq ≤ w.seq

-- A write to the open segment of a log with ascending names is a write to no other.
pub write_file-closed :
    (crc : List ℕ → ℕ) (w : Log) (bytes : List ℕ)
    → IsWell crc w
    → write_file w.cur.start_seq bytes w.segs ≡ w.segs
write_file-closed crc w bytes v =
    write_file-other w.cur.start_seq bytes w.segs (below_last w.segs w.cur v.names)

max_seq_of-append :
    (rs : List Record) (r : Record) → max_seq_of rs ≤ r.seq → max_seq_of (rs ++ r ∷ []) ≡ r.seq
unfolding max_seq_of
max_seq_of-append [] r h = ground arith
max_seq_of-append (q ∷ rs) r h = ground (arith, h, max_seq_of-append rs r)

pub replay_segments-append :
    (crc : List ℕ → ℕ) (xs ys : List Segment)
    → replay_segments crc (xs ++ ys) ≡ replay_segments crc xs ++ replay_segments crc ys
unfolding replay_segments
replay_segments-append crc [] ys = refl
replay_segments-append crc (s ∷ xs) ys = rw (replay_segments-append crc xs ys) (
    sym
      (append_assoc (segment_records crc s.file) (replay_segments crc xs) (replay_segments crc ys)))

module _ (crc : List ℕ → ℕ) (crc_fits : (p : List ℕ) → crc p < 2 ^ 32) where
  pub segment_records-whole :
      (s : Segment) (v : Whole crc s) → segment_records crc s.file ≡ v.records
  segment_records-whole s v =
      rw (v.bytes, sym (append-nil (frames crc v.records)))
        (segment_records-frames crc crc_fits v.records [] v.fits
          (read_frame-short crc [] (omega arith)))

  pub replay_split :
      (w : Log) → replay crc w ≡ replay_segments crc w.segs ++ segment_records crc w.cur.file
  unfolding replay replay_segments
  replay_split w =
      replay_segments-append crc w.segs (w.cur ∷ [])
      ∙ ap (λ rs. replay_segments crc w.segs ++ rs) (append-nil (segment_records crc w.cur.file))

  -- The record as `Append` numbers it.
  abbrev pub numbered : Log → Record → Record
  numbered w rec = record rec { seq = u64 (w.seq + 1) }

  numbered-Fits : (w : Log) (rec : Record) → Fits rec → Fits (numbered w rec)
  numbered-Fits w rec v = record {
    seq = omega arith;
    op = v.op;
    ino = v.ino;
    indx = v.indx;
    off = v.off;
    slice_id = v.slice_id;
    size = v.size;
    slice_off = v.slice_off;
    slice_len = v.slice_len;
  }

  extended :
      (w : Log) (rec : Record) (v : Whole crc w.cur)
      → Fits rec
      → w.cur.max_seq ≤ u64 (w.seq + 1)
      → Whole crc (record w.cur {
        max_seq = u64 (w.seq + 1);
        file = w.cur.file ++ frame crc (numbered w rec);
      })
  unfolding frames
  extended w rec v f h =
      let r = numbered w rec in
      record {
        records = v.records ++ r ∷ [];
        bytes =
            ap (λ bs. bs ++ frame crc r) v.bytes
            ∙ ap (λ bs. frames crc v.records ++ bs) (sym (append-nil (frame crc r)))
            ∙ sym (frames-append crc v.records (r ∷ []));
        fits = All-append Fits v.records (r ∷ []) v.fits (numbered-Fits w rec f, tt);
        highest = max_seq_of-append v.records r (omega (arith, v.highest, h));
      }

  -- What an append that returns a number does.
  pub record Appended (w : Log) (rec : Record) (after : Log × Option ℕ) : Type 0 where
    pub result : after.1 ≡ some (u64 (w.seq + 1))
    pub well : IsWell crc after.0
    pub numbered_on : IsNumbered after.0
    pub replayed : replay crc after.0 ≡ replay crc w ++ numbered w rec ∷ []

  append_frame-durable :
      (w : Log) (rec : Record)
      → IsWell crc w
      → Fits rec
      → w.seq + 1 < 2 ^ 64
      → 0 < w.segment_size
      → w.cur.start_seq ≤ w.seq + 1
      → Appended w rec (append_frame crc durable rec w)
  unfolding append_frame extended
  append_frame-durable w rec v f h size opened =
      let whole = extended w rec v.current f (omega (arith, v.bound, h)) in
      rw (write_file-closed crc w (frame crc (numbered w rec)) v) (record {
        result = refl;
        well = record {
          closed = v.closed;
          current = whole;
          bound = omega arith;
          names = last-IsAscending w.segs w.cur _ refl v.names;
        };
        numbered_on = record {
          size = size;
          opened = omega (arith, opened, h);
          next = λ e. omega (arith, opened, h);
        };
        replayed =
            replay_split _
            ∙ ap (λ rs. replay_segments crc w.segs ++ rs) (segment_records-whole _ whole)
            ∙ sym
                (append_assoc (replay_segments crc w.segs) v.current.records (numbered w rec ∷ []))
            ∙ ap (λ rs. rs ++ numbered w rec ∷ [])
                (ap (λ rs. replay_segments crc w.segs ++ rs)
                    (sym (segment_records-whole w.cur v.current))
                  ∙ sym (replay_split w));
      })

  -- A roll to a name above all opens an empty file.
  pub roll_lem :
      (w : Log) (start_seq : ℕ)
      → IsWell crc w
      → w.cur.start_seq < start_seq
      → IsWell crc (roll start_seq w) × (replay crc (roll start_seq w) ≡ replay crc w)
  unfolding roll replay replay_segments frames max_seq_of segment_records read_frames
  roll_lem w start_seq v h =
      let old = below_last w.segs w.cur v.names in
      let below : All (λ (t : Segment). t.start_seq < start_seq) (w.segs ++ w.cur ∷ []) =
        All-append (λ (t : Segment). t.start_seq < start_seq) w.segs (w.cur ∷ [])
          (all_below start_seq w.cur.start_seq w.segs h old) (h, tt) in
      rw (roll, existing-above start_seq (w.segs ++ w.cur ∷ []) below)
        (
          record {
            closed = All-append (Whole crc) w.segs (w.cur ∷ []) v.closed (v.current, tt);
            current = record { records = []; bytes = refl; fits = tt; highest = refl };
            bound = omega arith;
            names = append-IsAscending (w.segs ++ w.cur ∷ []) _ v.names below;
          },
          replay_segments-append crc (w.segs ++ w.cur ∷ [])
                (record { start_seq = start_seq; max_seq = 0; file = [] } ∷ [])
              ∙ append-nil (replay_segments crc (w.segs ++ w.cur ∷ [])),
        )

  -- An append that the file system carries out, on a log that is well formed, has sequence numbers left
  -- and is numbered on from its open segment, returns the next number, keeps the log well formed and
  -- numbered on, and adds the record with that number, and no other, at the end of what is replayed; it
  -- may roll to a new segment first.
  pub append-durable :
      (w : Log) (rec : Record)
      → IsWell crc w
      → IsNumbered w
      → Fits rec
      → w.seq + 1 < 2 ^ 64
      → Appended w rec (append crc true durable rec w)
  unfolding append roll
  append-durable w rec v n f h = elim (Bool-cases (leb w.segment_size w.cur_bytes)) [
    | inl full ↦
        let above : w.cur.start_seq < u64 (w.seq + 1) = omega (arith, n.next full, h) in
        let rolled = roll_lem w (u64 (w.seq + 1)) v above in
        let done =
          append_frame-durable (roll (u64 (w.seq + 1)) w) rec rolled.0 f h n.size
            (omega (arith, h)) in
        rw full (record {
          result = done.result;
          well = done.well;
          numbered_on = done.numbered_on;
          replayed = done.replayed ∙ ap (λ rs. rs ++ numbered w rec ∷ []) rolled.1;
        })
    | inr some_room ↦ rw some_room (append_frame-durable w rec v f h n.size n.opened)
  ]
