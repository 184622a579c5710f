-- ===== src/Wal/Log/Recovery.antt =====
-- A log after a crash in the middle of an append: `load` of mlfs/internal/wal/wal.go.
use memorylayer_storage.Prelude.{
  ℕ, ◌+◌, ◌^◌, ◌≤◌, ◌<◌, ◌≡◌, refl, ap, sym, ◌∙◌, true, List, [], ◌∷◌, ◌++◌, length, take, ltb, leb,
  if◌then◌else◌, u64, arith, All, Bool-cases, inl, inr,
}
use mathlib.Core.List.{append_assoc}
use memorylayer_storage.Wal.{Record, frame, segment_records, max_seq_of, scan_segment}
use memorylayer_storage.Wal.Scanning.{frames, scan_segment-torn}
use memorylayer_storage.Wal.Log.{
  Segment, Log, roll, append_frame, append, replay_segments, replay, scan_closed, highest,
  load_segments, load_from, load_sorted, load, short,
}
use memorylayer_storage.Wal.Log.Names.{IsAscending, last-IsAscending, sort_segments_lem}
use memorylayer_storage.Wal.Log.Durable.{
  Whole, IsWell, IsNumbered, write_file-closed, numbered, segment_records-whole, replay_split,
  roll_lem,
}

module _ (crc : List ℕ → ℕ) (crc_fits : (p : List ℕ) → crc p < 2 ^ 32) where
  scan_closed-Whole :
      (segs : List Segment) → All (Whole crc) segs → All (Whole crc) (scan_closed crc segs)
  unfolding scan_closed scan_segment
  scan_closed-Whole [] v = tt
  scan_closed-Whole (s ∷ segs) v = (
    record {
      records = v.0.records;
      bytes = v.0.bytes;
      fits = v.0.fits;
      highest = ap max_seq_of (sym (segment_records-whole crc crc_fits s v.0));
    },
    scan_closed-Whole segs v.1,
  )

  scan_closed-IsAscending :
      (segs : List Segment) (s t : Segment)
      → s.start_seq ≡ t.start_seq
      → IsAscending (segs ++ s ∷ [])
      → IsAscending (scan_closed crc segs ++ t ∷ [])
  unfolding scan_closed
  scan_closed-IsAscending [] s t e v = (tt, tt)
  scan_closed-IsAscending (x ∷ segs) s t e v =
      (above segs v.0, scan_closed-IsAscending segs s t e v.1)
    where
      above :
          (xs : List Segment)
          → All (λ u. x.start_seq < u.start_seq) (xs ++ s ∷ [])
          → All (λ u. x.start_seq < u.start_seq) (scan_closed crc xs ++ t ∷ [])
      above [] w = (omega (arith, w.0, e), tt)
      above (y ∷ ys) w = (w.0, above ys w.1)

  replay-scan_closed :
      (segs : List Segment) → replay_segments crc (scan_closed crc segs) ≡ replay_segments crc segs
  unfolding scan_closed replay_segments
  replay-scan_closed [] = refl
  replay-scan_closed (s ∷ segs) =
      ap (λ rs. segment_records crc s.file ++ rs) (replay-scan_closed segs)

  highest_above : (n : ℕ) (segs : List Segment) → n ≤ highest n segs
  unfolding highest
  highest_above n [] = omega arith
  highest_above n (s ∷ segs) = ground (arith, highest_above s.max_seq segs, highest_above n segs)

  highest_last :
      (n : ℕ) (segs : List Segment) (s : Segment) → s.max_seq ≤ highest n (segs ++ s ∷ [])
  unfolding highest
  highest_last n [] s = ground arith
  highest_last n (t ∷ segs) s = highest_last (if ltb n t.max_seq then t.max_seq else n) segs s

  load_from-append :
      (size : ℕ) (closed : List Segment) (s : Segment) (files : List Segment) (last : Segment)
      → load_from crc size closed s (files ++ last ∷ [])
        ≡ load_segments crc size (closed ++ s ∷ files) last
  unfolding load_from
  load_from-append size closed s [] last = refl
  load_from-append size closed s (t ∷ files) last =
      load_from-append size (closed ++ s ∷ []) t files last
      ∙ ap (λ segs. load_segments crc size segs last) (append_assoc closed (s ∷ []) (t ∷ files))

  load-append :
      (size : ℕ) (segs : List Segment) (last : Segment)
      → IsAscending (segs ++ last ∷ [])
      → load crc size (segs ++ last ∷ []) ≡ load_segments crc size segs last
  unfolding load load_sorted load_from
  load-append size [] last v = rw (sort_segments_lem (last ∷ []) v) refl
  load-append size (s ∷ segs) last v =
      rw (sort_segments_lem (s ∷ segs ++ last ∷ []) v) (load_from-append size [] s segs last)

  -- What is loaded from the files of a log that stopped in the middle of a frame.
  pub record Recovered (w after : Log) : Type 0 where
    pub well : IsWell crc after
    pub replayed : replay crc after ≡ replay crc w

  loaded :
      (w : Log) (last : Segment) (size bytes : ℕ) (v : IsWell crc w)
      → w.cur.start_seq ≡ last.start_seq
      → Recovered w (record {
        segment_size = size;
        seq = highest 0 (
            scan_closed crc w.segs
            ++ record last {
              max_seq = max_seq_of v.current.records;
              file = frames crc v.current.records;
            }
              ∷ []);
        segs = scan_closed crc w.segs;
        cur = record last {
          max_seq = max_seq_of v.current.records;
          file = frames crc v.current.records;
        };
        cur_bytes = bytes;
      })
  loaded w last size bytes v e = record {
    well = record {
      closed = scan_closed-Whole w.segs v.closed;
      current = record {
        records = v.current.records;
        bytes = refl;
        fits = v.current.fits;
        highest = refl;
      };
      bound = highest_last 0 (scan_closed crc w.segs) _;
      names = scan_closed-IsAscending w.segs w.cur _ e v.names;
    };
    replayed =
        replay_split crc crc_fits _
        ∙ ap (λ rs. rs ++ segment_records crc (frames crc v.current.records))
            (replay-scan_closed w.segs)
        ∙ ap (λ bs. replay_segments crc w.segs ++ segment_records crc bs) (sym v.current.bytes)
        ∙ sym (replay_split crc crc_fits w);
  }

  load-torn :
      (size : ℕ) (w : Log) (r : Record) (k : ℕ)
      → IsWell crc w
      → k < 53
      → Recovered w (
          load crc size (w.segs ++ record w.cur { file = w.cur.file ++ take k (frame crc r) } ∷ []))
  load-torn size w r k v h =
      let last : Segment = record w.cur { file = w.cur.file ++ take k (frame crc r) } in
      let scanned : scan_segment crc true last.file ≡ record {
        count = length v.current.records;
        max_seq = max_seq_of v.current.records;
        file = frames crc v.current.records;
      } =
        rw v.current.bytes
          (scan_segment-torn crc crc_fits v.current.records r k v.current.fits h) in
      rw (load-append size w.segs last (last-IsAscending w.segs w.cur last refl v.names))
        (unfold load_segments in rw scanned (loaded w last size _ v refl))

  -- The files after a part of a frame is written.
  load_frame-torn :
      (size : ℕ) (w : Log) (rec : Record) (k : ℕ)
      → IsWell crc w
      → k < 53
      → (let stopped = (append_frame crc (short k) rec w).0 in
          Recovered w (load crc size (stopped.segs ++ stopped.cur ∷ [])))
  unfolding append_frame
  load_frame-torn size w rec k v h =
      let r = numbered crc crc_fits w rec in
      rw (write_file-closed crc w (take k (frame crc r)) v) (load-torn size w r k v h)

  -- A well-formed log that is numbered on from its open segment, has sequence numbers left and stops in
  -- the middle of an append, with any part of the frame written but the whole, is well formed after the next
  -- start, from its files in the order they were made, and replays what it replayed before that append.
  pub load-append_short :
      (size : ℕ) (w : Log) (rec : Record) (k : ℕ)
      → IsWell crc w
      → IsNumbered w
      → w.seq + 1 < 2 ^ 64
      → k < 53
      → (let stopped = (append crc true (short k) rec w).0 in
          Recovered w (load crc size (stopped.segs ++ stopped.cur ∷ [])))
  unfolding append
  load-append_short size w rec k v n u h = elim (Bool-cases (leb w.segment_size w.cur_bytes)) [
    | inl full ↦
        let above : w.cur.start_seq < u64 (w.seq + 1) = omega (arith, n.next full, u) in
        let rolled = roll_lem crc crc_fits w (u64 (w.seq + 1)) v above in
        let back = load_frame-torn size (roll (u64 (w.seq + 1)) w) rec k rolled.0 h in
        rw full (record { well = back.well; replayed = back.replayed ∙ rolled.1 })
    | inr some_room ↦ rw some_room (load_frame-torn size w rec k v h)
  ]
