-- ===== src/Wal/Scanning.antt =====
-- What the scan of a segment finds: the records whose frames are whole.
use memorylayer_storage.Prelude.{
  take-append, ℕ, zero, suc, ◌*◌, ◌^◌, ◌≤◌, ◌<◌, ◌≡◌, refl, ap, sym, true, none, List, [], ◌∷◌,
  ◌++◌, length, take, length-append, length-take, arith, All,
}
use mathlib.Core.List.{append_assoc}
use memorylayer_storage.Wal.{
  Record, marshal, frame, read_frame, read_frames, segment_records, max_seq_of, scan_segment,
}
use memorylayer_storage.Wal.Codec.{Fits, read_frame-frame, read_frame-short, length-frame}

-- The bytes of a list of records.
unfoldable pub frames : (List ℕ → ℕ) → List Record → List ℕ
frames crc [] = []
frames crc (r ∷ rs) = frame crc r ++ frames crc rs

pub frames-append :
    (crc : List ℕ → ℕ) (xs ys : List Record)
    → frames crc (xs ++ ys) ≡ frames crc xs ++ frames crc ys
unfolding frames
frames-append crc [] ys = refl
frames-append crc (r ∷ xs) ys =
    rw (frames-append crc xs ys) (sym (append_assoc (frame crc r) (frames crc xs) (frames crc ys)))

length-frames : (crc : List ℕ → ℕ) (rs : List Record) → length (frames crc rs) ≡ length rs * 53
unfolding frames
length-frames crc [] = refl
length-frames crc (r ∷ rs) =
    omega
      (arith, length-append (frame crc r) (frames crc rs), length-frame crc r, length-frames crc rs)

module _ (crc : List ℕ → ℕ) (crc_fits : (p : List ℕ) → crc p < 2 ^ 32) where
  read_frames-frames :
      (fuel : ℕ) (rs : List Record) (tail : List ℕ)
      → All Fits rs
      → length (frames crc rs ++ tail) ≤ fuel
      → read_frame crc tail ≡ none
      → read_frames crc fuel (frames crc rs ++ tail) ≡ rs
  unfolding read_frames frames
  read_frames-frames zero [] tail v h e = refl
  read_frames-frames (suc fuel) [] tail v h e = rw (read_frames, e) refl
  read_frames-frames zero (r ∷ rs) tail v h e = absurd (
      omega (
        arith,
        length-append (frame crc r ++ frames crc rs) tail,
        length-append (frame crc r) (frames crc rs),
        length-frame crc r,
        h,
      ))
  read_frames-frames (suc fuel) (r ∷ rs) tail v h e =
      rw
        (
          append_assoc (frame crc r) (frames crc rs) tail,
          read_frames,
          read_frame-frame crc r (frames crc rs ++ tail) crc_fits v.0,
        )
        (ap (◌∷◌ r) (
          read_frames-frames fuel rs tail v.1
            (omega (
              arith,
              h,
              length-append (frame crc r ++ frames crc rs) tail,
              length-append (frame crc r) (frames crc rs),
              length-append (frames crc rs) tail,
              length-frame crc r,
            ))
            e))

  -- A file of whole frames, with bytes behind them that are no frame, holds the records of the
  -- frames, whatever follows.
  pub segment_records-frames :
      (rs : List Record) (tail : List ℕ)
      → All Fits rs
      → read_frame crc tail ≡ none
      → segment_records crc (frames crc rs ++ tail) ≡ rs
  unfolding segment_records
  segment_records-frames rs tail v e =
      read_frames-frames (length (frames crc rs ++ tail)) rs tail v (omega arith) e

  -- A crash in the middle of an append, with any number of bytes of the new frame on disk, loses
  -- nothing else: the scan of the last segment counts the earlier records, finds their highest
  -- sequence number, and leaves a file of exactly their frames.
  pub scan_segment-torn :
      (rs : List Record) (r : Record) (k : ℕ)
      → All Fits rs
      → k < 53
      → scan_segment crc true (frames crc rs ++ take k (frame crc r))
        ≡ record { count = length rs; max_seq = max_seq_of rs; file = frames crc rs }
  unfolding scan_segment
  scan_segment-torn rs r k v h =
      let torn : read_frame crc (take k (frame crc r)) ≡ none =
        read_frame-short crc (take k (frame crc r))
          (omega (arith, length-take k (frame crc r), length-frame crc r, h)) in
      rw
        (
          segment_records-frames rs (take k (frame crc r)) v torn,
          take-append (length rs * 53) (frames crc rs) (take k (frame crc r))
              (length-frames crc rs),
        )
        refl

  zero_header : (more : List ℕ) → read_frame crc (0 ∷ 0 ∷ 0 ∷ 0 ∷ more) ≡ none
  unfolding read_frame
  zero_header more = ground arith

  overlapped :
      (r q : Record) (bs : List ℕ) (k : ℕ)
      → 0 < k
      → k < 4
      → read_frame crc (take k (frame crc r) ++ (frame crc q ++ bs)) ≡ none
  unfolding frame marshal
  overlapped r q bs zero l h = absurd (omega (arith, l))
  overlapped r q bs (suc zero) l h = zero_header _
  overlapped r q bs (suc (suc zero)) l h = zero_header _
  overlapped r q bs (suc (suc (suc zero))) l h = zero_header _
  overlapped r q bs (suc (suc (suc (suc k)))) l h = absurd (omega (arith, h))

  -- An append that fails after one, two or three bytes hides every record that a later append adds
  -- to the same segment: no scan finds them, although their appends succeeded.
  pub segment_records-hidden :
      (rs : List Record) (r q : Record) (bs : List ℕ) (k : ℕ)
      → All Fits rs
      → 0 < k
      → k < 4
      → segment_records crc (frames crc rs ++ (take k (frame crc r) ++ (frame crc q ++ bs))) ≡ rs
  segment_records-hidden rs r q bs k v l h =
      segment_records-frames rs (take k (frame crc r) ++ (frame crc q ++ bs)) v
        (overlapped r q bs k l h)
