-- ===== src/Wal/Log/Hidden.antt =====
-- An append that fails in the header of its frame, and the appends after it: `Append` and `Replay` of
-- mlfs/internal/wal/wal.go.
use memorylayer_storage.Prelude.{
  ℕ, ◌+◌, ◌^◌, ◌<◌, ◌≡◌, refl, ap, sym, ◌∙◌, true, false, none, some, List, [], ◌++◌, take, leb,
  u64,
}
use mathlib.Core.List.{append_assoc, append-nil}
use memorylayer_storage.Wal.{Record, frame, segment_records}
use memorylayer_storage.Wal.Scanning.{frames, segment_records-hidden}
use memorylayer_storage.Wal.Log.{Log, durable, short, append_frame, append, replay_segments, replay}
use memorylayer_storage.Wal.Log.Durable.{
  IsWell, segment_records-whole, replay_split, write_file-closed, numbered,
}

module _ (crc : List ℕ → ℕ) (crc_fits : (p : List ℕ) → crc p < 2 ^ 32) where
  -- The open segment with a part of a frame and a whole frame behind it.
  replay-torn :
      (w : Log) (seq max_seq cur_bytes : ℕ) (r q : Record) (k : ℕ)
      → IsWell crc w
      → 0 < k
      → k < 4
      → replay crc (record w {
        seq = seq;
        cur = record w.cur {
          max_seq = max_seq;
          file = (w.cur.file ++ take k (frame crc r)) ++ frame crc q;
        };
        cur_bytes = cur_bytes;
      })
        ≡ replay crc w
  replay-torn w seq max_seq cur_bytes r q k v l h =
      let rs = v.current.records in
      let hidden = segment_records-hidden crc crc_fits rs r q [] k v.current.fits l h in
      let shape : (w.cur.file ++ take k (frame crc r)) ++ frame crc q
          ≡ frames crc rs ++ (take k (frame crc r) ++ (frame crc q ++ [])) =
        ap (λ bs. (bs ++ take k (frame crc r)) ++ frame crc q) v.current.bytes
        ∙ append_assoc (frames crc rs) (take k (frame crc r)) (frame crc q)
        ∙ ap (λ bs. frames crc rs ++ (take k (frame crc r) ++ bs))
            (sym (append-nil (frame crc q))) in
      replay_split crc crc_fits _
      ∙ ap (λ rs. replay_segments crc w.segs ++ rs)
          (ap (segment_records crc) shape
            ∙ hidden
            ∙ sym (segment_records-whole crc crc_fits w.cur v.current))
      ∙ sym (replay_split crc crc_fits w)

  -- In a well-formed log whose open segment is not full, an append that fails with one, two or three bytes
  -- of its frame written is followed by an append that is carried out in full and returns its number, but
  -- whose record is not replayed: the log replays what it replayed before the two.
  pub replay-append_hidden :
      (w : Log) (rec later : Record) (k : ℕ)
      → IsWell crc w
      → leb w.segment_size w.cur_bytes ≡ false
      → 0 < k
      → k < 4
      → (let failed = append crc true (short k) rec w in
          let after = append crc true durable later failed.0 in
          (failed.1 ≡ none)
          × (after.1 ≡ some (u64 (u64 (w.seq + 1) + 1)))
          × (replay crc after.0 ≡ replay crc w))
  unfolding append append_frame
  replay-append_hidden w rec later k v e l h =
      let r = numbered crc crc_fits w rec in
      let q = record later { seq = u64 (u64 (w.seq + 1) + 1) } in
      rw
        (
          e,
          append_frame,
          write_file-closed crc w (take k (frame crc r)) v,
          e,
          write_file-closed crc w (frame crc q) v,
        )
        (refl, refl, replay-torn w _ _ _ r q k v l h)
