-- ===== src/Wal/Log/Checkpoints.antt =====
-- What `Checkpoint` of mlfs/internal/wal/wal.go keeps.
use memorylayer_storage.Prelude.{
  ℕ, ◌^◌, ◌≤◌, ◌<◌, ◌≡◌, ◌⊎◌, refl, ap, sym, ◌∙◌, Bool, true, ◌&&◌, not, List, [], ◌∷◌, ◌++◌, ltb,
  leb, ◌==◌, if◌then◌else◌, arith, All, All-append, keep, Bool-cases, inl, inr,
}
use memorylayer_storage.Wal.{Record, segment_records, max_seq_of}
use memorylayer_storage.Wal.Log.{
  Segment, Log, replay_segments, replay, checkpoint_segments, checkpoint_left, checkpoint_ends,
  checkpoint, files_left,
}
use memorylayer_storage.Wal.Log.Names.{IsAscending}
use memorylayer_storage.Wal.Log.Durable.{
  Whole, IsWell, replay_segments-append, segment_records-whole,
}

All_split : (P : Segment → Type 0) (xs ys : List Segment) → All P (xs ++ ys) → All P xs × All P ys
All_split P [] ys v = (tt, v)
All_split P (x ∷ xs) ys v = let rest = All_split P xs ys v.1 in ((v.0, rest.0), rest.1)

module _ (crc : List ℕ → ℕ) (crc_fits : (p : List ℕ) → crc p < 2 ^ 32) where
  -- The records that are not committed yet.
  abbrev pending : ℕ → List Record → List Record
  pending up_to_seq rs = keep (λ r. ltb up_to_seq r.seq) rs

  pending-append :
      (n : ℕ) (xs ys : List Record) → pending n (xs ++ ys) ≡ pending n xs ++ pending n ys
  pending-append n [] ys = refl
  pending-append n (r ∷ xs) ys = ground (arith, pending-append n xs ys)

  pending-committed : (n : ℕ) (rs : List Record) → max_seq_of rs ≤ n → pending n rs ≡ []
  unfolding max_seq_of
  pending-committed n [] h = refl
  pending-committed n (r ∷ rs) h = ground (arith, h, pending-committed n rs)

  -- The files that are left hold all that is pending, whichever of them can be removed.
  pending-checkpoint_left :
      (removes : ℕ → Bool) (n : ℕ) (segs : List Segment)
      → All (Whole crc) segs
      → pending n (replay_segments crc (checkpoint_left removes n segs))
        ≡ pending n (replay_segments crc segs)
  unfolding checkpoint_left replay_segments
  pending-checkpoint_left removes n [] v = refl
  pending-checkpoint_left removes n (s ∷ segs) v =
      let on = pending-checkpoint_left removes n segs v.1 in
      let split = pending-append n (segment_records crc s.file) (replay_segments crc segs) in
      elim (Bool-cases (not (s.max_seq == 0) && leb s.max_seq n)) [
        | inl committed ↦ elim (Bool-cases (removes s.start_seq)) [
          | inl removed ↦
              let gone : pending n (segment_records crc s.file) ≡ [] =
                rw (segment_records-whole crc crc_fits s v.0)
                  (pending-committed n v.0.records (ground (arith, committed, v.0.highest))) in
              rw (committed, removed)
                (on ∙ sym (split ∙ ap (λ rs. rs ++ pending n (replay_segments crc segs)) gone))
          | inr stays ↦ rw (committed, stays) refl
        ]
        | inr kept ↦ rw kept (
            pending-append n (segment_records crc s.file)
              (replay_segments crc (checkpoint_left removes n segs))
            ∙ ap (λ rs. pending n (segment_records crc s.file) ++ rs) on
            ∙ sym split)
      ]

  -- Without an error all committed segments are gone.
  checkpoint_left-ends :
      (removes : ℕ → Bool) (n : ℕ) (segs : List Segment)
      → checkpoint_ends removes n segs ≡ true
      → checkpoint_segments n segs ≡ checkpoint_left removes n segs
  unfolding checkpoint_left checkpoint_ends checkpoint_segments
  checkpoint_left-ends removes n [] e = refl
  checkpoint_left-ends removes n (s ∷ segs) e =
      elim (Bool-cases (not (s.max_seq == 0) && leb s.max_seq n)) [
        | inl committed ↦
            let both : (removes s.start_seq && checkpoint_ends removes n segs) ≡ true =
              rw committed at e in
            let removed : removes s.start_seq ≡ true = ground (arith, both) in
            let on : checkpoint_ends removes n segs ≡ true = ground (arith, both) in
            rw (committed, removed) (checkpoint_left-ends removes n segs on)
        | inr kept ↦
            let on : checkpoint_ends removes n segs ≡ true = rw kept at e in
            rw kept (ap (◌∷◌ s) (checkpoint_left-ends removes n segs on))
      ]

  checkpoint_segments-All :
      (P : Segment → Type 0) (n : ℕ) (segs : List Segment)
      → All P segs
      → All P (checkpoint_segments n segs)
  unfolding checkpoint_segments
  checkpoint_segments-All P n [] v = tt
  checkpoint_segments-All P n (s ∷ segs) v =
      elim (Bool-cases (not (s.max_seq == 0) && leb s.max_seq n)) [
        | inl committed ↦ rw committed (checkpoint_segments-All P n segs v.1)
        | inr kept ↦ rw kept (v.0, checkpoint_segments-All P n segs v.1)
      ]

  checkpoint_segments-uncommitted :
      (n : ℕ) (segs : List Segment)
      → All (λ s. (s.max_seq ≡ 0) ⊎ (n < s.max_seq)) (checkpoint_segments n segs)
  unfolding checkpoint_segments
  checkpoint_segments-uncommitted n [] = tt
  checkpoint_segments-uncommitted n (s ∷ segs) =
      elim (Bool-cases (not (s.max_seq == 0) && leb s.max_seq n)) [
        | inl committed ↦ rw committed (checkpoint_segments-uncommitted n segs)
        | inr kept ↦ rw kept (ground (arith, kept), checkpoint_segments-uncommitted n segs)
      ]

  checkpoint_segments-IsAscending :
      (n : ℕ) (segs : List Segment) (last : Segment)
      → IsAscending (segs ++ last ∷ [])
      → IsAscending (checkpoint_segments n segs ++ last ∷ [])
  unfolding checkpoint_segments
  checkpoint_segments-IsAscending n [] last v = v
  checkpoint_segments-IsAscending n (s ∷ segs) last v =
      let on = checkpoint_segments-IsAscending n segs last v.1 in
      let ends = All_split (λ (t : Segment). s.start_seq < t.start_seq) segs (last ∷ []) v.0 in
      let above =
        All-append (λ (t : Segment). s.start_seq < t.start_seq) (checkpoint_segments n segs)
          (last ∷ []) (checkpoint_segments-All (λ t. s.start_seq < t.start_seq) n segs ends.0)
          ends.1 in
      elim (Bool-cases (not (s.max_seq == 0) && leb s.max_seq n)) [
        | inl committed ↦ rw committed on
        | inr kept ↦ rw kept (above, on)
      ]

  -- What a checkpoint does to a log, `after`, and to the files.
  pub record Checkpointed (removes : ℕ → Bool) (n : ℕ) (w : Log) (after : Log × Bool) : Type 0 where
    pub well : IsWell crc after.0
    pub files_hold :
        keep (λ (r : Record). ltb n r.seq) (replay_segments crc (files_left removes n w))
        ≡ keep (λ (r : Record). ltb n r.seq) (replay crc w)
    pub listed :
        after.0.segs ++ after.0.cur ∷ []
        ≡ (if after.1 then files_left removes n w else w.segs ++ w.cur ∷ [])
    pub dropped : after.1 ≡ true → All (λ s. (s.max_seq ≡ 0) ⊎ (n < s.max_seq)) after.0.segs

  -- A checkpoint of a well-formed log, whichever files can be removed, leaves files that hold every record
  -- with a number above the given one, in order, and a log of well-formed segments. Without an error the
  -- segments it lists are the files that are left, and each closed one has no number or one above the given
  -- one; with an error it lists the segments that it listed before.
  pub pending-checkpoint :
      (removes : ℕ → Bool) (n : ℕ) (w : Log)
      → IsWell crc w
      → Checkpointed removes n w (checkpoint removes n w)
  unfolding checkpoint replay
  pending-checkpoint removes n w v =
      let left = pending-checkpoint_left removes n w.segs v.closed in
      let files_hold =
        ap (pending n) (replay_segments-append crc (checkpoint_left removes n w.segs) (w.cur ∷ []))
        ∙ pending-append n (replay_segments crc (checkpoint_left removes n w.segs))
            (replay_segments crc (w.cur ∷ []))
        ∙ ap (λ rs. rs ++ pending n (replay_segments crc (w.cur ∷ []))) left
        ∙ sym (pending-append n (replay_segments crc w.segs) (replay_segments crc (w.cur ∷ [])))
        ∙ ap (pending n) (sym (replay_segments-append crc w.segs (w.cur ∷ []))) in
      elim (Bool-cases (checkpoint_ends removes n w.segs)) [
        | inl ends ↦
            rw (checkpoint, ends)
              (record {
                well = record {
                  closed = checkpoint_segments-All (Whole crc) n w.segs v.closed;
                  current = v.current;
                  bound = v.bound;
                  names = checkpoint_segments-IsAscending n w.segs w.cur v.names;
                };
                files_hold = files_hold;
                listed =
                    ap (λ segs. segs ++ w.cur ∷ []) (checkpoint_left-ends removes n w.segs ends);
                dropped = λ e. checkpoint_segments-uncommitted n w.segs;
              })
        | inr fails ↦
            rw (checkpoint, fails)
              (record {
                well = v;
                files_hold = files_hold;
                listed = refl;
                dropped = λ e. absurd (ground (arith, e));
              })
      ]
