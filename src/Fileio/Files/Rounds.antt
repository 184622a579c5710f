-- ===== src/Fileio/Files/Rounds.antt =====
-- One round of `Files.Write`: a fresh slice id, the slice in the chunk store, the log entry and the
-- metadata write.
use memorylayer_storage.Prelude.{
  ℕ, ◌+◌, ◌*◌, ◌≤◌, ◌<◌, ◌≡◌, ◌≢◌, ◌⊎◌, refl, ◌∙◌, Bool, false, Option, none, some, List, [], ◌∷◌,
  arith, ◌==◌, All, length, Bool-cases, Option-cases, inl, inr, u32,
}
use memorylayer_storage.Meta.Errno.{Errno, ok}
use memorylayer_storage.Meta.Slices
use memorylayer_storage.Meta.Slices.{
  SliceRef, SliceRow, Db, chunk_size, has_slice, insert_row, write_tx, guarded, row_start,
}
use memorylayer_storage.Meta.Slices.Content.{InChunk}
use memorylayer_storage.Meta.Slices.Writing.{found-write, length-write, write-rollback, write-All}
use memorylayer_storage.Wal.Log.{Log}
use memorylayer_storage.Fileio.Chunks.{Store}
use memorylayer_storage.Fileio.Files.{
  SliceIds, Files, Round, errno_error, new_slice, log_slice, write_meta, write_logged, write_chunk,
  write_round,
}
use memorylayer_storage.Fileio.Files.Ids.{next_id, IsOld, Given, new_slice-Given, has_slice_fresh}
use memorylayer_storage.Fileio.Files.View.{view}
use memorylayer_storage.Fileio.Files.Effects.{
  is_none, contents, file_length, IsSound, Effect, log_IsSound, failed_Effect, Effect-from,
  contents_chunks,
}

errno_cases : (st : Errno) → (st ≡ ok) ⊎ ((st ≢ ok) × (is_none (errno_error st) ≡ false))
errno_cases st = ground arith

module _ {S : Type 0} (store : Store S) where
  -- The slice `id` is in the store, and in no row yet.
  record IsStored (id : ℕ) (bytes : List ℕ) (f : Files S) : Type 0 where
    sound : IsSound store f
    fresh : All (IsOld id) f.db.slices
    given : id < next_id f.ids
    positive : 0 < id
    held : store.holds id f.chunks ≡ some bytes

  write_meta-Effect :
      (crc : List ℕ → ℕ) (round : Round) (ino indx pos id : ℕ) (bytes : List ℕ) (f : Files S)
      → IsStored id bytes f
      → pos + length bytes ≤ chunk_size
      → Effect store ino
          (indx * chunk_size + pos)
          bytes
          f
          (write_meta store crc round ino indx pos (length bytes) id f)
  unfolding write_meta contents view file_length
  write_meta-Effect crc round ino indx pos id bytes f v h = elim (errno_cases st) [
    | inl e ↦ record {
      sound = sound;
      shows = λ j x.
          rw
            (
              e,
              found-write round.gate round.server round.now ino indx s f.db j x e,
              has_slice_fresh ino id f.db.slices v.fresh,
            )
            (ground (arith, h, v.positive, v.held));
      grown = λ j.
          let size : u32 (length bytes) ≡ length bytes = omega (arith, h) in
          rw
            (
              e,
              length-write round.gate round.server round.now ino indx s f.db j
                  (has_slice_fresh ino id f.db.slices v.fresh) e,
              size,
            )
            refl;
    }
    | inr (e, failed) ↦ record {
      sound = sound;
      shows = λ j x.
          rw (failed, write-rollback round.gate round.server round.now ino indx s f.db e) refl;
      grown =
          λ j. rw (failed, write-rollback round.gate round.server round.now ino indx s f.db e) refl;
    }
  ]
    where
      s : SliceRef
      s = record {
        pos = pos;
        id = id;
        size = u32 (length bytes);
        off = 0;
        len = u32 (length bytes);
      }

      r : Db × Errno
      r = Slices.write round.gate round.server round.now ino indx s f.db

      st : Errno
      st = r.1

      sound : IsSound store (record f { db = r.0 })
      sound = record {
        ready = v.sound.ready;
        old =
            write-All (IsOld (next_id f.ids)) round.gate round.server round.now ino indx s f.db
              v.sound.old v.given;
        fits =
            write-All (λ r. InChunk r.ref) round.gate round.server round.now ino indx s f.db
              v.sound.fits (record { fits = omega (arith, h); source = omega (arith, h) });
        chunks = v.sound.chunks;
        unused = v.sound.unused;
      }

  write_logged-Effect :
      (crc : List ℕ → ℕ) (round : Round) (ino indx pos id : ℕ) (bytes : List ℕ) (f : Files S)
      → IsStored id bytes f
      → pos + length bytes ≤ chunk_size
      → Effect store ino
          (indx * chunk_size + pos)
          bytes
          f
          (write_logged store crc round ino indx pos (length bytes) id f)
  unfolding write_logged contents file_length
  write_logged-Effect crc round ino indx pos id bytes f v h = elim (Bool-cases logged.1) [
    | inl done ↦ rw done (
        Effect-from store ino _ bytes f (record f { wal = logged.0 }) _ (λ j x. refl) (λ j. refl)
          (write_meta-Effect crc round ino indx pos id bytes (record f { wal = logged.0 })
            (record {
              sound = log_IsSound store logged.0 f v.sound;
              fresh = v.fresh;
              given = v.given;
              positive = v.positive;
              held = v.held;
            })
            h))
    | inr failed ↦ rw failed (
        failed_Effect store ino _ bytes f _ _ (log_IsSound store logged.0 f v.sound) (λ j x. refl)
          (λ j. refl))
  ]
    where
      logged : Option Log × Bool
      logged = log_slice store crc round ino indx pos (length bytes) id f.wal

  -- The slice `id` is given, and in neither the store nor a row.
  record IsGiven (id : ℕ) (f : Files S) : Type 0 where
    sound : IsSound store f
    fresh : All (IsOld id) f.db.slices
    given : id < next_id f.ids
    positive : 0 < id
    empty : store.holds id f.chunks ≡ none

  write_chunk-Effect :
      (crc : List ℕ → ℕ) (round : Round) (ino indx pos class id : ℕ) (bytes : List ℕ) (f : Files S)
      → IsGiven id f
      → pos + length bytes ≤ chunk_size
      → Effect store ino
          (indx * chunk_size + pos)
          bytes
          f
          (write_chunk store crc round ino indx pos bytes class id f)
  unfolding write_chunk contents file_length
  write_chunk-Effect crc round ino indx pos class id bytes f v h = elim (Bool-cases r.1) [
    | inl done ↦ rw done (
        Effect-from store ino _ bytes f g _ same (λ j. refl)
          (write_logged-Effect crc round ino indx pos id bytes g
            (record {
              sound = sound;
              fresh = v.fresh;
              given = v.given;
              positive = v.positive;
              held = store.holds-write id bytes class f.chunks v.sound.chunks (inl v.empty) done;
            })
            h))
    | inr failed ↦ rw failed (failed_Effect store ino _ bytes f _ _ sound same (λ j. refl))
  ]
    where
      r : S × Bool
      r = store.write id bytes class f.chunks

      g : Files S
      g = record f { chunks = r.0 }

      other : (j : ℕ) → (id == j) ≡ false → store.holds j r.0 ≡ store.holds j f.chunks
      other j = store.holds-write_other id bytes class f.chunks j v.sound.chunks (inl v.empty)

      same : (j x : ℕ) → contents store g j x ≡ contents store f j x
      same = contents_chunks store f r.0 id v.fresh other

      sound : IsSound store g
      sound = record {
        ready = v.sound.ready;
        old = v.sound.old;
        fits = v.sound.fits;
        chunks = store.write-IsValid id bytes class f.chunks v.sound.chunks (inl v.empty);
        unused = λ j l. other j (ground (arith, v.given, l)) ∙ v.sound.unused j l;
      }

  old_mono : (b c : ℕ) (rows : List SliceRow) → b ≤ c → All (IsOld b) rows → All (IsOld c) rows
  old_mono b c [] h v = tt
  old_mono b c (r ∷ rows) h v = (omega (arith, h, v.0), old_mono b c rows h v.1)

  -- A round takes its bytes to their place in the file, or leaves all files as they were.
  pub write_round-Effect :
      (crc : List ℕ → ℕ) (round : Round) (ino indx pos class : ℕ) (bytes : List ℕ) (f : Files S)
      → IsSound store f
      → pos + length bytes ≤ chunk_size
      → Effect store ino
          (indx * chunk_size + pos)
          bytes
          f
          (write_round store crc round ino indx pos bytes class f)
  unfolding write_round contents file_length
  write_round-Effect crc round ino indx pos class bytes f v h = elim (Option-cases r.1) [
    | inl none_eq ↦
        rw (write_round, none_eq)
          (failed_Effect store ino _ bytes f _ _ sound (λ j x. refl) (λ j. refl))
    | inr (id, e) ↦
        rw (write_round, e)
          (Effect-from store ino _ bytes f g _ (λ j x. refl) (λ j. refl)
            (write_chunk-Effect crc round ino indx pos class id bytes g
              (record {
                sound = sound;
                fresh = rw (given.fresh id e).0 v.old;
                given = (given.fresh id e).1;
                positive = rw (given.fresh id e).0 v.ready.positive;
                empty = v.unused id (omega (arith, (given.fresh id e).0));
              })
              h))
  ]
    where
      r : SliceIds × Option ℕ
      r = new_slice round.answers f.ids

      given : Given f.ids r
      given = new_slice-Given round.answers f.ids v.ready

      g : Files S
      g = record f { ids = r.0 }

      sound : IsSound store g
      sound = record {
        ready = given.ready;
        old = old_mono (next_id f.ids) (next_id r.0) f.db.slices given.grows v.old;
        fits = v.fits;
        chunks = v.chunks;
        unused = λ j l. v.unused j (omega (arith, given.grows, l));
      }
