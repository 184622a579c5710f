-- ===== src/Fileio/Replay/Recovery.antt =====
-- What a replay does to the files.
use memorylayer_storage.Prelude.{
  ℕ, ◌+◌, ◌≡◌, refl, ◌∙◌, true, false, some, List, [], ◌∷◌, arith, if◌then◌else◌, All, Option-cases,
  inl, inr,
}
use memorylayer_storage.Meta.Errno.{Errno, ok}
use memorylayer_storage.Meta.Slices
use memorylayer_storage.Meta.Slices.{SliceRow, Db, Gate, has_slice, guarded}
use memorylayer_storage.Meta.Slices.Content.{covers, piece, found}
use memorylayer_storage.Meta.Slices.Writing.{row_of, found-write, write-known, has_slice-write}
use memorylayer_storage.Wal.{Record, op_write}
use memorylayer_storage.Fileio.Replay.{Answer, ReplayResult, redo, redo_all, counted, slice_of}

-- The write of a record is in the database.
abbrev pub IsCommitted : Db → Record → Type 0
IsCommitted db rec = (rec.op ≡ op_write) × (has_slice rec.ino rec.slice_id db.slices ≡ true)

abbrev written : Answer → Record → Db → Db × Errno
written a rec db = Slices.write a.gate a.server a.now rec.ino rec.indx (slice_of rec) db

redo-write :
    (a : Answer) (rec : Record) (db : Db)
    → rec.op ≡ op_write
    → redo a rec db ≡ some (written a rec db)
unfolding redo
redo-write a rec db e = rw e refl

-- A replay of writes that are in the database already leaves it alone, whatever the server answers and
-- however far the replay comes.
pub redo_all-committed :
    (answers : ℕ → Answer) (recs : List Record) (res : ReplayResult) (db : Db)
    → All (IsCommitted db) recs
    → (redo_all answers recs res db).0 ≡ db
unfolding redo_all
redo_all-committed answers [] res db v = refl
redo_all-committed answers (rec ∷ recs) res db v =
    let a = answers rec.seq in
    let same = write-known a.gate a.server a.now rec.ino rec.indx (slice_of rec) db v.0.1 in
    rw (redo_all, redo-write a rec db v.0.0)
      (elim (Option-cases (counted (written a rec db).1 res)) [
        | inl none_eq ↦ rw (redo_all, none_eq) same
        | inr (res', e) ↦ rw (redo_all, e, same) (redo_all-committed answers recs res' db v.1)
      ])

-- A record whose slice the file does not have is written on top of all that the file holds, by a replay
-- that counts it as applied: also where the slice was there once, and a truncation took it away.
pub found-redo_lost :
    (answers : ℕ → Answer) (rec : Record) (res : ReplayResult) (db : Db) (j x : ℕ)
    → rec.op ≡ op_write
    → has_slice rec.ino rec.slice_id db.slices ≡ false
    → (written (answers rec.seq) rec db).1 ≡ ok
    → found j x (redo_all answers (rec ∷ []) res db).0.slices ≡ (
        if covers j x (row_of rec.ino rec.indx (slice_of rec))
        then some (piece x (row_of rec.ino rec.indx (slice_of rec)))
        else found j x db.slices)
unfolding redo_all
found-redo_lost answers rec res db j x e lost done =
    let a = answers rec.seq in
    rw (redo_all, redo-write a rec db e, done)
      (found-write a.gate a.server a.now rec.ino rec.indx (slice_of rec) db j x done
        ∙ ground (arith, lost))

-- A replay does not keep the order of the log: of two writes, where the file has lost the older and has
-- the newer, the older ends on top, and its bytes are read in place of those of the newer.
pub found-redo_stale :
    (answers : ℕ → Answer) (old new : Record) (res : ReplayResult) (db : Db) (x : ℕ)
    → old.op ≡ op_write
    → new.op ≡ op_write
    → has_slice old.ino old.slice_id db.slices ≡ false
    → has_slice new.ino new.slice_id db.slices ≡ true
    → (written (answers old.seq) old db).1 ≡ ok
    → covers old.ino x (row_of old.ino old.indx (slice_of old)) ≡ true
    → found old.ino x (redo_all answers (old ∷ new ∷ []) res db).0.slices
      ≡ some (piece x (row_of old.ino old.indx (slice_of old)))
unfolding redo_all
found-redo_stale answers old new res db x e e' lost kept done on =
    let a = answers old.seq in
    let still =
      has_slice-write a.gate a.server a.now old.ino old.indx (slice_of old) db new.ino new.slice_id
        kept in
    rw
      (
        redo_all,
        redo-write a old db e,
        done,
        redo_all-committed answers (new ∷ []) (record res { applied = res.applied + 1 })
            (written a old db).0 ((e', still), tt),
      )
      (found-write a.gate a.server a.now old.ino old.indx (slice_of old) db old.ino x done
        ∙ rw (lost, on) refl)
