-- ===== src/Meta/Slices/Writing.antt =====
-- What a file holds after `Write`, and what it leaves alone.
use memorylayer_storage.Prelude.{
  ◌≢◌, ◌+◌, ◌*◌, ◌==◌, Option-cases, ℕ, ◌≡◌, ap, sym, ◌∙◌, true, false, ◌&&◌, not, some, List, [],
  ◌∷◌, arith, if◌then◌else◌, Bool-cases, inl, inr, All, All-append,
}
use Prim.Native.Nat.{max}
use memorylayer_storage.Meta.Errno.{ok, Server}
use memorylayer_storage.Meta.Slices.{
  SliceRef, SliceRow, Db, Gate, chunk_size, has_slice, insert_row, write, write_tx,
}
use memorylayer_storage.Meta.Slices.Content.{
  length_of, covers, piece, found, found-append, guarded_ok, any-append,
}

found-insert_row :
    (j x : ℕ) (r : SliceRow) (rows : List SliceRow)
    → has_slice r.inode r.id rows ≡ false
    → found j x (insert_row r rows) ≡ (if covers j x r then some (piece x r) else found j x rows)
unfolding found insert_row
found-insert_row j x r rows fresh = rw (fresh, found-append j x rows (r ∷ [])) (ground arith)

abbrev pub row_of : ℕ → ℕ → SliceRef → SliceRow
row_of inode indx s = record { inode = inode; indx = indx; ref = s }

found-insert :
    (j x inode indx : ℕ) (s : SliceRef) (rows : List SliceRow)
    → has_slice inode s.id rows ≡ false
    → found j x (insert_row (record { inode = inode; indx = indx; ref = s }) rows) ≡ (
        if covers j x (row_of inode indx s)
        then some (piece x (row_of inode indx s))
        else found j x rows)
found-insert j x inode indx s rows = found-insert_row j x (row_of inode indx s) rows

found-write_tx :
    (server : Server) (now inode indx : ℕ) (s : SliceRef) (db : Db) (j x : ℕ)
    → (write_tx server now inode indx s db).1 ≡ ok
    → found j x (write_tx server now inode indx s db).0.slices ≡ (
        if not (has_slice inode s.id db.slices) && covers j x (row_of inode indx s)
        then some (piece x (row_of inode indx s))
        else found j x db.slices)
unfolding write_tx
found-write_tx server now inode indx s db j x h =
    elim (Bool-cases (has_slice inode s.id db.slices)) [
      | inl old ↦ rw old (ground (arith, h, old))
      | inr fresh ↦
          rw fresh (ground (arith, h, fresh, found-insert j x inode indx s db.slices fresh))
    ]

-- A write that succeeds puts its slice on top: a byte of the slice is read from it from then on and
-- every other byte of every file as before. A slice id that the file has already changes nothing.
pub found-write :
    (gate : Gate) (server : Server) (now inode indx : ℕ) (s : SliceRef) (db : Db) (j x : ℕ)
    → (write gate server now inode indx s db).1 ≡ ok
    → found j x (write gate server now inode indx s db).0.slices ≡ (
        if not (has_slice inode s.id db.slices) && covers j x (row_of inode indx s)
        then some (piece x (row_of inode indx s))
        else found j x db.slices)
unfolding write
found-write gate server now inode indx s db j x h =
    let e = guarded_ok gate db (write_tx server now inode indx s db) h in
    rw e (found-write_tx server now inode indx s db j x (ap (λ r. r.1) (sym e) ∙ h))

-- A write that fails leaves the database alone.
pub write-rollback :
    (gate : Gate) (server : Server) (now inode indx : ℕ) (s : SliceRef) (db : Db)
    → (write gate server now inode indx s db).1 ≢ ok
    → (write gate server now inode indx s db).0 ≡ db
unfolding write write_tx
write-rollback gate server now inode indx s db h = ground (arith, h)

insert_row-All {κ} :
    (P : SliceRow → Type κ) (r : SliceRow) (rows : List SliceRow)
    → All P rows
    → P r
    → All P (insert_row r rows)
unfolding insert_row
insert_row-All P r rows v h = ground (arith, v, All-append P rows (r ∷ []) v (h, tt))

-- What every row satisfies stays so, when the new row does.
pub write-All {κ} :
    (P : SliceRow → Type κ) (gate : Gate) (server : Server) (now inode indx : ℕ) (s : SliceRef)
    (db : Db)
    → All P db.slices
    → P (row_of inode indx s)
    → All P (write gate server now inode indx s db).0.slices
unfolding write write_tx
write-All P gate server now inode indx s db v h =
    ground (arith, v, insert_row-All P (row_of inode indx s) db.slices v h)

length-write_tx :
    (server : Server) (now inode indx : ℕ) (s : SliceRef) (db : Db) (j : ℕ)
    → has_slice inode s.id db.slices ≡ false
    → (write_tx server now inode indx s db).1 ≡ ok
    → length_of ((write_tx server now inode indx s db).0.nodes j) ≡ (
        if inode == j
        then max (length_of (db.nodes j)) (indx * chunk_size + s.pos + s.len)
        else length_of (db.nodes j))
unfolding write_tx
length-write_tx server now inode indx s db j fresh h = elim (Option-cases (db.nodes inode)) [
  | inl none_eq ↦ ground (arith, h, none_eq)
  | inr (n, e) ↦ elim (Bool-cases (inode == j)) [
    | inl mine ↦
        let same : j ≡ inode = ground (arith, mine) in rw same (ground (arith, h, e, fresh))
    | inr other ↦ ground (arith, h, e, fresh, other)
  ]
]

-- A write that succeeds with a new slice makes the file as long as the end of the slice, if it was
-- shorter, and changes the length of no other file.
pub length-write :
    (gate : Gate) (server : Server) (now inode indx : ℕ) (s : SliceRef) (db : Db) (j : ℕ)
    → has_slice inode s.id db.slices ≡ false
    → (write gate server now inode indx s db).1 ≡ ok
    → length_of ((write gate server now inode indx s db).0.nodes j) ≡ (
        if inode == j
        then max (length_of (db.nodes j)) (indx * chunk_size + s.pos + s.len)
        else length_of (db.nodes j))
unfolding write
length-write gate server now inode indx s db j fresh h =
    let e = guarded_ok gate db (write_tx server now inode indx s db) h in
    rw e (length-write_tx server now inode indx s db j fresh (ap (λ r. r.1) (sym e) ∙ h))

-- A write of a slice that the file has already changes nothing, whatever it returns.
pub write-known :
    (gate : Gate) (server : Server) (now inode indx : ℕ) (s : SliceRef) (db : Db)
    → has_slice inode s.id db.slices ≡ true
    → (write gate server now inode indx s db).0 ≡ db
unfolding write write_tx
write-known gate server now inode indx s db h = ground (arith, h)

has_slice-insert_row :
    (inode id : ℕ) (r : SliceRow) (rows : List SliceRow)
    → has_slice inode id rows ≡ true
    → has_slice inode id (insert_row r rows) ≡ true
unfolding insert_row
has_slice-insert_row inode id r rows h = elim (Bool-cases (has_slice r.inode r.id rows)) [
  | inl old ↦ rw old h
  | inr new ↦
      rw new (any-append (λ s. s.inode == inode && s.id == id) rows (r ∷ []) ∙ ground (arith, h))
]

-- A slice of a file stays in it when another is written.
pub has_slice-write :
    (gate : Gate) (server : Server) (now inode indx : ℕ) (s : SliceRef) (db : Db) (j id : ℕ)
    → has_slice j id db.slices ≡ true
    → has_slice j id (write gate server now inode indx s db).0.slices ≡ true
unfolding write write_tx
has_slice-write gate server now inode indx s db j id h =
    ground (arith, h, has_slice-insert_row j id (row_of inode indx s) db.slices h)
