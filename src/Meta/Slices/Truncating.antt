-- ===== src/Meta/Slices/Truncating.antt =====
-- What a file holds after `Truncate`.
use memorylayer_storage.Prelude.{
  ℕ, ◌≤◌, ◌<◌, ◌≡◌, refl, ap, sym, ◌∙◌, false, ◌&&◌, not, none, List, [], ◌∷◌, map, arith, ltb, leb,
  ◌==◌, if◌then◌else◌, Bool-cases, inl, inr,
}
use memorylayer_storage.Meta.Errno.{ok, Server}
use memorylayer_storage.Meta.Slices.{
  SliceRow, Db, Gate, drop_beyond, trim_row, truncate_rows, truncate, truncate_tx, row_start,
}
use memorylayer_storage.Meta.Slices.Content.{length_of, covers, piece, found, guarded_ok}

found-drop_beyond :
    (inode size j x : ℕ) (rows : List SliceRow)
    → x < size
    → found j x (drop_beyond inode size rows) ≡ found j x rows
unfolding found drop_beyond
found-drop_beyond inode size j x [] h = refl
found-drop_beyond inode size j x (r ∷ rows) h =
    ground (arith, h, found-drop_beyond inode size j x rows h)

found-drop_other :
    (inode size j x : ℕ) (rows : List SliceRow)
    → (inode == j) ≡ false
    → found j x (drop_beyond inode size rows) ≡ found j x rows
unfolding found drop_beyond
found-drop_other inode size j x [] h = refl
found-drop_other inode size j x (r ∷ rows) h =
    ground (arith, h, found-drop_other inode size j x rows h)

covers-trim_row :
    (inode size j x : ℕ) (r : SliceRow)
    → covers j x (trim_row inode size r)
      ≡ (covers j x r && not (inode == j && leb size x && ltb (row_start r) size))
covers-trim_row inode size j x r = ground arith

piece-trim_row : (inode size x : ℕ) (r : SliceRow) → piece x (trim_row inode size r) ≡ piece x r
piece-trim_row inode size x r = ground arith

found-trim_rows :
    (inode size j x : ℕ) (rows : List SliceRow)
    → (inode == j && leb size x) ≡ false
    → found j x (map (trim_row inode size) rows) ≡ found j x rows
unfolding found
found-trim_rows inode size j x [] h = refl
found-trim_rows inode size j x (r ∷ rows) h =
    rw (covers-trim_row inode size j x r, piece-trim_row inode size x r)
      (ground (arith, h, found-trim_rows inode size j x rows h))

found-beyond :
    (inode size x : ℕ) (rows : List SliceRow)
    → size ≤ x
    → found inode x (map (trim_row inode size) (drop_beyond inode size rows)) ≡ none
unfolding found drop_beyond
found-beyond inode size x [] h = refl
found-beyond inode size x (r ∷ rows) h =
    elim (Bool-cases (r.inode == inode && leb size (row_start r))) [
      | inl gone ↦ rw gone (found-beyond inode size x rows h)
      | inr kept ↦
          rw (kept, covers-trim_row inode size inode x r)
            (ground (arith, h, kept, found-beyond inode size x rows h))
    ]

-- The rows lose the bytes of the file from `size` on, and no others.
found-truncate_rows :
    (inode size j x : ℕ) (rows : List SliceRow)
    → found j x (truncate_rows inode size rows)
      ≡ (if inode == j && leb size x then none else found j x rows)
unfolding truncate_rows
found-truncate_rows inode size j x rows = ground (
  arith,
  found-beyond j size x rows,
  found-beyond inode size x rows,
  found-trim_rows inode size j x (drop_beyond inode size rows),
  found-drop_beyond inode size j x rows,
  found-drop_other inode size j x rows,
)

found-truncate_tx :
    (server : Server) (now inode size : ℕ) (db : Db) (j x : ℕ)
    → (truncate_tx server now inode size db).1 ≡ ok
    → found j x (truncate_tx server now inode size db).0.slices ≡ (
        if ltb size (length_of (db.nodes inode)) && (inode == j && leb size x)
        then none
        else found j x db.slices)
unfolding truncate_tx
found-truncate_tx server now inode size db j x h =
    ground (arith, h, found-truncate_rows inode size j x db.slices)

-- A truncation that succeeds and shrinks the file takes away every byte from the new size on, so that
-- a later growth reads zeros there; every other byte of every file stays, and a growth changes none.
pub found-truncate :
    (gate : Gate) (server : Server) (now inode size : ℕ) (db : Db) (j x : ℕ)
    → (truncate gate server now inode size db).1 ≡ ok
    → found j x (truncate gate server now inode size db).0.slices ≡ (
        if ltb size (length_of (db.nodes inode)) && (inode == j && leb size x)
        then none
        else found j x db.slices)
unfolding truncate
found-truncate gate server now inode size db j x h =
    let e = guarded_ok gate db (truncate_tx server now inode size db) h in
    rw e (found-truncate_tx server now inode size db j x (ap (λ r. r.1) (sym e) ∙ h))
