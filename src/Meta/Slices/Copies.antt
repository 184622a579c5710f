-- ===== src/Meta/Slices/Copies.antt =====
-- Slice rows that are copied from one file to another and inserted, as `Clone` and `CloneRange` of
-- mlfs/internal/meta/slices.go do.
use memorylayer_storage.Prelude.{
  ℕ, ◌≡◌, refl, sym, ◌∙◌, true, false, ◌||◌, none, List, [], ◌∷◌, ◌++◌, map, arith, ◌==◌,
  if◌then◌else◌, keep, Bool-cases, inl, inr, All,
}
use mathlib.Core.List.{append_assoc, append-nil}
use memorylayer_storage.Meta.Slices.{SliceRow, has_slice, insert_row, insert_rows}
use memorylayer_storage.Meta.Slices.Content.{found}

-- UNIQUE (inode, slice_id), as a property of the table.
abbrev pub IsKeyed : List SliceRow → Type 0
IsKeyed [] = Unit
IsKeyed (r ∷ rows) = (has_slice r.inode r.id rows ≡ false) × IsKeyed rows

-- Rows whose keys a table does not have.
abbrev AreNew : List SliceRow → List SliceRow → Type 0
AreNew rows new = All (λ r. has_slice r.inode r.id rows ≡ false) new

has_slice-append :
    (i id : ℕ) (xs ys : List SliceRow)
    → has_slice i id (xs ++ ys) ≡ (has_slice i id xs || has_slice i id ys)
has_slice-append i id [] ys = refl
has_slice-append i id (r ∷ xs) ys = ground (arith, has_slice-append i id xs ys)

still_new :
    (r : SliceRow) (rows new : List SliceRow)
    → has_slice r.inode r.id new ≡ false
    → AreNew rows new
    → AreNew (rows ++ r ∷ []) new
still_new r rows [] h v = tt
still_new r rows (q ∷ new) h v = (
  rw (has_slice-append q.inode q.id rows (r ∷ []), v.0) (ground (arith, h)),
  still_new r rows new (ground (arith, h)) v.1,
)

pub insert_rows-new :
    (new rows : List SliceRow) → IsKeyed new → AreNew rows new → insert_rows new rows ≡ rows ++ new
unfolding insert_rows insert_row
insert_rows-new [] rows k v = sym (append-nil rows)
insert_rows-new (r ∷ new) rows k v = rw v.0 (
    insert_rows-new new (rows ++ r ∷ []) k.1 (still_new r rows new k.0 v.1)
    ∙ append_assoc rows (r ∷ []) new)

pub insert_rows-old :
    (new rows : List SliceRow)
    → All (λ r. has_slice r.inode r.id rows ≡ true) new
    → insert_rows new rows ≡ rows
unfolding insert_rows insert_row
insert_rows-old [] rows v = refl
insert_rows-old (r ∷ new) rows v = rw v.0 (insert_rows-old new rows v.1)

-- The copies that `Clone` inserts.
abbrev pub copies : ℕ → ℕ → List SliceRow → List SliceRow
copies src dst rows =
    let copy = λ (r : SliceRow). record r { inode = dst } in
    map copy (keep (λ r. r.inode == src) rows)

has_slice-copies :
    (src dst id : ℕ) (rows : List SliceRow)
    → has_slice dst id (copies src dst rows) ≡ has_slice src id rows
has_slice-copies src dst id [] = refl
has_slice-copies src dst id (r ∷ rows) = ground (arith, has_slice-copies src dst id rows)

pub copies-IsKeyed :
    (src dst : ℕ) (rows : List SliceRow) → IsKeyed rows → IsKeyed (copies src dst rows)
copies-IsKeyed src dst [] k = tt
copies-IsKeyed src dst (r ∷ rows) k = elim (Bool-cases (r.inode == src)) [
  | inl mine ↦ rw mine (
    has_slice-copies src dst r.id rows ∙ ground (arith, k.0, mine),
    copies-IsKeyed src dst rows k.1,
  )
  | inr other ↦ rw other (copies-IsKeyed src dst rows k.1)
]

-- A file without rows.
abbrev pub IsBare : ℕ → List SliceRow → Type 0
IsBare inode rows = All (λ r. (r.inode == inode) ≡ false) rows

bare-has_slice :
    (inode id : ℕ) (rows : List SliceRow) → IsBare inode rows → has_slice inode id rows ≡ false
bare-has_slice inode id [] v = refl
bare-has_slice inode id (r ∷ rows) v = ground (arith, v.0, bare-has_slice inode id rows v.1)

pub bare-found :
    (inode x : ℕ) (rows : List SliceRow) → IsBare inode rows → found inode x rows ≡ none
unfolding found
bare-found inode x [] v = refl
bare-found inode x (r ∷ rows) v = ground (arith, v.0, bare-found inode x rows v.1)

pub copies-AreNew :
    (src dst : ℕ) (all rows : List SliceRow) → IsBare dst all → AreNew all (copies src dst rows)
copies-AreNew src dst all [] v = tt
copies-AreNew src dst all (r ∷ rows) v = elim (Bool-cases (r.inode == src)) [
  | inl mine ↦ rw mine (bare-has_slice dst r.id all v, copies-AreNew src dst all rows v)
  | inr other ↦ rw other (copies-AreNew src dst all rows v)
]

pub found-copies :
    (src dst j x : ℕ) (rows : List SliceRow)
    → found j x (copies src dst rows) ≡ (if j == dst then found src x rows else none)
unfolding found
found-copies src dst j x [] = ground arith
found-copies src dst j x (r ∷ rows) = ground (arith, found-copies src dst j x rows)
