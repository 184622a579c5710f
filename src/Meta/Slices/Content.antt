-- ===== src/Meta/Slices/Content.antt =====
-- What a file holds, by its slice rows: at each byte the newest slice that covers it.
use mathlib.Core.List.{reverse, reverse-cons}
use memorylayer_storage.Prelude.{
  ℕ, ◌+◌, ◌-◌, ◌*◌, ◌≤◌, ◌<◌, ◌^◌, ◌≡◌, refl, Bool, ◌&&◌, Option, none, some, List, [], ◌∷◌, ltb,
  leb, ◌==◌, if◌then◌else◌, keep, any, is_some, Bool-cases, map, ◌++◌, ◌||◌, arith, All, inl, inr,
}
use memorylayer_storage.Meta.Errno.{Errno, ok}
use memorylayer_storage.Meta.Ownership.{fence_errno}
use memorylayer_storage.Meta.Slices.{
  SliceRef, SliceRow, Node, Db, Gate, guarded, row_start, chunk_size,
}

abbrev pub slice_piece : ℕ → SliceRef → Option (ℕ × ℕ)
slice_piece x s = if s.id == 0 then none else some (s.id, s.off + (x - s.pos))

abbrev pub in_slice : ℕ → SliceRef → Bool
in_slice x s = leb s.pos x && ltb x (s.pos + s.len)

-- The specification, over slices that come newest first.
unfoldable pub newest : ℕ → List SliceRef → Option (ℕ × ℕ)
newest x [] = none
newest x (s ∷ older) = if in_slice x s then slice_piece x s else newest x older

-- A slice that lies in its chunk of 64 MiB, read within 32-bit offsets.
pub record InChunk (s : SliceRef) : Type 0 where
  pub fits : s.pos + s.len ≤ 2 ^ 26
  pub source : s.off + s.len < 2 ^ 32

abbrev pub covers : ℕ → ℕ → SliceRow → Bool
covers inode x r = r.inode == inode && (leb (row_start r) x && ltb x (row_start r + r.len))

-- A slice id and an offset in the slice.
abbrev pub piece : ℕ → SliceRow → ℕ × ℕ
piece x r = (r.id, r.off + (x - row_start r))

abbrev pub or_else {ℓ} : {A : Type ℓ} → Option A → Option A → Option A
or_else none p = p
or_else (some a) p = some a

-- Where the byte `x` of a file is: in the last row that covers it.
unfoldable pub found : ℕ → ℕ → List SliceRow → Option (ℕ × ℕ)
found inode x [] = none
found inode x (r ∷ rows) =
    or_else (found inode x rows) (if covers inode x r then some (piece x r) else none)

pub found-append :
    (inode x : ℕ) (xs ys : List SliceRow)
    → found inode x (xs ++ ys) ≡ or_else (found inode x ys) (found inode x xs)
unfolding found
found-append inode x [] ys = ground arith
found-append inode x (r ∷ xs) ys = ground (arith, found-append inode x xs ys)

newest-append :
    (x : ℕ) (xs : List SliceRef) (s : SliceRef)
    → newest x (xs ++ s ∷ []) ≡ (
        if any (in_slice x) xs then newest x xs else if in_slice x s then slice_piece x s else none)
unfolding newest
newest-append x [] s = refl
newest-append x (r ∷ xs) s = ground (arith, newest-append x xs s)

pub any-append {ℓ} :
    {A : Type ℓ} (p : A → Bool) (xs ys : List A) → any p (xs ++ ys) ≡ (any p xs || any p ys)
any-append p [] ys = refl
any-append p (x ∷ xs) ys = ground (arith, any-append p xs ys)

abbrev pub chunk_refs : ℕ → ℕ → List SliceRow → List SliceRef
chunk_refs inode indx rows = map (λ r. r.ref) (keep (λ r. r.inode == inode && r.indx == indx) rows)

-- A slice with the id 0 reads as a hole.
abbrev pub unless_hole : Option (ℕ × ℕ) → Option (ℕ × ℕ)
unless_hole none = none
unless_hole (some p) = if p.0 == 0 then none else some p

covers-in_slice :
    (inode indx p : ℕ) (r : SliceRow)
    → InChunk r.ref
    → p < chunk_size
    → covers inode (indx * chunk_size + p) r
      ≡ (r.inode == inode && r.indx == indx && in_slice p r.ref)
covers-in_slice inode indx p r fit h = ground arith

record SameView (inode indx p : ℕ) (rows : List SliceRow) : Type 0 where
  covered :
      any (in_slice p) (reverse (chunk_refs inode indx rows))
      ≡ is_some (found inode (indx * chunk_size + p) rows)
  value :
      newest p (reverse (chunk_refs inode indx rows))
      ≡ unless_hole (found inode (indx * chunk_size + p) rows)

view_cons :
    (inode indx p : ℕ) (r : SliceRow) (rows : List SliceRow)
    → InChunk r.ref
    → p < chunk_size
    → SameView inode indx p rows
    → SameView inode indx p (r ∷ rows)
unfolding found
view_cons inode indx p r rows fit h v = elim (Bool-cases (r.inode == inode && r.indx == indx)) [
  | inl mine ↦ record {
    covered =
        rw (mine, reverse-cons r.ref refs, any-append (in_slice p) (reverse refs) (r.ref ∷ []))
          (ground (arith, v.covered, at_row));
    value =
        rw (mine, reverse-cons r.ref refs, newest-append p (reverse refs) r.ref)
          (ground (arith, v.covered, v.value, at_row));
  }
  | inr other ↦
      let same : found inode (indx * chunk_size + p) (r ∷ rows)
          ≡ found inode (indx * chunk_size + p) rows =
        ground (arith, at_row) in
      record { covered = rw (other, same) v.covered; value = rw (other, same) v.value }
]
  where
    refs : List SliceRef
    refs = chunk_refs inode indx rows

    at_row :
        covers inode (indx * chunk_size + p) r
        ≡ (r.inode == inode && r.indx == indx && in_slice p r.ref)
    at_row = covers-in_slice inode indx p r fit h

view-All :
    (inode indx p : ℕ) (rows : List SliceRow)
    → All (λ r. InChunk r.ref) rows
    → p < chunk_size
    → SameView inode indx p rows
unfolding found newest
view-All inode indx p [] fit h = record { covered = refl; value = refl }
view-All inode indx p (r ∷ rows) fit h =
    view_cons inode indx p r rows fit.0 h (view-All inode indx p rows fit.1 h)

-- The overlay of one chunk, in write order, and the last row of the file that covers a byte are the
-- same view.
pub newest-found :
    (inode indx p : ℕ) (rows : List SliceRow)
    → All (λ r. InChunk r.ref) rows
    → p < chunk_size
    → newest p (reverse (chunk_refs inode indx rows))
      ≡ unless_hole (found inode (indx * chunk_size + p) rows)
newest-found inode indx p rows fit h = (view-All inode indx p rows fit h).value

-- The length of a file, zero where there is none.
abbrev pub length_of : Option Node → ℕ
length_of none = 0
length_of (some n) = n.length

-- A call that succeeds has run its transaction.
pub guarded_ok :
    (gate : Gate) (db : Db) (body : Db × Errno)
    → (guarded gate db body).1 ≡ ok
    → guarded gate db body ≡ body
unfolding fence_errno
guarded_ok gate db body h = ground (arith, h)
