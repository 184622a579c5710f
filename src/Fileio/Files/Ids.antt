-- ===== src/Fileio/Files/Ids.antt =====
-- Slice ids: `NewSlice` gives none twice, so a new slice is in no row.
use memorylayer_storage.Prelude.{
  ℕ, ◌≤◌, ◌<◌, ◌≡◌, refl, Bool, true, false, Option, some, List, [], ◌∷◌, arith, ltb, leb,
  if◌then◌else◌, All, Bool-cases, Option-cases, inl, inr,
}
use memorylayer_storage.Meta.Slices.{SliceRow, has_slice}
use memorylayer_storage.Meta.Slices.Content.{found}
use memorylayer_storage.Fileio.Files.{SliceIds, new_slice}

-- The id that the next `NewSlice` gives.
abbrev pub next_id : SliceIds → ℕ
next_id ids = if ltb ids.next ids.end then ids.next else ids.counter

-- No id is given twice, and none is 0.
pub record IsReady (ids : SliceIds) : Type 0 where
  pub batch : ids.end ≤ ids.counter
  pub positive : 0 < next_id ids

abbrev pub IsOld : ℕ → SliceRow → Type 0
IsOld bound r = r.id < bound

-- What `NewSlice` gives is not 0 and below all that it gives later.
pub record Given (ids : SliceIds) (r : SliceIds × Option ℕ) : Type 0 where
  pub ready : IsReady r.0
  pub grows : next_id ids ≤ next_id r.0
  pub fresh : (id : ℕ) → r.1 ≡ some id → (id ≡ next_id ids) × (id < next_id r.0)

pub new_slice-Given :
    (answers : Bool) (ids : SliceIds) → IsReady ids → Given ids (new_slice answers ids)
unfolding new_slice
new_slice-Given true ids ready = elim (Bool-cases (leb ids.end ids.next)) [
  | inl spent ↦ rw spent (record {
    ready = record { batch = omega arith; positive = ground (arith, ready.positive) };
    grows = ground (arith, ready.positive, ready.batch);
    fresh = λ id h. ground (arith, h, ready.batch);
  })
  | inr left ↦ rw left (record {
    ready = record { batch = ready.batch; positive = ground (arith, ready.positive, ready.batch) };
    grows = ground (arith, ready.batch);
    fresh = λ id h. ground (arith, h, ready.batch);
  })
]
new_slice-Given false ids ready = elim (Bool-cases (leb ids.end ids.next)) [
  | inl spent ↦
      rw spent (record { ready = ready; grows = omega arith; fresh = λ id h. ground (arith, h) })
  | inr left ↦ rw left (record {
    ready = record { batch = ready.batch; positive = ground (arith, ready.positive, ready.batch) };
    grows = ground (arith, ready.batch);
    fresh = λ id h. ground (arith, h, ready.batch);
  })
]

pub has_slice_fresh :
    (inode bound : ℕ) (rows : List SliceRow)
    → All (IsOld bound) rows
    → has_slice inode bound rows ≡ false
has_slice_fresh inode bound [] v = refl
has_slice_fresh inode bound (r ∷ rows) v = ground (arith, has_slice_fresh inode bound rows v.1)

pub found_old :
    (inode x bound : ℕ) (rows : List SliceRow) (p : ℕ × ℕ)
    → All (IsOld bound) rows
    → found inode x rows ≡ some p
    → p.0 < bound
unfolding found
found_old inode x bound [] p v h = absurd (ground (arith, h))
found_old inode x bound (r ∷ rows) p v h = elim (Option-cases (found inode x rows)) [
  | inl none_eq ↦ ground (arith, h, none_eq, v.0)
  | inr (q, e) ↦ ground (arith, h, e, found_old inode x bound rows q v.1 e)
]
