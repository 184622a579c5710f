-- ===== src/Wal/Log/Names.antt =====
-- The names of the segments of a log: what a write to one file, a file that is opened, and the order of
-- the names in `load` of mlfs/internal/wal/wal.go come to when the names ascend.
use memorylayer_storage.Prelude.{
  ℕ, ◌<◌, ◌≡◌, refl, ap, true, false, ◌==◌, List, [], ◌∷◌, ◌++◌, leb, arith, All, All-append,
}
use memorylayer_storage.Wal.Log.{Segment, existing, write_file, insert_segment, sort_segments}

-- Names in ascending order.
abbrev pub IsAscending : List Segment → Type 0
IsAscending [] = Unit
IsAscending (s ∷ segs) = All (λ t. s.start_seq < t.start_seq) segs × IsAscending segs

pub below_last :
    (segs : List Segment) (s : Segment)
    → IsAscending (segs ++ s ∷ [])
    → All (λ t. t.start_seq < s.start_seq) segs
below_last [] s v = tt
below_last (t ∷ segs) s v = (last_of segs v.0, below_last segs s v.1)
  where
    last_of :
        (xs : List Segment)
        → All (λ u. t.start_seq < u.start_seq) (xs ++ s ∷ [])
        → t.start_seq < s.start_seq
    last_of [] w = w.0
    last_of (x ∷ xs) w = last_of xs w.1

pub write_file-other :
    (name : ℕ) (bytes : List ℕ) (segs : List Segment)
    → All (λ t. t.start_seq < name) segs
    → write_file name bytes segs ≡ segs
unfolding write_file
write_file-other name bytes [] v = refl
write_file-other name bytes (s ∷ segs) v =
    let other : (s.start_seq == name) ≡ false = ground (arith, v.0) in
    rw other (ap (◌∷◌ s) (write_file-other name bytes segs v.1))

pub existing-above :
    (name : ℕ) (segs : List Segment) → All (λ t. t.start_seq < name) segs → existing name segs ≡ []
unfolding existing
existing-above name [] v = refl
existing-above name (s ∷ segs) v =
    let other : (s.start_seq == name) ≡ false = ground (arith, v.0) in
    rw other (existing-above name segs v.1)

pub all_below :
    (name n : ℕ) (segs : List Segment)
    → n < name
    → All (λ t. t.start_seq < n) segs
    → All (λ t. t.start_seq < name) segs
all_below name n [] h v = tt
all_below name n (s ∷ segs) h v = (omega (arith, h, v.0), all_below name n segs h v.1)

pub append-IsAscending :
    (segs : List Segment) (s : Segment)
    → IsAscending segs
    → All (λ t. t.start_seq < s.start_seq) segs
    → IsAscending (segs ++ s ∷ [])
append-IsAscending [] s v w = (tt, tt)
append-IsAscending (t ∷ segs) s v w = (
  All-append (λ u. t.start_seq < u.start_seq) segs (s ∷ []) v.0 (w.0, tt),
  append-IsAscending segs s v.1 w.1,
)

-- Names do not change with what else is changed in the last segment.
pub last-IsAscending :
    (segs : List Segment) (s t : Segment)
    → s.start_seq ≡ t.start_seq
    → IsAscending (segs ++ s ∷ [])
    → IsAscending (segs ++ t ∷ [])
last-IsAscending [] s t e v = (tt, tt)
last-IsAscending (x ∷ segs) s t e v = (same segs v.0, last-IsAscending segs s t e v.1)
  where
    same :
        (xs : List Segment)
        → All (λ u. x.start_seq < u.start_seq) (xs ++ s ∷ [])
        → All (λ u. x.start_seq < u.start_seq) (xs ++ t ∷ [])
    same [] w = (omega (arith, w.0, e), tt)
    same (y ∷ ys) w = (w.0, same ys w.1)

insert_segment-first :
    (s : Segment) (segs : List Segment)
    → All (λ t. s.start_seq < t.start_seq) segs
    → insert_segment s segs ≡ s ∷ segs
unfolding insert_segment
insert_segment-first s [] v = refl
insert_segment-first s (t ∷ segs) v =
    let before : leb s.start_seq t.start_seq ≡ true = ground (arith, v.0) in rw before refl

-- Files in the order of their names stay as they are.
pub sort_segments_lem : (segs : List Segment) → IsAscending segs → sort_segments segs ≡ segs
unfolding sort_segments
sort_segments_lem [] v = refl
sort_segments_lem (s ∷ segs) v = rw (sort_segments_lem segs v.1) (insert_segment-first s segs v.0)
