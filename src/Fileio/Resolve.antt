-- ===== src/Fileio/Resolve.antt =====
-- The overlay of a chunk's slices: `resolve`, `subtract` and `addCovered` of
-- mlfs/internal/fileio/fileio.go. `sort.Slice` sorts by insertion; the keys that it compares here are
-- distinct, so any sort gives the same list.
pub mod Intervals
pub mod Overlay
pub mod Windows
mod Examples
use mathlib.Core.List.{reverse}
use memorylayer_storage.Prelude.{
  ℕ, ◌+◌, ◌-◌, ◌%◌, ◌^◌, Bool, true, false, ◌&&◌, ◌||◌, Option, none, some, List, [], ◌∷◌, ◌++◌,
  ltb, leb, ◌==◌, if◌then◌else◌, u32,
}
use memorylayer_storage.Meta.Slices.{SliceRef}

-- Bytes [start, end) come from the slice `id` at `src_off`; the id 0 is a hole.
pub record Seg : Type 0 where
  pub start : ℕ
  pub end : ℕ
  pub id : ℕ
  pub src_off : ℕ

-- [a, b)
pub record Iv : Type 0 where
  pub a : ℕ
  pub b : ℕ

-- uint32 subtraction
abbrev pub sub32 : ℕ → ℕ → ℕ
sub32 a b = (a + 2 ^ 32 - b) % 2 ^ 32

unfoldable pub min32 : ℕ → ℕ → ℕ
min32 a b = if ltb a b then a else b

-- The loop of `subtract`; a `break` and the end of the list lead to the same last test.
unfoldable pub subtract_from : ℕ → ℕ → List Iv → List Iv
subtract_from b cur [] = if ltb cur b then record { a = cur; b = b } ∷ [] else []
subtract_from b cur (c ∷ covered) =
    let on = subtract_from b c.b covered in
    if leb c.b cur || leb b c.a
    then subtract_from b cur covered
    else (if ltb cur c.a then record { a = cur; b = min32 c.a b } ∷ [] else [])
      ++ (if leb b c.b then [] else on)

unfoldable pub subtract : ℕ → ℕ → List Iv → List Iv
subtract a b covered = subtract_from b a covered

unfoldable pub insert_iv : Iv → List Iv → List Iv
insert_iv c [] = c ∷ []
insert_iv c (d ∷ ivs) = let rest = insert_iv c ivs in if ltb c.a d.a then c ∷ d ∷ ivs else d ∷ rest

unfoldable pub sort_ivs : List Iv → List Iv
sort_ivs [] = []
sort_ivs (c ∷ ivs) = insert_iv c (sort_ivs ivs)

-- The merging loop of `addCovered`, with the last merged interval.
unfoldable pub merge_from : Iv → List Iv → List Iv
merge_from last [] = last ∷ []
merge_from last (c ∷ ivs) =
    let joined = merge_from (record last { b = if ltb last.b c.b then c.b else last.b }) ivs in
    let apart = merge_from c ivs in if leb c.a last.b then joined else last ∷ apart

unfoldable pub merge_ivs : List Iv → List Iv
merge_ivs [] = []
merge_ivs (c ∷ ivs) = merge_from c ivs

unfoldable pub add_covered : List Iv → ℕ → ℕ → List Iv
add_covered covered a b = merge_ivs (sort_ivs (covered ++ record { a = a; b = b } ∷ []))

pub record Progress : Type 0 where
  pub covered : List Iv
  pub out : List Seg

-- The inner loop, over what is left of one slice.
unfoldable pub place : SliceRef → List Iv → Progress → Progress
place s [] p = p
place s (g ∷ gaps) p = place s gaps (record {
  covered = add_covered p.covered g.a g.b;
  out =
      p.out
      ++ record { start = g.a; end = g.b; id = s.id; src_off = u32 (s.off + sub32 g.a s.pos) } ∷ [];
})

-- One round of the loop over the slices.
unfoldable pub overlay : ℕ → ℕ → SliceRef → Progress → Progress
overlay lo hi s p =
    let a = if ltb s.pos lo then lo else s.pos in
    let b = if ltb hi (u32 (s.pos + s.len)) then hi else u32 (s.pos + s.len) in
    if leb b a then p else place s (subtract a b p.covered) p

-- The slices come newest first.
unfoldable pub overlay_all : ℕ → ℕ → List SliceRef → Progress → Progress
overlay_all lo hi [] p = p
overlay_all lo hi (s ∷ slices) p = overlay_all lo hi slices (overlay lo hi s p)

unfoldable pub holes : List Iv → List Seg
holes [] = []
holes (g ∷ gaps) = record { start = g.a; end = g.b; id = 0; src_off = 0 } ∷ holes gaps

unfoldable pub insert_seg : Seg → List Seg → List Seg
insert_seg c [] = c ∷ []
insert_seg c (d ∷ segs) =
    let rest = insert_seg c segs in if ltb c.start d.start then c ∷ d ∷ segs else d ∷ rest

unfoldable pub sort_segs : List Seg → List Seg
sort_segs [] = []
sort_segs (c ∷ segs) = insert_seg c (sort_segs segs)

unfoldable pub resolve : List SliceRef → ℕ → ℕ → List Seg
resolve slices lo hi =
    if leb hi lo
    then []
    else let p = overlay_all lo hi (reverse slices) (record { covered = []; out = [] }) in
      sort_segs (p.out ++ holes (subtract lo hi p.covered))
