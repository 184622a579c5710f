-- ===== src/Fileio/Resolve/Windows.antt =====
-- `resolve` against its specification: at each byte of the window the newest slice that covers it.
use mathlib.Core.List.{reverse, reverse-cons}
use memorylayer_storage.Prelude.{
  ℕ, ◌≤◌, ◌<◌, ◌≡◌, refl, sym, true, ◌&&◌, not, Option, none, List, [], ◌∷◌, ◌++◌, arith, ltb, leb,
  if◌then◌else◌, All, All-append, Bool-cases, inl, inr,
}
use memorylayer_storage.Meta.Slices.{SliceRef}
use memorylayer_storage.Meta.Slices.Content.{newest, InChunk}
use memorylayer_storage.Fileio.Resolve.{
  Seg, Iv, Progress, subtract, overlay_all, holes, insert_seg, sort_segs, resolve,
}
use memorylayer_storage.Fileio.Resolve.Intervals.{
  in_ivs, IsChain, in_ivs-below, in_ivs-subtract, subtract_from-IsChain,
}
use memorylayer_storage.Fileio.Resolve.Overlay.{
  seg_piece, in_seg, hits, Agrees, hits-append, IsPlaced, Remains, overlay_all_lem,
}

hits-holes :
    (x lo : ℕ) (gaps : List Iv)
    → IsChain lo gaps
    → hits x (holes gaps) ≡ (if in_ivs x gaps then 1 else 0)
unfolding hits holes in_ivs
hits-holes x lo [] c = refl
hits-holes x lo (g ∷ gaps) c =
    ground (arith, hits-holes x g.b gaps c.2, in_ivs-below x g.b gaps c.2)

holes-Agrees :
    (all : List SliceRef) (gaps : List Iv)
    → ((x : ℕ) → in_ivs x gaps ≡ true → newest x all ≡ none)
    → All (Agrees all) (holes gaps)
unfolding holes in_ivs
holes-Agrees all [] h = tt
holes-Agrees all (g ∷ gaps) h = (
  record { at = λ x k. sym (h x (ground (arith, k))) },
  holes-Agrees all gaps (λ x k. h x (ground (arith, k))),
)

hits-insert_seg :
    (x : ℕ) (g : Seg) (segs : List Seg) → hits x (insert_seg g segs) ≡ hits x (g ∷ segs)
unfolding hits insert_seg
hits-insert_seg x g [] = refl
hits-insert_seg x g (d ∷ segs) = ground (arith, hits-insert_seg x g segs)

hits-sort_segs : (x : ℕ) (segs : List Seg) → hits x (sort_segs segs) ≡ hits x segs
unfolding hits sort_segs
hits-sort_segs x [] = refl
hits-sort_segs x (g ∷ segs) =
    ground (arith, hits-insert_seg x g (sort_segs segs), hits-sort_segs x segs)

insert_seg-All {κ} :
    (P : Seg → Type κ) (g : Seg) (segs : List Seg) → P g → All P segs → All P (insert_seg g segs)
unfolding insert_seg
insert_seg-All P g [] h v = (h, tt)
insert_seg-All P g (d ∷ segs) h v = ground (arith, h, v, insert_seg-All P g segs h v.1)

sort_segs-All {κ} : (P : Seg → Type κ) (segs : List Seg) → All P segs → All P (sort_segs segs)
unfolding sort_segs
sort_segs-All P [] v = tt
sort_segs-All P (g ∷ segs) v = insert_seg-All P g (sort_segs segs) v.0 (sort_segs-All P segs v.1)

-- The first segment that has the byte.
unfoldable pub source : ℕ → List Seg → Option (ℕ × ℕ)
source x [] = none
source x (g ∷ segs) = if in_seg x g then seg_piece x g else source x segs

source-Agrees :
    (all : List SliceRef) (x : ℕ) (segs : List Seg)
    → All (Agrees all) segs
    → 0 < hits x segs
    → source x segs ≡ newest x all
unfolding hits source
source-Agrees all x [] v h = absurd (omega arith)
source-Agrees all x (g ∷ segs) v h = ground (arith, v.0.at x, source-Agrees all x segs v.1)

All-reverse {ℓ κ} : {A : Type ℓ} (P : A → Type κ) (xs : List A) → All P xs → All P (reverse xs)
All-reverse P [] v = tt
All-reverse P (x ∷ xs) v =
    rw (reverse-cons x xs) (All-append P (reverse xs) (x ∷ []) (All-reverse P xs v.1) (v.0, tt))

module _ (slices : List SliceRef) (lo hi : ℕ) (fit : All InChunk slices) where
  abbrev after : Progress
  after = overlay_all lo hi (reverse slices) (record { covered = []; out = [] })

  after_lem : IsPlaced (reverse slices) after × Remains (reverse slices) [] lo hi after
  unfolding hits in_ivs
  after_lem =
      overlay_all_lem (reverse slices) (reverse slices) lo hi (record { covered = []; out = [] })
        (All-reverse InChunk slices fit) (record { chain = tt; count = λ x. refl; agree = tt })
        (record { inside = λ x h. cc; later = λ x l h u. refl })

  gaps_lem :
      (x : ℕ)
      → in_ivs x (subtract lo hi after.covered)
        ≡ (leb lo x && ltb x hi && not (in_ivs x after.covered))
  gaps_lem x = in_ivs-subtract x 0 lo hi after.covered after_lem.0.chain

  -- The segments of a window tile it, for slices that lie in their chunk: each byte of the window is in
  -- exactly one segment, and each other byte in none.
  pub hits-resolve :
      (x : ℕ) → hits x (resolve slices lo hi) ≡ (if leb lo x && ltb x hi then 1 else 0)
  unfolding resolve hits subtract
  hits-resolve x = ground (
    arith,
    hits-sort_segs x (after.out ++ holes (subtract lo hi after.covered)),
    hits-append x after.out (holes (subtract lo hi after.covered)),
    after_lem.0.count x,
    gaps_lem x,
    hits-holes x lo (subtract lo hi after.covered)
        (subtract_from-IsChain 0 hi lo after.covered after_lem.0.chain),
    after_lem.1.inside x,
  )

  resolve-Agrees : All (Agrees (reverse slices)) (resolve slices lo hi)
  unfolding resolve newest
  resolve-Agrees = elim (Bool-cases (leb hi lo)) [
    | inl empty ↦ rw empty tt
    | inr some_window ↦ rw some_window (
        sort_segs-All (Agrees (reverse slices)) _ (
          All-append (Agrees (reverse slices)) after.out _ after_lem.0.agree (
            holes-Agrees (reverse slices) (subtract lo hi after.covered)
              (λ x h. ground (arith, h, gaps_lem x, after_lem.1.later x)))))
  ]

  -- At each byte of a window `resolve` reads what the newest slice that covers the byte holds there,
  -- and a zero where no slice does, for slices (in write order) that lie in their chunk.
  pub source-resolve :
      (x : ℕ) → lo ≤ x → x < hi → source x (resolve slices lo hi) ≡ newest x (reverse slices)
  source-resolve x l h =
      source-Agrees (reverse slices) x (resolve slices lo hi) resolve-Agrees
        (ground (arith, hits-resolve x))
