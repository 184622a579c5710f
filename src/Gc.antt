-- ===== src/Gc.antt =====
-- The slice sweep of the garbage collector, `Run` of mlfs/internal/gc/gc.go up to the sweep of the blobs,
-- with `LiveSliceIDsIn` of mlfs/internal/meta/gc.go. Slices are written and committed beside a pass, so
-- the database of each query is an argument.
pub mod Batches
pub mod Sparing
pub mod Judging
pub mod Reclaiming
mod Examples
use memorylayer_storage.Prelude.{
  ℕ, ◌+◌, Bool, true, false, ◌&&◌, Option, none, some, List, [], ◌∷◌, ◌++◌, map, length, keep, any,
  ltb, leb, ◌==◌, if◌then◌else◌,
}
use memorylayer_storage.Meta.Slices.{SliceRow}
use memorylayer_storage.Fileio.Chunks.{Store}

-- A stored slice that the walk comes to, and when it was written.
pub record Cand : Type 0 where
  pub id : ℕ
  pub created : ℕ

-- What a query of `flush` meets: whether the server answers it, the table `slice_ref`, and the clock.
pub record Query : Type 0 where
  pub answers : Bool
  pub slices : List SliceRow
  pub now : ℕ

abbrev pub referenced : ℕ → List SliceRow → Bool
referenced id rows = any (λ r. r.id == id) rows

-- `LiveSliceIDsIn`
unfoldable pub live_slice_ids_in : Query → List ℕ → Option (List ℕ)
live_slice_ids_in q [] = some []
live_slice_ids_in q (id ∷ ids) =
    if q.answers then some (keep (λ i. referenced i q.slices) (id ∷ ids)) else none

-- The map `newest`, in the order of first insertion.
unfoldable pub put_newest : Cand → List Cand → List Cand
put_newest c [] = c ∷ []
put_newest c (d ∷ m) =
    let rest = put_newest c m in
    if d.id == c.id then (if ltb d.created c.created then c else d) ∷ m else d ∷ rest

unfoldable pub newest : List Cand → List Cand → List Cand
newest [] m = m
newest (c ∷ cs) m = newest cs (put_newest c m)

-- An age below the safety window; a slice that is newer than the clock is young.
abbrev pub is_young : ℕ → ℕ → Cand → Bool
is_young safety now c = ltb 0 safety && ltb now (c.created + safety)

pub record Counts : Type 0 where
  pub live_slices : ℕ
  pub slices_scanned : ℕ
  pub slices_deferred_young : ℕ

pub record Pass : Type 0 where
  pub batch : List Cand
  pub reclaim : List ℕ
  pub res : Counts

-- The loop of `flush` over `newest`.
unfoldable pub judge : ℕ → ℕ → List ℕ → List Cand → List ℕ → Counts → List ℕ × Counts
judge safety now live [] reclaim res = (reclaim, res)
judge safety now live (c ∷ m) reclaim res = elim (any (λ i. i == c.id) live) [
  | true ↦ judge safety now live m reclaim res
  | false ↦ elim (is_young safety now c) [
    | true ↦
        judge safety now live m reclaim
          (record res { slices_deferred_young = res.slices_deferred_young + 1 })
    | false ↦ judge safety now live m (reclaim ++ c.id ∷ []) res
  ]
]

-- `flush` of the batch at hand; `none` is an error.
unfoldable pub flush_batch : ℕ → Query → List Cand → Pass → Option Pass
flush_batch safety q [] p = some p
flush_batch safety q (c ∷ cs) p =
    let m = newest (c ∷ cs) [] in
    elim (live_slice_ids_in q (map (λ d. d.id) m)) [
      | none ↦ none
      | some live ↦
          let r =
            judge safety q.now live m p.reclaim
              (record p.res { live_slices = p.res.live_slices + length live }) in
          some (record { batch = []; reclaim = r.0; res = r.1 })
    ]

abbrev pub flush : ℕ → Query → Pass → Option Pass
flush safety q p = flush_batch safety q p.batch p

-- `WalkSliceIDs` over the stored slices, with batches of `bs`; `queries` is by the number of slices that
-- are scanned.
unfoldable pub walk : ℕ → ℕ → (ℕ → Query) → List Cand → Pass → Option Pass
walk safety bs queries [] p = some p
walk safety bs queries (c ∷ cs) p =
    let seen = record p.res { slices_scanned = p.res.slices_scanned + 1 } in
    let p' : Pass = record p { batch = p.batch ++ c ∷ []; res = seen } in
    elim (leb bs (length p'.batch)) [
      | false ↦ walk safety bs queries cs p'
      | true ↦ elim (flush safety (queries seen.slices_scanned) p') [
        | none ↦ none
        | some p'' ↦ walk safety bs queries cs p''
      ]
    ]

abbrev pub start : Pass
start = record {
  batch = [];
  reclaim = [];
  res = record { live_slices = 0; slices_scanned = 0; slices_deferred_young = 0 };
}

-- The walk and the last `flush`; `walks` is whether the walk of the store ends without an error of its
-- own.
unfoldable pub mark : ℕ → ℕ → (ℕ → Query) → Query → Bool → List Cand → Option Pass
mark safety bs queries last walks stored = elim (walk safety bs queries stored start) [
  | none ↦ none
  | some p ↦ elim walks [ false ↦ none | true ↦ flush safety last p ]
]

module _ {S : Type 0} (store : Store S) where
  -- The number of slices deleted, and whether no removal failed.
  unfoldable pub remove_all : List ℕ → S → S × ℕ × Bool
  remove_all [] s = (s, 0, true)
  remove_all (id ∷ ids) s =
      let r = store.remove id s in
      let rest = remove_all ids r.0 in if r.1 then (rest.0, rest.1 + 1, rest.2) else (r.0, 0, false)

  -- `Run`; the batch size is `sliceGCBatch` or that of `SetBatchSize`.
  unfoldable pub run : ℕ → ℕ → (ℕ → Query) → Query → Bool → List Cand → S → S × ℕ × Bool
  run safety bs queries last walks stored s = elim (mark safety bs queries last walks stored) [
    | none ↦ (s, 0, false)
    | some p ↦ remove_all p.reclaim s
  ]
