-- ===== src/Fileio/Resolve/Examples.antt =====
-- The theorems on the overlay at a concrete chunk, and a run of `resolve` on it.
use memorylayer_storage.Prelude.{◌≡◌, refl, List, [], ◌∷◌, arith, All}
use mathlib.Core.List.{reverse}
use memorylayer_storage.Meta.Slices.{SliceRef}
use memorylayer_storage.Meta.Slices.Content.{InChunk, newest}
use memorylayer_storage.Fileio.Resolve.{
  resolve, subtract, subtract_from, add_covered, min32, insert_iv, sort_ivs, merge_from, merge_ivs,
  place, overlay, overlay_all, holes, insert_seg, sort_segs,
}
use memorylayer_storage.Fileio.Resolve.Windows.{source, source-resolve}

-- Bytes 0 to 99 from the slice 5, then bytes 40 to 59 from the slice 6.
abbrev history : List SliceRef
history =
    record { pos = 0; id = 5; size = 100; off = 0; len = 100 }
    ∷ record { pos = 40; id = 6; size = 20; off = 0; len = 20 }
    ∷ []

history_fits : All InChunk history
history_fits = (
  record { fits = omega arith; source = omega arith },
  (record { fits = omega arith; source = omega arith }, tt),
)

resolved :
    resolve history 30 120
    ≡ record { start = 30; end = 40; id = 5; src_off = 30 }
      ∷ record { start = 40; end = 60; id = 6; src_off = 0 }
      ∷ record { start = 60; end = 100; id = 5; src_off = 60 }
      ∷ record { start = 100; end = 120; id = 0; src_off = 0 }
      ∷ []
unfolding resolve subtract subtract_from add_covered min32 insert_iv sort_ivs merge_from merge_ivs
    place overlay overlay_all holes insert_seg sort_segs
resolved = refl

source-resolve_example : source 50 (resolve history 30 120) ≡ newest 50 (reverse history)
source-resolve_example = source-resolve history 30 120 history_fits 50 (omega arith) (omega arith)
