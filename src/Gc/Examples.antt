-- ===== src/Gc/Examples.antt =====
-- A pass over three slices with batches of two: 5 is referenced by a file, 6 is old garbage, and 7 is a
-- slice whose write is not committed yet.
use memorylayer_storage.Prelude.{◌≡◌, refl, true, some, none, List, [], ◌∷◌, if◌then◌else◌, ◌==◌}
use memorylayer_storage.Meta.Slices.{SliceRow}
use memorylayer_storage.Fileio.Chunks.Memory.{Memory, memory}
use memorylayer_storage.Gc.{
  Cand, Query, live_slice_ids_in, put_newest, newest, judge, flush_batch, walk, mark, remove_all,
  run,
}
use memorylayer_storage.Gc.Sparing.{run-holds}
use memorylayer_storage.Gc.Reclaiming.{run_removes}

abbrev row : SliceRow
row = record { inode = 2; indx = 0; ref = record { pos = 0; id = 5; size = 3; off = 0; len = 3 } }

abbrev query : Query
query = record { answers = true; slices = row ∷ []; now = 100 }

abbrev stored : List Cand
stored =
    record { id = 5; created = 10 }
    ∷ record { id = 6; created = 20 }
    ∷ record { id = 7; created = 95 }
    ∷ []

abbrev before : Memory
before id = if id == 4 then none else some (id ∷ [])

abbrev after : Memory
after = (run memory 10 2 (λ k. query) query true stored before).0

run-holds_example : memory.holds 7 after ≡ memory.holds 7 before
run-holds_example =
    run-holds 10 7 memory 2 (λ k. query) query true stored before tt (λ k. refl) refl

ends : (run memory 10 2 (λ k. query) query true stored before).2 ≡ true
unfolding live_slice_ids_in put_newest newest judge flush_batch walk mark remove_all run
ends = refl

run_removes_example : memory.holds 6 after ≡ none
run_removes_example =
    run_removes 10 6 memory 2 (λ k. query) query true stored before tt ends refl (λ k. refl) refl
