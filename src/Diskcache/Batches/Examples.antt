-- ===== src/Diskcache/Batches/Examples.antt =====
-- A batched drain of two slices, with a batch for each, of which the later
-- ends first.
use memorylayer_storage.Prelude.{ℕ, ◌≡◌, refl, true, none, List, [], ◌∷◌, inl}
use memorylayer_storage.Fileio.Chunks.Memory.{Memory, memory}
use memorylayer_storage.Diskcache.{read_staged}
use memorylayer_storage.Diskcache.Fixtures.{
  sha256, sum_length, tells, limits, calm, blank, blank-IsValid,
}
use memorylayer_storage.Diskcache.Serving.{DiskCache, stage, write}
use memorylayer_storage.Diskcache.Contract.{holds, IsValid, write-Wrote}
use memorylayer_storage.Diskcache.Reads.{Same}
use memorylayer_storage.Diskcache.Batches.{drain_batched}
use memorylayer_storage.Diskcache.Batches.Each.{each}
use memorylayer_storage.Diskcache.Batches.Flushing.{drain_batched-Same}

abbrev first_slice : List ℕ
first_slice = 7 ∷ 8 ∷ 9 ∷ []

abbrev second_slice : List ℕ
second_slice = 4 ∷ 5 ∷ []

abbrev one : DiskCache Memory
one = (write memory sha256 limits calm 5 first_slice 0 blank).0

abbrev two : DiskCache Memory
two = (write memory sha256 limits calm 6 second_slice 0 one).0

empty_at : (id : ℕ) → holds memory sha256 id blank ≡ none
unfolding holds read_staged
empty_at id = refl

one_then : holds memory sha256 6 one ≡ none
unfolding holds write stage read_staged
one_then = refl

one-IsValid : IsValid memory sha256 one
one-IsValid =
    (write-Wrote memory sha256 sum_length limits calm 5 0 first_slice blank blank-IsValid
      (inl (empty_at 5))).still

two-IsValid : IsValid memory sha256 two
two-IsValid =
    (write-Wrote memory sha256 sum_length limits calm 6 0 second_slice one one-IsValid
      (inl one_then)).still

drain_batched-Same_example :
    Same memory sha256 sum_length tells limits two
      (drain_batched memory sha256 limits each (λ id. calm) 1 true (1 ∷ []) (5 ∷ 6 ∷ []) two).0
drain_batched-Same_example =
    drain_batched-Same memory sha256 sum_length tells limits each (λ id. calm) 1 true (1 ∷ [])
      (5 ∷ 6 ∷ []) two two-IsValid (λ id. refl)
