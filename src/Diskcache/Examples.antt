-- ===== src/Diskcache/Examples.antt =====
-- The disk cache at a concrete state, over a slice store in memory and with a checksum that is the length.
use memorylayer_storage.Prelude.{ℕ, ◌≡◌, refl, true, none, some, List, [], ◌∷◌, ◌++◌, inl}
use memorylayer_storage.Fileio.Chunks.Memory.{Memory, memory}
use memorylayer_storage.Diskcache.{
  Clean, equal, without, add_lru, free_space_evict_bytes, evict, check_bytes, check_staged,
  read_staged,
}
use memorylayer_storage.Diskcache.Fixtures.{
  sha256, sum_length, tells, limits, calm, blank, blank-IsValid,
}
use memorylayer_storage.Diskcache.Eviction.{
  Trimmed, IsDistinct, IsCounted, total, evict-add_lru-Trimmed,
}
use memorylayer_storage.Diskcache.Serving.{
  DiskCache, stage, write, read, upload, drain_one, drain, open_cache,
}
use memorylayer_storage.Diskcache.Contract.{holds, IsValid, staged_body, write-Wrote}
use memorylayer_storage.Diskcache.Reads.{Answers}
use memorylayer_storage.Diskcache.Recovery.{read-open_cache-write}

blank_empty : (id : ℕ) → holds memory sha256 id blank ≡ none
unfolding holds read_staged
blank_empty id = refl

abbrev slice : List ℕ
slice = 7 ∷ 8 ∷ 9 ∷ []

abbrev acked : DiskCache Memory
acked = (write memory sha256 limits calm 5 slice 0 blank).0

acked_done : (write memory sha256 limits calm 5 slice 0 blank).1 ≡ true
unfolding write stage
acked_done = refl

acked-IsValid : IsValid memory sha256 acked
acked-IsValid =
    (write-Wrote memory sha256 sum_length limits calm 5 0 slice blank blank-IsValid
      (inl (blank_empty 5))).still

acked_staged : staged_body memory sha256 (acked.staging 5) ≡ some slice
unfolding write stage read_staged check_staged equal check_bytes
acked_staged = refl

drains : (drain memory sha256 limits (λ id. calm) (5 ∷ []) acked).1 ≡ true
unfolding write stage read_staged check_staged equal check_bytes drain drain_one upload
drains = refl

abbrev reopened : DiskCache Memory
reopened = (open_cache memory sha256 limits none (λ id. calm) [] (5 ∷ []) acked).0

answering : Answers memory sha256 sum_length tells limits calm 5 reopened
answering = record { clean = refl; staging = refl; fills = refl; backing = λ body h. h }

read-open_cache-write_example : (read memory sha256 limits calm 5 reopened).1 ≡ some slice
read-open_cache-write_example =
    read-open_cache-write memory sha256 sum_length tells limits calm calm none (λ id. calm) []
      (5 ∷ []) 5 0 slice blank blank-IsValid (inl (blank_empty 5)) (λ id. refl) acked_done answering

abbrev two : Clean
two = record {
  files = λ id. none;
  lru = record { id = 1; size = 40 } ∷ record { id = 2; size = 50 } ∷ [];
  cur_bytes = 90;
}

two_counted : IsCounted two
unfolding total
two_counted = refl

evict-add_lru-Trimmed_example :
    Trimmed limits 0 0
      (without 3 two.lru ++ record { id = 3; size = 35 } ∷ [])
      two
      (evict limits none (add_lru 3 35 two))
    × IsDistinct (evict limits none (add_lru 3 35 two)).lru
unfolding free_space_evict_bytes
evict-add_lru-Trimmed_example =
    evict-add_lru-Trimmed limits none 3 35 two two_counted (refl, (refl, tt))
