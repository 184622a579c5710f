-- ===== src/Diskcache/Fixtures.antt =====
-- A disk cache on which its calls can be run: a checksum that is the length, and an empty cache over a
-- slice store in memory, on a file system without errors.
use memorylayer_storage.Prelude.{
  ℕ, zero, suc, ◌≡◌, refl, ap, true, none, List, [], ◌∷◌, length, take, arith,
}
use memorylayer_storage.Fileio.Chunks.Memory.{Memory, memory}
use memorylayer_storage.Diskcache.{Limits, synced, read_staged, read_checksummed}
use memorylayer_storage.Diskcache.Serving.{DiskCache, FileSystem}
use memorylayer_storage.Diskcache.Contract.{IsValid}

abbrev pub nothings : ℕ → List ℕ
nothings zero = []
nothings (suc n) = 0 ∷ nothings n

abbrev pub sha256 : List ℕ → List ℕ
sha256 body = length body ∷ nothings 31

pub sum_length : (body : List ℕ) → length (sha256 body) ≡ 32
sum_length body = refl

pub take_whole : (body : List ℕ) (k : ℕ) → length (take k body) ≡ length body → take k body ≡ body
take_whole [] zero h = refl
take_whole [] (suc k) h = refl
take_whole (x ∷ body) zero h = absurd (omega (arith, h))
take_whole (x ∷ body) (suc k) h = ap (◌∷◌ x) (take_whole body k (omega (arith, h)))

abbrev pub first_of : List ℕ → ℕ
first_of [] = 0
first_of (x ∷ xs) = x

pub tells : (body : List ℕ) (k : ℕ) → sha256 (take k body) ≡ sha256 body → take k body ≡ body
tells body k h = take_whole body k (ap first_of h)

abbrev pub limits : Limits
limits = record { max_bytes = 100; max_items = 2 }

abbrev pub calm : FileSystem
calm = record {
  reads_clean = true;
  reads_staging = true;
  fills = synced;
  free = none;
  stages = synced;
  renames = true;
  syncs = true;
  removes = true;
}

abbrev pub blank : DiskCache Memory
blank = record {
  staging = λ id. none;
  clean = record { files = λ id. none; lru = []; cur_bytes = 0 };
  quarantined = [];
  backing = λ id. none;
}

pub blank-IsValid : IsValid memory sha256 blank
unfolding read_staged read_checksummed
blank-IsValid = record {
  backing = tt;
  staging = λ id body e. absurd (ground (arith, e));
  clean = λ id body e. absurd (ground (arith, e));
}
