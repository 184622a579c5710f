-- ===== src/Diskcache/Stack/Examples.antt =====
-- A file over a disk cache over memory: written, drained and read back.
use memorylayer_storage.Prelude.{
  ℕ, ◌≤◌, ◌^◌, ◌≡◌, ◌≢◌, ◌⊎◌, refl, true, Option, none, some, List, [], ◌∷◌, arith, ◌==◌,
  if◌then◌else◌,
}
use memorylayer_storage.Meta.Errno.{healthy}
use memorylayer_storage.Meta.Slices
use memorylayer_storage.Meta.Slices.{admitted, type_file, write_tx, insert_row, read_slices}
use memorylayer_storage.Wal.Log.{durable}
use memorylayer_storage.Fileio.Chunks.Memory.{Memory, memory}
use memorylayer_storage.Fileio.Files
use memorylayer_storage.Fileio.Files.{
  Round, WriteError, ReadError, write_loop, write_round, write_chunk, write_logged, log_slice,
  write_meta, new_slice, read_loop, read_segs, splice,
}
use memorylayer_storage.Fileio.Files.Effects.{IsSound, contents, file_length}
use memorylayer_storage.Fileio.Files.View.{byte_in}
use memorylayer_storage.Diskcache.{read_staged}
use memorylayer_storage.Diskcache.Serving
use memorylayer_storage.Diskcache.Serving.{stage, fetch, read_past, upload, drain_one, drain}
use memorylayer_storage.Diskcache.Contract
use memorylayer_storage.Diskcache.Layer.{Running, layered}
use memorylayer_storage.Diskcache.Fixtures.{
  sha256, sum_length, tells, limits, calm, blank, blank-IsValid,
}
use memorylayer_storage.Diskcache.Stack.{on_disk, drained, read-drain-write}

abbrev no_crc : List ℕ → ℕ
no_crc bs = 0

abbrev round : ℕ → Round
round indx = record {
  answers = true;
  makes = true;
  disk = durable;
  gate = admitted;
  server = healthy;
  now = 9;
}

-- The empty file 3.
abbrev fresh : Files.Files (Running Memory)
fresh = record {
  ids = record { counter = 1; next = 0; end = 0 };
  chunks = record { script = λ i. calm; calls = 0; cache = blank };
  wal = none;
  db = record {
    nodes = λ i.
        if i == 3
        then some (record { typ = type_file; length = 0; mtime = 0; ctime = 0 })
        else none;
    slices = [];
    changelog = [];
  };
}

fresh-IsSound : IsSound (on_disk memory sha256 sum_length tells limits no_crc) fresh
unfolding layered Contract.holds read_staged
fresh-IsSound = record {
  ready = record { batch = omega arith; positive = omega arith };
  old = tt;
  fits = tt;
  chunks = blank-IsValid;
  unused = λ id h. refl;
}

fresh_small : file_length (on_disk memory sha256 sum_length tells limits no_crc) fresh 3 ≤ 2 ^ 58
unfolding file_length
fresh_small = omega arith

abbrev bytes : List ℕ
bytes = 7 ∷ 8 ∷ 9 ∷ []

abbrev written : Files.Files (Running Memory) × ℕ × Option WriteError
written =
    Files.write (on_disk memory sha256 sum_length tells limits no_crc) no_crc round 3 5 bytes 0
      fresh

written_whole : written.2 ≡ none
unfolding Files.write write_loop write_round write_chunk write_logged log_slice write_meta new_slice
    Slices.write write_tx insert_row layered Serving.write stage
written_whole = refl

abbrev now : Files.Files (Running Memory)
now = record written.0 {
  chunks =
      drained memory sha256 sum_length tells limits no_crc (λ id. calm) (1 ∷ []) written.0.chunks;
}

abbrev back : Files.Files (Running Memory) × Option ReadError × List ℕ
back =
    Files.read (on_disk memory sha256 sum_length tells limits no_crc) healthy (λ i. healthy) 3 5 3
      now

read-drain-write_example :
    (contents (on_disk memory sha256 sum_length tells limits no_crc) now 3 6 ≡ (
      if true
      then byte_in (some bytes) 1
      else contents (on_disk memory sha256 sum_length tells limits no_crc) fresh 3 6))
    × ((back.1 ≢ none) ⊎ (back.2 ≡ bytes))
read-drain-write_example =
    read-drain-write memory sha256 sum_length tells limits no_crc round healthy (λ i. healthy) 3 5
      bytes 0 (λ id. calm) (1 ∷ []) fresh 3 6 (omega arith) fresh_small fresh-IsSound (λ id. refl)
      written_whole
