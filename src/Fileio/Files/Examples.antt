-- ===== src/Fileio/Files/Examples.antt =====
-- The data path at a concrete file, over a chunk store that keeps its slices in memory.
use memorylayer_storage.Prelude.{
  ℕ, ◌+◌, ◌-◌, ◌^◌, ◌≤◌, ◌≡◌, ◌≢◌, refl, true, ◌&&◌, Option, none, some, List, [], ◌∷◌, arith, ltb,
  ◌==◌, if◌then◌else◌,
}
use Prim.Native.Nat.{min, max}
use memorylayer_storage.Meta.Errno.{healthy}
use memorylayer_storage.Meta.Slices
use memorylayer_storage.Meta.Slices.{admitted, type_file, write_tx, insert_row, read_slices}
use memorylayer_storage.Wal.Log.{durable}
use memorylayer_storage.Fileio.Chunks.Memory.{Memory, memory}
use memorylayer_storage.Fileio.Resolve.{
  resolve, subtract, subtract_from, add_covered, min32, insert_iv, sort_ivs, merge_from, merge_ivs,
  place, overlay, overlay_all, holes, insert_seg, sort_segs,
}
use memorylayer_storage.Fileio.Files.{
  Files, Round, WriteError, ReadError, out_of_fuel, write, write_loop, write_round, write_chunk,
  write_logged, log_slice, write_meta, new_slice, read, read_loop, read_segs, splice,
}
use memorylayer_storage.Fileio.Files.View.{byte_in}
use memorylayer_storage.Fileio.Files.Effects.{contents, file_length, IsSound, in_span, is_none}
use memorylayer_storage.Fileio.Files.Writing.{contents-write}
use memorylayer_storage.Fileio.Files.Looping.{SameFiles}
use memorylayer_storage.Fileio.Files.Reading.{IsRead, contents-read, read_ends}
use memorylayer_storage.Fileio.Files.Roundtrip.{read-write}

abbrev no_crc : List ℕ → ℕ
no_crc bs = 0

abbrev calm : ℕ → Round
calm indx = record {
  answers = true;
  makes = true;
  disk = durable;
  gate = admitted;
  server = healthy;
  now = 9;
}

-- The empty file 3.
abbrev fresh : Files Memory
fresh = record {
  ids = record { counter = 1; next = 0; end = 0 };
  chunks = λ id. none;
  wal = none;
  db = record {
    nodes = λ i.
        if i == 3
        then some (record { typ = type_file; length = 0; mtime = 0; ctime = 0 })
        else none;
    slices = [];
    changelog = [];
  };
}

fresh-IsSound : IsSound memory fresh
fresh-IsSound = record {
  ready = record { batch = omega arith; positive = omega arith };
  old = tt;
  fits = tt;
  chunks = tt;
  unused = λ id h. refl;
}

-- Three bytes, the last two of them in the next chunk.
abbrev bytes : List ℕ
bytes = 7 ∷ 8 ∷ 9 ∷ []

abbrev place_at : ℕ
place_at = 2 ^ 26 - 1

abbrev written : Files Memory × ℕ × Option WriteError
written = write memory no_crc calm 3 place_at bytes 0 fresh

written_whole : written.2 ≡ none
unfolding write write_loop write_round write_chunk write_logged log_slice write_meta new_slice
    Slices.write write_tx insert_row
written_whole = refl

abbrev back : Files Memory × Option ReadError × List ℕ
back = read memory healthy (λ i. healthy) 3 place_at 3 written.0

back_whole : back.1 ≡ none
unfolding write write_loop write_round write_chunk write_logged log_slice write_meta new_slice
    Slices.write write_tx insert_row read read_loop read_segs splice read_slices resolve subtract
    subtract_from add_covered min32 insert_iv sort_ivs merge_from merge_ivs place overlay
    overlay_all holes insert_seg sort_segs
back_whole = refl

small : file_length memory fresh 3 ≤ 2 ^ 58
unfolding file_length
small = omega arith

read-write_example : back.2 ≡ bytes
read-write_example =
    read-write memory no_crc calm healthy (λ i. healthy) 3 place_at bytes 0 fresh written.0.chunks
      (omega arith) small fresh-IsSound written_whole (record { valid = tt; same = λ j. refl })
      back_whole

contents-write_example :
    IsSound memory written.0
    × (written.1 ≤ 3)
    × (is_none written.2 ≡ (written.1 == 3))
    × ((j x : ℕ)
        → contents memory written.0 j x ≡ (
            if 3 == j && in_span place_at written.1 x
            then byte_in (some bytes) (x - place_at)
            else contents memory fresh j x))
    × ((j : ℕ)
        → file_length memory written.0 j ≡ (
            if 3 == j && ltb 0 written.1
            then max (file_length memory fresh j) (place_at + written.1)
            else file_length memory fresh j))
contents-write_example =
    contents-write memory no_crc calm 3 place_at bytes 0 fresh (omega arith) fresh-IsSound

written-IsSound : IsSound memory written.0
written-IsSound =
    (contents-write memory no_crc calm 3 place_at bytes 0 fresh (omega arith) fresh-IsSound).0

written_small : file_length memory written.0 3 ≤ 2 ^ 58
unfolding write write_loop write_round write_chunk write_logged log_slice write_meta new_slice
    Slices.write write_tx insert_row file_length
written_small = omega arith

contents-read_example :
    IsRead memory 3 place_at (min 3 (file_length memory written.0 3 - place_at)) written.0 back.2
contents-read_example =
    contents-read memory healthy (λ i. healthy) 3 place_at 3 written.0 written-IsSound written_small
      back_whole

read_ends_example : (back.1 ≢ some out_of_fuel) × SameFiles memory written.0 back.0
read_ends_example =
    read_ends memory healthy (λ i. healthy) 3 place_at 3 written.0 written-IsSound written_small
