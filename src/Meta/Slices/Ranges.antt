-- ===== src/Meta/Slices/Ranges.antt =====
-- `CloneRange` within one file.
use memorylayer_storage.Prelude.{ℕ, ◌+◌, ◌*◌, Bool, ◌&&◌, ◌||◌, not, List, ltb, leb, ◌==◌}
use memorylayer_storage.Meta.Slices.{SliceRow, has_slice, chunk_size}

-- The row is one of the file, and the file has its slice.
abbrev has_own : ℕ → List SliceRow → SliceRow → Bool
has_own f all r = not (r.inode == f) || has_slice f r.id all

-- The chunks of a range, as bytes of the file.
abbrev in_chunks : ℕ → ℕ → ℕ → Bool
in_chunks di n x = leb (di * chunk_size) x && ltb x ((di + n) * chunk_size)
