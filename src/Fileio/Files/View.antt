-- ===== src/Fileio/Files/View.antt =====
-- What a file holds, byte by byte, over a slice table and what a chunk store holds.
use memorylayer_storage.Prelude.{ℕ, Option, none, some, List, get_elem?}
use memorylayer_storage.Meta.Slices.{SliceRow}
use memorylayer_storage.Meta.Slices.Content.{found, unless_hole}

abbrev pub or_zero : Option ℕ → ℕ
or_zero none = 0
or_zero (some b) = b

-- A byte of a slice, zero past its end.
abbrev pub byte_in : Option (List ℕ) → ℕ → ℕ
byte_in none o = 0
byte_in (some body) o = or_zero (get_elem? body o)

abbrev pub byte_of : (ℕ → Option (List ℕ)) → Option (ℕ × ℕ) → ℕ
byte_of holds none = 0
byte_of holds (some p) = byte_in (holds p.0) p.1

-- The byte `x` of the file `inode`: of the newest slice that covers it, and zero in a hole.
unfoldable pub view : (ℕ → Option (List ℕ)) → List SliceRow → ℕ → ℕ → ℕ
view holds rows inode x = byte_of holds (unless_hole (found inode x rows))
