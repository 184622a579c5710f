-- ===== src/Meta/Slices/Examples.antt =====
-- The theorems on file contents at concrete inputs.
use memorylayer_storage.Prelude.{
  ◌≡◌, ◌≢◌, refl, false, none, some, [], ◌∷◌, arith, ◌==◌, if◌then◌else◌,
}
use memorylayer_storage.Meta.Errno.{ok, healthy, Server}
use memorylayer_storage.Meta.Slices.{
  SliceRef, SliceRow, Db, admitted, type_file, write, truncate, write_tx, truncate_tx,
}
use memorylayer_storage.Meta.Slices.Content.{found}
use memorylayer_storage.Meta.Slices.Writing.{found-write}
use memorylayer_storage.Meta.Slices.Truncating.{found-truncate}

abbrev old_ref : SliceRef
old_ref = record { pos = 0; id = 5; size = 100; off = 0; len = 100 }

abbrev new_ref : SliceRef
new_ref = record { pos = 40; id = 6; size = 20; off = 0; len = 20 }

abbrev old_row : SliceRow
old_row = record { inode = 3; indx = 0; ref = old_ref }

-- The file 3 with 100 bytes in one slice, and the empty file 4.
abbrev disk : Db
disk = record {
  nodes = λ i.
      if i == 3
      then some (record { typ = type_file; length = 100; mtime = 0; ctime = 0 })
      else if i == 4
      then some (record { typ = type_file; length = 0; mtime = 0; ctime = 0 })
      else none;
  slices = old_row ∷ [];
  changelog = [];
}

write_runs : (write admitted healthy 9 3 0 new_ref disk).1 ≡ ok
unfolding write write_tx
write_runs = refl

found-write_example : found 3 45 (write admitted healthy 9 3 0 new_ref disk).0.slices ≡ some (6, 5)
found-write_example = found-write admitted healthy 9 3 0 new_ref disk 3 45 write_runs

-- The commit fails.
abbrev broken : Server
broken s = false

write_fails : (write admitted broken 9 3 0 new_ref disk).1 ≢ ok
unfolding write write_tx
write_fails = λ h. ground (arith, h)

truncate_runs : (truncate admitted healthy 9 3 50 disk).1 ≡ ok
unfolding truncate truncate_tx
truncate_runs = refl

found-truncate_example : found 3 70 (truncate admitted healthy 9 3 50 disk).0.slices ≡ none
found-truncate_example = found-truncate admitted healthy 9 3 50 disk 3 70 truncate_runs
