-- ===== src/Meta/Names/Examples.antt =====
-- The theorems on names at concrete inputs.
use memorylayer_storage.Prelude.{
  ℕ, ◌≡◌, refl, false, ◌||◌, none, some, [], ◌∷◌, ◌==◌, if◌then◌else◌,
}
use memorylayer_storage.Meta.Errno.{ok, healthy}
use memorylayer_storage.Meta.Slices.{type_directory, type_file}
use memorylayer_storage.Meta.Names.{Edge, Attr, Tree, find_edge, unlink, rmdir, create}
use memorylayer_storage.Meta.Names.Rename.{replace, move_edge, rename, rename_exchange}
use memorylayer_storage.Meta.Names.Entries.{find_edge-rename}
use memorylayer_storage.Meta.Names.Changes.{find_edge-unlink}

abbrev old_file : Edge
old_file = record { parent = 1; name = "old"; inode = 2; typ = type_file }

abbrev new_file : Edge
new_file = record { parent = 1; name = "new"; inode = 3; typ = type_file }

abbrev sub_dir : Edge
sub_dir = record { parent = 1; name = "dir"; inode = 4; typ = type_directory }

abbrev attr : ℕ → ℕ → Attr
attr typ nlink = record { typ = typ; nlink = nlink; length = 0; parent = 1; mtime = 0; ctime = 0 }

-- The root directory with two files and a directory.
abbrev root : Tree
root = record {
  edges = old_file ∷ new_file ∷ sub_dir ∷ [];
  nodes = λ i.
      if i == 1
      then some (attr type_directory 3)
      else if i == 2 || i == 3
      then some (attr type_file 1)
      else if i == 4
      then some (attr type_directory 2)
      else none;
  symlinks = λ i. none;
  slices = [];
  xattrs = 3 ∷ [];
}

old_found : find_edge 1 "old" root.edges ≡ some old_file
unfolding find_edge
old_found = refl

new_found : find_edge 1 "new" root.edges ≡ some new_file
unfolding find_edge
new_found = refl

dir_found : find_edge 1 "dir" root.edges ≡ some sub_dir
unfolding find_edge
dir_found = refl

rename_runs : (rename healthy false 9 1 "old" 1 "new" root).1 ≡ ok
unfolding rename replace move_edge find_edge
rename_runs = refl

find_edge-rename_example :
    find_edge 1 "new" (rename healthy false 9 1 "old" 1 "new" root).0.edges
    ≡ some (record { parent = 1; name = "new"; inode = 2; typ = type_file })
unfolding find_edge
find_edge-rename_example =
    find_edge-rename healthy false 9 1 "old" 1 "new" root old_file old_found rename_runs 1 "new"

exchange_runs : (rename_exchange healthy 9 1 "old" 1 "new" root).1 ≡ ok
unfolding rename_exchange find_edge
exchange_runs = refl

unlink_runs : (unlink healthy (λ i. false) 9 1 "old" root).1 ≡ ok
unfolding unlink find_edge
unlink_runs = refl

find_edge-unlink_example :
    find_edge 1 "old" (unlink healthy (λ i. false) 9 1 "old" root).0.edges ≡ none
find_edge-unlink_example = find_edge-unlink healthy (λ i. false) 9 1 "old" root unlink_runs 1 "old"

rmdir_runs : (rmdir healthy 9 1 "dir" root).1 ≡ ok
unfolding rmdir find_edge
rmdir_runs = refl

create_runs : (create healthy 9 5 1 "five" type_file 0 none root).1 ≡ ok
unfolding create find_edge
create_runs = refl
