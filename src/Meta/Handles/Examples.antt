-- ===== src/Meta/Handles/Examples.antt =====
-- A file that is unlinked while it is open.
use memorylayer_storage.Prelude.{
  ◌≡◌, refl, true, false, ◌&&◌, not, none, some, [], ◌∷◌, ◌==◌, arith, if◌then◌else◌, is_some,
}
use memorylayer_storage.Meta.Errno.{ok, healthy}
use memorylayer_storage.Meta.Slices.{SliceRow, has_slice, type_file, type_directory}
use memorylayer_storage.Meta.Names.{Attr, Tree, find_edge, drop_link, unlink}
use memorylayer_storage.Meta.Handles.{
  Engine, close, to_sustain, unlink_committed, unlink_open, unlinks, closes, steps,
}
use memorylayer_storage.Meta.Handles.Sustaining.{IsHeld, is_last, steps-IsHeld, close_rows}

abbrev row : SliceRow
row = record { inode = 5; indx = 0; ref = record { pos = 0; id = 8; size = 3; off = 0; len = 3 } }

abbrev file : Attr
file = record { typ = type_file; nlink = 1; length = 3; parent = 1; mtime = 4; ctime = 4 }

abbrev root : Attr
root = record { typ = type_directory; nlink = 2; length = 0; parent = 1; mtime = 4; ctime = 4 }

abbrev tree : Tree
tree = record {
  edges = record { parent = 1; name = "a"; inode = 5; typ = type_file } ∷ [];
  nodes = λ i. if i == 1 then some root else if i == 5 then some file else none;
  symlinks = λ i. none;
  slices = row ∷ [];
  xattrs = [];
}

abbrev reading : Engine
reading = record { open_refs = λ i. if i == 5 then 1 else 0; sustained = λ i. false; tree = tree }

abbrev unlinked : Engine
unlinked = (unlink_open healthy 9 1 "a" reading).0

reading-IsHeld : IsHeld reading
reading-IsHeld i s = absurd (ground (arith, s))

steps-IsHeld_example : IsHeld (steps (unlinks healthy 9 1 "a" ∷ closes healthy 5 ∷ []) reading)
steps-IsHeld_example =
    steps-IsHeld (unlinks healthy 9 1 "a" ∷ closes healthy 5 ∷ []) reading reading-IsHeld

close_rows_example :
    ((close healthy 5 unlinked).1 ≡ ok)
    × (is_some ((close healthy 5 unlinked).0.tree.nodes 5)
        ≡ (is_some (unlinked.tree.nodes 5) && not (is_last 5 unlinked && true)))
    × (has_slice 5 8 (close healthy 5 unlinked).0.tree.slices
        ≡ (has_slice 5 8 unlinked.tree.slices && not (is_last 5 unlinked && true)))
close_rows_example = close_rows healthy 5 unlinked 5 8 refl refl

last_of_it : is_last 5 unlinked ≡ true
unfolding unlink_open unlink_committed to_sustain unlink drop_link find_edge
last_of_it = refl
