-- ===== src/Meta/Names.antt =====
-- Names in the metadata engine: the tables `edge`, `node`, `symlink`, `slice_ref` and `xattr`, with
-- create, Unlink, Rmdir and Link of mlfs/internal/meta/ops.go, deleteInodeRows of open.go, and Rename
-- with its exchange of rename.go. Times are one number, and the rows of `xattr` are the inodes that
-- they belong to. Each operation is the transaction past its fence, without its changelog row; the
-- columns of `node` that it copies or leaves are left out.
pub mod Rename
pub mod Entries
pub mod Changes
mod Examples
use Prim.Native.String.{String}
use text.Mathlib.Text.{◌==◌ as str_eq}
use memorylayer_storage.Prelude.{
  ℕ, ◌+◌, ◌-◌, Bool, true, false, ◌&&◌, ◌||◌, not, Option, none, some, List, [], ◌∷◌, ◌++◌, ltb,
  leb, ◌==◌, if◌then◌else◌, any, keep, is_some,
}
use memorylayer_storage.Meta.Errno.{
  Errno, ok, enoent, eio, eisdir, enotdir, enotempty, eexist, eperm, Server, first_select,
  second_select, third_select, write_row, commit,
}
use memorylayer_storage.Meta.Slices.{SliceRow, type_directory}

-- A row of `edge`.
pub record Edge : Type 0 where
  pub parent : ℕ
  pub name : String
  pub inode : ℕ
  pub typ : ℕ

-- The columns of `node` that these operations write. A link count below zero is 0 here: the code only
-- tests whether it is at most zero.
pub record Attr : Type 0 where
  pub typ : ℕ
  pub nlink : ℕ
  pub length : ℕ
  pub parent : ℕ
  pub mtime : ℕ
  pub ctime : ℕ

pub record Tree : Type 0 where
  pub edges : List Edge
  pub nodes : ℕ → Option Attr
  pub symlinks : ℕ → Option String
  pub slices : List SliceRow
  pub xattrs : List ℕ

-- WHERE parent=$1 AND name=$2
abbrev pub is_edge : ℕ → String → Edge → Bool
is_edge parent name e = e.parent == parent && str_eq e.name name

-- SELECT inode, type FROM edge WHERE parent=$1 AND name=$2
unfoldable pub find_edge : ℕ → String → List Edge → Option Edge
find_edge parent name [] = none
find_edge parent name (e ∷ edges) =
    if is_edge parent name e then some e else find_edge parent name edges

pub delete_edge : ℕ → String → List Edge → List Edge
delete_edge parent name edges = keep (λ e. not (is_edge parent name e)) edges

-- SELECT count(*) FROM edge WHERE parent=$1, as a test for zero
abbrev pub has_children : ℕ → List Edge → Bool
has_children inode edges = any (λ e. e.parent == inode) edges

-- UPDATE edge SET inode=$3, type=$4 WHERE parent=$1 AND name=$2
pub point_edge : ℕ → String → ℕ → ℕ → List Edge → List Edge
point_edge parent name inode typ [] = []
point_edge parent name inode typ (e ∷ edges) =
    let rest = point_edge parent name inode typ edges in
    (if is_edge parent name e then record e { inode = inode; typ = typ } else e) ∷ rest

-- UPDATE node ... WHERE inode=$1, DELETE FROM node WHERE inode=$1
abbrev pub update_node : ℕ → (Attr → Attr) → (ℕ → Option Attr) → ℕ → Option Attr
update_node inode f nodes i = elim (nodes i) [
  | none ↦ none
  | some a ↦ if inode == i then some (f a) else some a
]

abbrev pub set_at {ℓ} : {A : Type ℓ} → ℕ → Option A → (ℕ → Option A) → ℕ → Option A
set_at inode v rows i = if inode == i then v else rows i

abbrev pub touch : ℕ → Attr → Attr
touch now a = record a { mtime = now; ctime = now }

abbrev pub nlink_of : Option Attr → ℕ
nlink_of none = 0
nlink_of (some a) = a.nlink

-- `deleteInodeRows`
unfoldable pub delete_inode_rows : ℕ → Tree → Tree
delete_inode_rows inode t = record t {
  nodes = set_at inode none t.nodes;
  symlinks = set_at inode none t.symlinks;
  slices = keep (λ r. not (r.inode == inode)) t.slices;
  xattrs = keep (λ i. not (i == inode)) t.xattrs;
}

-- The end of a transaction: a statement or the commit that fails rolls back.
abbrev pub finish : Server → Tree → Tree → Tree × Errno
finish server t t' = if server write_row && server commit then (t', ok) else (t, eio)

-- The row of an unlinked name: one link less, and the rows of the inode go when none is left, unless
-- it is open. The flag tells that the inode is to be kept until its last close.
unfoldable pub drop_link : (ℕ → Bool) → ℕ → ℕ → Tree → Tree × Bool
drop_link is_open now inode t =
    let less = record t {
      nodes = update_node inode (λ a. record a { nlink = a.nlink - 1; ctime = now }) t.nodes;
    } in
    if ltb 0 (nlink_of (less.nodes inode))
    then (less, false)
    else if is_open inode
    then (less, true)
    else (delete_inode_rows inode less, false)

unfoldable pub unlink : Server → (ℕ → Bool) → ℕ → ℕ → String → Tree → Tree × Errno
unlink server is_open now parent name t =
    if not (server first_select) then (t, eio) else elim (find_edge parent name t.edges) [
      | none ↦ (t, enoent)
      | some e ↦
          if e.typ == type_directory
          then (t, eisdir)
          else if not (is_some (t.nodes e.inode))
          then (t, eio)
          else let gone =
              (drop_link is_open now e.inode
                (record t { edges = delete_edge parent name t.edges })).0 in
            finish server t (record gone { nodes = update_node parent (touch now) gone.nodes })
    ]

pub rmdir : Server → ℕ → ℕ → String → Tree → Tree × Errno
rmdir server now parent name t =
    if not (server first_select) then (t, eio) else elim (find_edge parent name t.edges) [
      | none ↦ (t, enoent)
      | some e ↦
          if not (e.typ == type_directory)
          then (t, enotdir)
          else if not (server second_select)
          then (t, eio)
          else if has_children e.inode t.edges
          then (t, enotempty)
          else finish server t (record t {
            edges = delete_edge parent name t.edges;
            nodes =
                update_node parent (λ a. touch now (record a { nlink = a.nlink - 1 }))
                  (set_at e.inode none t.nodes);
            xattrs = keep (λ i. not (i == e.inode)) t.xattrs;
          })
    ]

-- The transaction of `create`, for the fresh inode `ino`; the length is that of a link's target.
pub create : Server → ℕ → ℕ → ℕ → String → ℕ → ℕ → Option String → Tree → Tree × Errno
create server now ino parent name typ length target t =
    if not (server first_select) then (t, eio) else elim (t.nodes parent) [
      | none ↦ (t, enoent)
      | some pa ↦
          if not (pa.typ == type_directory)
          then (t, enotdir)
          else if is_some (find_edge parent name t.edges)
          then (t, eexist)
          else finish server t (record t {
            edges = t.edges ++ record { parent = parent; name = name; inode = ino; typ = typ } ∷ [];
            nodes =
                update_node parent
                  (λ a.
                    touch now
                      (record a { nlink = if typ == type_directory then a.nlink + 1 else a.nlink }))
                  (set_at ino
                    (some (record {
                      typ = typ;
                      nlink = if typ == type_directory then 2 else 1;
                      length = length;
                      parent = parent;
                      mtime = now;
                      ctime = now;
                    }))
                    t.nodes);
            symlinks = if is_some target then set_at ino target t.symlinks else t.symlinks;
          })
    ]

unfoldable pub link : Server → ℕ → ℕ → ℕ → String → Tree → Tree × Errno
link server now inode new_parent new_name t =
    if not (server first_select) then (t, eio) else elim (t.nodes inode) [
      | none ↦ (t, enoent)
      | some cur ↦
          if cur.typ == type_directory
          then (t, eperm)
          else if not (server second_select)
          then (t, eio)
          else elim (t.nodes new_parent) [
            | none ↦ (t, enoent)
            | some pa ↦
                if not (pa.typ == type_directory)
                then (t, enotdir)
                else if is_some (find_edge new_parent new_name t.edges)
                then (t, eexist)
                else finish server t (record t {
                  edges =
                      t.edges
                      ++ record {
                        parent = new_parent;
                        name = new_name;
                        inode = inode;
                        typ = cur.typ;
                      }
                        ∷ [];
                  nodes = update_node new_parent (touch now) (
                      update_node inode (λ a. record a { nlink = a.nlink + 1; ctime = now })
                        t.nodes);
                })
          ]
    ]
