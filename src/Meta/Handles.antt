-- ===== src/Meta/Handles.antt =====
-- Open handles in the metadata engine, mlfs/internal/meta/open.go, with the end of Unlink of ops.go: a
-- file that is unlinked while it is open is sustained until its last `Close`. The two maps of the engine
-- are functions; a count of zero stands for a missing key.
pub mod Sustaining
mod Examples
use Prim.Native.String.{String}
use memorylayer_storage.Prelude.{
  ℕ, ◌+◌, ◌-◌, Bool, true, false, ◌&&◌, not, Option, none, some, List, [], ◌∷◌, ltb, ◌==◌,
  if◌then◌else◌, is_some,
}
use memorylayer_storage.Meta.Errno.{Errno, ok, enoent, eio, Server, first_select}
use memorylayer_storage.Meta.Names.{
  Tree, find_edge, delete_edge, delete_inode_rows, drop_link, finish, unlink,
}

pub record Engine : Type 0 where
  pub open_refs : ℕ → ℕ
  pub sustained : ℕ → Bool
  pub tree : Tree

abbrev pub put_key {ℓ} : {A : Type ℓ} → ℕ → A → (ℕ → A) → ℕ → A
put_key inode v rows i = if inode == i then v else rows i

-- `OpenRef`
abbrev pub open_ref : ℕ → Engine → Engine
open_ref inode e = record e { open_refs = put_key inode (e.open_refs inode + 1) e.open_refs }

-- `Open`, without the attributes that it returns.
unfoldable pub open_inode : Server → ℕ → Engine → Engine × Errno
open_inode server inode e =
    if not (server first_select)
    then (e, eio)
    else if not (is_some (e.tree.nodes inode))
    then (e, enoent)
    else (open_ref inode e, ok)

-- `isOpen`
abbrev pub is_open : Engine → ℕ → Bool
is_open e inode = ltb 0 (e.open_refs inode)

-- `markSustained`
abbrev pub mark_sustained : ℕ → Engine → Engine
mark_sustained inode e = record e { sustained = put_key inode true e.sustained }

-- The deletion of `Close`, by a transaction of its own.
unfoldable pub delete_closed : Server → ℕ → Engine → Engine × Errno
delete_closed server inode e =
    let r = finish server e.tree (delete_inode_rows inode e.tree) in
    (record e { sustained = put_key inode false e.sustained; tree = r.0 }, r.1)

-- `Close`
unfoldable pub close : Server → ℕ → Engine → Engine × Errno
close server inode e =
    let e' = record e { open_refs = put_key inode (e.open_refs inode - 1) e.open_refs } in
    if e.open_refs inode - 1 == 0 && e.sustained inode
    then delete_closed server inode e'
    else (e', ok)

-- The inode that the transaction of Unlink finds open when its last name goes.
unfoldable pub to_sustain : Engine → ℕ → ℕ → String → Option ℕ
to_sustain e now parent name = elim (find_edge parent name e.tree.edges) [
  | none ↦ none
  | some d ↦
      let edges = delete_edge parent name e.tree.edges in
      if (drop_link (is_open e) now d.inode (record e.tree { edges = edges })).1
      then some d.inode
      else none
]

abbrev pub is_ok : Errno → Bool
is_ok st = elim st [ ok ↦ true | _ ↦ false ]

-- Unlink up to its commit, with the inode that is still to be marked.
unfoldable pub unlink_committed : Server → ℕ → ℕ → String → Engine → Engine × Errno × Option ℕ
unlink_committed server now parent name e =
    let r = unlink server (is_open e) now parent name e.tree in
    (record e { tree = r.0 }, r.1, if is_ok r.1 then to_sustain e now parent name else none)

abbrev pub mark_all : Option ℕ → Engine → Engine
mark_all none e = e
mark_all (some inode) e = mark_sustained inode e

-- Unlink, with no other call between its commit and the mark.
unfoldable pub unlink_open : Server → ℕ → ℕ → String → Engine → Engine × Errno
unlink_open server now parent name e =
    let r = unlink_committed server now parent name e in (mark_all r.2 r.0, r.1)

-- One call of a mount, with what the server answers.
pub data Call : Type 0 where
  opens closes : Server → ℕ → Call
  unlinks : Server → ℕ → ℕ → String → Call

unfoldable pub step : Call → Engine → Engine
step (opens server inode) e = (open_inode server inode e).0
step (closes server inode) e = (close server inode e).0
step (unlinks server now parent name) e = (unlink_open server now parent name e).0

unfoldable pub steps : List Call → Engine → Engine
steps [] e = e
steps (c ∷ calls) e = steps calls (step c e)
