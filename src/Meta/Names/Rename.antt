-- ===== src/Meta/Names/Rename.antt =====
-- `Rename` and `renameExchange` of mlfs/internal/meta/rename.go.
use Prim.Native.String.{String}
use memorylayer_storage.Prelude.{
  ℕ, ◌+◌, ◌-◌, Bool, true, false, ◌&&◌, not, Option, none, some, [], ◌∷◌, ◌++◌, ltb, ◌==◌,
  if◌then◌else◌, is_some,
}
use memorylayer_storage.Meta.Errno.{
  Errno, ok, enoent, eio, eisdir, enotdir, enotempty, eexist, Server, first_select, second_select,
  third_select, commit,
}
use memorylayer_storage.Meta.Slices.{type_directory}
use memorylayer_storage.Meta.Names.{
  Edge, Attr, Tree, find_edge, delete_edge, has_children, point_edge, update_node, set_at, touch,
  nlink_of, finish,
}

-- What the destination loses, `none` for the errno of a destination that may not be replaced. A
-- replaced directory takes a link from the parent.
unfoldable pub replace : Server → ℕ → Edge → Edge → ℕ → String → Tree → Option Tree × Errno
replace server now src dst parent_dst name_dst t =
    if dst.typ == type_directory && not (src.typ == type_directory)
    then (none, eisdir)
    else if not (dst.typ == type_directory) && src.typ == type_directory
    then (none, enotdir)
    else if dst.typ == type_directory
    then (if not (server third_select)
        then (none, eio)
        else if has_children dst.inode t.edges
        then (none, enotempty)
        else (
          some (record t {
            edges = delete_edge parent_dst name_dst t.edges;
            nodes = set_at dst.inode none t.nodes;
          }),
          ok,
        ))
    else if not (is_some (t.nodes dst.inode))
    then (none, eio)
    else let nodes =
        update_node dst.inode (λ a. record a { nlink = a.nlink - 1; ctime = now }) t.nodes in
      let gone = not (ltb 0 (nlink_of (nodes dst.inode))) in
      (
        some (record t {
          edges = delete_edge parent_dst name_dst t.edges;
          nodes = if gone then set_at dst.inode none nodes else nodes;
          symlinks = if gone then set_at dst.inode none t.symlinks else t.symlinks;
        }),
        ok,
      )

-- The changes of the link counts of the two parents: `up` first, so that no count stops at zero early.
abbrev pub add_links : ℕ → ℕ → ℕ → (ℕ → Option Attr) → ℕ → Option Attr
add_links inode up down nodes =
    update_node inode (λ a. record a { nlink = a.nlink + up - down }) nodes

-- Moving the edge, and the two parents; `replaced` tells that a directory was replaced.
unfoldable pub move_edge : ℕ → Edge → ℕ → String → ℕ → String → Bool → Tree → Tree
move_edge now src parent_src name_src parent_dst name_dst replaced t =
    let crosses = src.typ == type_directory && not (parent_src == parent_dst) in
    let moved =
      update_node src.inode (λ a. record a { parent = parent_dst; ctime = now }) t.nodes in
    let linked =
      add_links parent_src 0 (if crosses then 1 else 0)
        (add_links parent_dst (if crosses then 1 else 0) (if replaced then 1 else 0) moved) in
    record t {
      edges =
          delete_edge parent_src name_src t.edges
          ++ record { parent = parent_dst; name = name_dst; inode = src.inode; typ = src.typ } ∷ [];
      nodes = update_node parent_dst (touch now) (update_node parent_src (touch now) linked);
    }

-- The transaction of `Rename`, with the flag RENAME_NOREPLACE.
unfoldable pub rename : Server → Bool → ℕ → ℕ → String → ℕ → String → Tree → Tree × Errno
rename server no_replace now parent_src name_src parent_dst name_dst t =
    if not (server first_select) then (t, eio) else elim (find_edge parent_src name_src t.edges) [
      | none ↦ (t, enoent)
      | some src ↦
          if not (server second_select)
          then (t, eio)
          else elim (find_edge parent_dst name_dst t.edges) [
            | none ↦
                finish server t (move_edge now src parent_src name_src parent_dst name_dst false t)
            | some dst ↦
                if no_replace
                then (t, eexist)
                else if dst.inode == src.inode
                then (if server commit then (t, ok) else (t, eio))
                else let r = replace server now src dst parent_dst name_dst t in
                  elim r.0 [
                    | none ↦ (t, r.1)
                    | some t' ↦ finish server t (
                        move_edge now src parent_src name_src parent_dst name_dst
                          (dst.typ == type_directory) t')
                  ]
          ]
    ]

abbrev pub one_if : Bool → ℕ
one_if true = 1
one_if false = 0

-- The transaction of `renameExchange`.
unfoldable pub rename_exchange : Server → ℕ → ℕ → String → ℕ → String → Tree → Tree × Errno
rename_exchange server now parent_src name_src parent_dst name_dst t =
    if not (server first_select) then (t, eio) else elim (find_edge parent_src name_src t.edges) [
      | none ↦ (t, enoent)
      | some src ↦
          if not (server second_select)
          then (t, eio)
          else elim (find_edge parent_dst name_dst t.edges) [
            | none ↦ (t, enoent)
            | some dst ↦
                if src.inode == dst.inode
                then (if server commit then (t, ok) else (t, eio))
                else let up =
                    one_if (not (parent_src == parent_dst) && src.typ == type_directory) in
                  let down = one_if (not (parent_src == parent_dst) && dst.typ == type_directory) in
                  finish server t (record t {
                    edges =
                        point_edge parent_dst name_dst src.inode src.typ
                          (point_edge parent_src name_src dst.inode dst.typ t.edges);
                    nodes = update_node parent_dst (touch now) (
                        update_node parent_src (touch now) (
                          add_links parent_dst up down (
                            add_links parent_src down up (
                              update_node dst.inode
                                (λ a. record a { parent = parent_src; ctime = now })
                                (update_node src.inode
                                  (λ a. record a { parent = parent_dst; ctime = now }) t.nodes)))));
                  })
          ]
    ]
