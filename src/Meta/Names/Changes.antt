-- ===== src/Meta/Names/Changes.antt =====
-- What a name leads to after the operations that add, remove and exchange names.
use Prim.Native.String.{String}
use text.Mathlib.TextEquality.{eq_iff}
use memorylayer_storage.Prelude.{
  ℕ, ◌≡◌, refl, ap, ◌∙◌, Bool, false, Option, none, some, List, [], ◌∷◌, ◌++◌, ◌==◌, if◌then◌else◌,
  arith, Bool-cases, Option-cases, inl, inr,
}
use memorylayer_storage.Meta.Errno.{ok, Server}
use memorylayer_storage.Meta.Names.{
  Edge, Tree, is_edge, find_edge, delete_edge, has_children, point_edge, drop_link,
  delete_inode_rows, unlink, rmdir, create,
}
use memorylayer_storage.Meta.Names.Rename.{rename_exchange}
use memorylayer_storage.Meta.Names.Entries.{
  same_name, find_edge-delete_edge, find_edge-append, find_edge-append_other, find_edge-same_name,
}

edges-drop_link :
    (is_open : ℕ → Bool) (now inode : ℕ) (t : Tree)
    → (drop_link is_open now inode t).0.edges ≡ t.edges
unfolding drop_link delete_inode_rows
edges-drop_link is_open now inode t = ground arith

-- After an unlink that succeeds the name leads to nothing, and every other name to what it led to.
pub find_edge-unlink :
    (server : Server) (is_open : ℕ → Bool) (now p : ℕ) (n : String) (t : Tree)
    → (unlink server is_open now p n t).1 ≡ ok
    → (q : ℕ) (m : String)
    → find_edge q m (unlink server is_open now p n t).0.edges
      ≡ (if same_name p n q m then none else find_edge q m t.edges)
unfolding unlink
find_edge-unlink server is_open now p n t h q m = elim (Option-cases (find_edge p n t.edges)) [
  | inl missing ↦ absurd (ground (arith, h, missing))
  | inr (e, s) ↦
      let kept =
        edges-drop_link is_open now e.inode (record t { edges = delete_edge p n t.edges }) in
      ground (arith, h, s, ap (find_edge q m) kept, find_edge-delete_edge p n q m t.edges)
]

-- A directory that is removed had no entries; its name leads to nothing from then on, and every other
-- name to what it led to.
pub find_edge-rmdir :
    (server : Server) (now p : ℕ) (n : String) (t : Tree) (e : Edge)
    → find_edge p n t.edges ≡ some e
    → (rmdir server now p n t).1 ≡ ok
    → (has_children e.inode t.edges ≡ false)
      × ((q : ℕ) (m : String)
          → find_edge q m (rmdir server now p n t).0.edges
            ≡ (if same_name p n q m then none else find_edge q m t.edges))
unfolding rmdir
find_edge-rmdir server now p n t e s h =
    (ground (arith, s, h), λ q m. ground (arith, s, h, find_edge-delete_edge p n q m t.edges))

added :
    (e : Edge) (q : ℕ) (m : String) (edges : List Edge)
    → find_edge e.parent e.name edges ≡ none
    → find_edge q m (edges ++ e ∷ [])
      ≡ (if same_name e.parent e.name q m then some e else find_edge q m edges)
added e q m edges free = elim (Bool-cases (same_name e.parent e.name q m)) [
  | inl here ↦
      rw
        (
          find_edge-append q m e edges (find_edge-same_name e.parent e.name q m edges here ∙ free),
          here,
        )
        refl
  | inr there ↦ rw (find_edge-append_other q m e edges there, there) refl
]

-- A creation that succeeds adds the name, which led to nothing, for the new inode, and no other name.
pub find_edge-create :
    (server : Server) (now ino p : ℕ) (n : String) (typ length : ℕ) (target : Option String)
    (t : Tree)
    → (create server now ino p n typ length target t).1 ≡ ok
    → (find_edge p n t.edges ≡ none)
      × ((q : ℕ) (m : String)
          → find_edge q m (create server now ino p n typ length target t).0.edges ≡ (
              if same_name p n q m
              then some (record { parent = p; name = n; inode = ino; typ = typ })
              else find_edge q m t.edges))
unfolding create
find_edge-create server now ino p n typ length target t h = (
  ground (arith, h),
  λ q m. elim (Option-cases (find_edge p n t.edges)) [
    | inl free ↦ ground (
      arith,
      h,
      free,
      added (record { parent = p; name = n; inode = ino; typ = typ }) q m t.edges free,
    )
    | inr (e, s) ↦ absurd (ground (arith, h, s))
  ],
)

point_edge_other :
    (p : ℕ) (n : String) (i typ : ℕ) (q : ℕ) (m : String) (edges : List Edge)
    → same_name p n q m ≡ false
    → find_edge q m (point_edge p n i typ edges) ≡ find_edge q m edges
unfolding find_edge point_edge
point_edge_other p n i typ q m [] h = refl
point_edge_other p n i typ q m (d ∷ edges) h =
    ground (
      arith,
      h,
      point_edge_other p n i typ q m edges h,
      eq_iff d.name n,
      eq_iff d.name m,
      eq_iff n m,
    )

point_edge_here :
    (p : ℕ) (n : String) (i typ : ℕ) (edges : List Edge) (e : Edge)
    → find_edge p n edges ≡ some e
    → find_edge p n (point_edge p n i typ edges) ≡ some (record e { inode = i; typ = typ })
unfolding find_edge point_edge
point_edge_here p n i typ [] e h = ground (arith, h)
point_edge_here p n i typ (d ∷ edges) e h = elim (Bool-cases (is_edge p n d)) [
  | inl here ↦
      let same : d ≡ e = ground (arith, here, h) in
      rw (here, here) (ap (λ (x : Edge). some (record x { inode = i; typ = typ })) same)
  | inr there ↦ rw (there, there) (point_edge_here p n i typ edges e (ground (arith, there, h)))
]

pointed :
    (p : ℕ) (n : String) (i typ : ℕ) (q : ℕ) (m : String) (edges : List Edge) (e : Edge)
    → find_edge p n edges ≡ some e
    → find_edge q m (point_edge p n i typ edges) ≡ (
        if same_name p n q m then some (record e { inode = i; typ = typ }) else find_edge q m edges)
pointed p n i typ q m edges e h = elim (Bool-cases (same_name p n q m)) [
  | inl here ↦ rw here (
      find_edge-same_name p n q m (point_edge p n i typ edges) here
      ∙ point_edge_here p n i typ edges e h)
  | inr there ↦ rw there (point_edge_other p n i typ q m edges there)
]

exchanged :
    (p : ℕ) (n : String) (p' : ℕ) (n' : String) (q : ℕ) (m : String) (edges : List Edge)
    (src dst : Edge)
    → find_edge p n edges ≡ some src
    → find_edge p' n' edges ≡ some dst
    → (src.inode == dst.inode) ≡ false
    → find_edge q m (point_edge p' n' src.inode src.typ (point_edge p n dst.inode dst.typ edges))
      ≡ (if same_name p' n' q m
          then some (record dst { inode = src.inode; typ = src.typ })
          else if same_name p n q m
          then some (record src { inode = dst.inode; typ = dst.typ })
          else find_edge q m edges)
exchanged p n p' n' q m edges src dst s d i =
    let apart : same_name p n p' n' ≡ false =
      ground (arith, s, d, i, find_edge-same_name p n p' n' edges) in
    let still = point_edge_other p n dst.inode dst.typ p' n' edges apart ∙ d in
    rw
      (
        pointed p' n' src.inode src.typ q m (point_edge p n dst.inode dst.typ edges) dst still,
        pointed p n dst.inode dst.typ q m edges src s,
      )
      refl

-- After an exchange of two names that succeeds each leads to the inode and the type of the other, and
-- every other name to what it led to; nothing changes where both lead to one inode.
pub find_edge-rename_exchange :
    (server : Server) (now p : ℕ) (n : String) (p' : ℕ) (n' : String) (t : Tree) (src dst : Edge)
    → find_edge p n t.edges ≡ some src
    → find_edge p' n' t.edges ≡ some dst
    → (rename_exchange server now p n p' n' t).1 ≡ ok
    → (q : ℕ) (m : String)
    → find_edge q m (rename_exchange server now p n p' n' t).0.edges ≡ (
        if src.inode == dst.inode
        then find_edge q m t.edges
        else if same_name p' n' q m
        then some (record dst { inode = src.inode; typ = src.typ })
        else if same_name p n q m
        then some (record src { inode = dst.inode; typ = dst.typ })
        else find_edge q m t.edges)
unfolding rename_exchange
find_edge-rename_exchange server now p n p' n' t src dst s d h q m =
    elim (Bool-cases (src.inode == dst.inode)) [
      | inl same ↦ rw same (ground (arith, s, d, same))
      | inr other ↦
          rw other
            (ground (arith, s, d, h, other, exchanged p n p' n' q m t.edges src dst s d other))
    ]
