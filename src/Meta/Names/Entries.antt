-- ===== src/Meta/Names/Entries.antt =====
-- What a name leads to after each operation on names.
use Prim.Native.String.{String}
use text.Mathlib.Text.{◌==◌ as str_eq}
use text.Mathlib.TextEquality.{eq_iff}
use memorylayer_storage.Prelude.{
  ℕ, ◌≡◌, ◌≢◌, refl, ap, ◌∙◌, Bool, true, false, ◌&&◌, Option, none, some, List, [], ◌∷◌, ◌++◌,
  ◌==◌, if◌then◌else◌, arith, Bool-cases, Option-cases, inl, inr,
}
use memorylayer_storage.Meta.Errno.{ok, Server}
use memorylayer_storage.Meta.Names.{Edge, Tree, is_edge, find_edge, delete_edge}
use memorylayer_storage.Meta.Names.Rename.{replace, move_edge, rename}

abbrev pub same_name : ℕ → String → ℕ → String → Bool
same_name p n q m = p == q && str_eq n m

pub find_edge-delete_edge :
    (p : ℕ) (n : String) (q : ℕ) (m : String) (edges : List Edge)
    → find_edge q m (delete_edge p n edges)
      ≡ (if same_name p n q m then none else find_edge q m edges)
unfolding find_edge delete_edge
find_edge-delete_edge p n q m [] = ground arith
find_edge-delete_edge p n q m (e ∷ edges) =
    ground
      (arith, find_edge-delete_edge p n q m edges, eq_iff e.name n, eq_iff e.name m, eq_iff n m)

pub find_edge-append :
    (q : ℕ) (m : String) (e : Edge) (edges : List Edge)
    → find_edge q m edges ≡ none
    → find_edge q m (edges ++ e ∷ []) ≡ (if is_edge q m e then some e else none)
unfolding find_edge
find_edge-append q m e [] h = refl
find_edge-append q m e (d ∷ edges) h = ground (arith, h, find_edge-append q m e edges)

pub find_edge-append_other :
    (q : ℕ) (m : String) (e : Edge) (edges : List Edge)
    → is_edge q m e ≡ false
    → find_edge q m (edges ++ e ∷ []) ≡ find_edge q m edges
unfolding find_edge
find_edge-append_other q m e [] h = ground (arith, h)
find_edge-append_other q m e (d ∷ edges) h = ground (arith, h, find_edge-append_other q m e edges)

pub find_edge-same_name :
    (p : ℕ) (n : String) (q : ℕ) (m : String) (edges : List Edge)
    → same_name p n q m ≡ true
    → find_edge q m edges ≡ find_edge p n edges
unfolding find_edge
find_edge-same_name p n q m [] h = refl
find_edge-same_name p n q m (e ∷ edges) h =
    ground
      (arith, h, find_edge-same_name p n q m edges h, eq_iff e.name n, eq_iff e.name m, eq_iff n m)

-- The edge under the new name, after it has moved.
abbrev moved : Edge → ℕ → String → Edge
moved src p n = record { parent = p; name = n; inode = src.inode; typ = src.typ }

-- The edges that a rename leaves: without the destination and the source, with the moved edge.
find_edge-moved :
    (src : Edge) (p : ℕ) (n : String) (p' : ℕ) (n' : String) (q : ℕ) (m : String)
    (edges : List Edge)
    → find_edge p' n' edges ≡ none
    → find_edge q m (delete_edge p n edges ++ moved src p' n' ∷ []) ≡ (
        if same_name p' n' q m
        then some (moved src p' n')
        else if same_name p n q m
        then none
        else find_edge q m edges)
find_edge-moved src p n p' n' q m edges free = elim (Bool-cases (same_name p' n' q m)) [
  | inl here ↦
      let none_there : find_edge q m (delete_edge p n edges) ≡ none = ground (
        arith,
        find_edge-delete_edge p n q m edges,
        find_edge-same_name p' n' q m edges here,
        free,
      ) in
      rw (find_edge-append q m (moved src p' n') (delete_edge p n edges) none_there, here) refl
  | inr there ↦
      find_edge-append_other q m (moved src p' n') (delete_edge p n edges) there
      ∙ rw (find_edge-delete_edge p n q m edges, there) refl
]

-- No edge is at the destination once it is deleted.
find_edge-deleted :
    (p : ℕ) (n : String) (edges : List Edge) → find_edge p n (delete_edge p n edges) ≡ none
find_edge-deleted p n edges = ground (arith, find_edge-delete_edge p n p n edges, eq_iff n n)

-- What a name leads to once the source has moved to the destination.
abbrev after_move : Edge → ℕ → String → ℕ → String → ℕ → String → List Edge → Option Edge
after_move src p n p' n' q m edges =
    if same_name p' n' q m
    then some (moved src p' n')
    else if same_name p n q m
    then none
    else find_edge q m edges

find_edge-replaced :
    (src : Edge) (p : ℕ) (n : String) (p' : ℕ) (n' : String) (q : ℕ) (m : String)
    (edges : List Edge)
    → find_edge q m (delete_edge p n (delete_edge p' n' edges) ++ moved src p' n' ∷ [])
      ≡ after_move src p n p' n' q m edges
find_edge-replaced src p n p' n' q m edges =
    find_edge-moved src p n p' n' q m (delete_edge p' n' edges) (find_edge-deleted p' n' edges)
    ∙ ground (arith, find_edge-delete_edge p' n' q m edges)

-- The destination is the inode that is to be moved.
abbrev stays : Option Edge → Edge → Bool
stays none src = false
stays (some dst) src = dst.inode == src.inode

rename_free :
    (server : Server) (no_replace : Bool) (now p : ℕ) (n : String) (p' : ℕ) (n' : String) (t : Tree)
    (src : Edge)
    → find_edge p n t.edges ≡ some src
    → find_edge p' n' t.edges ≡ none
    → (rename server no_replace now p n p' n' t).1 ≡ ok
    → (q : ℕ) (m : String)
    → find_edge q m (rename server no_replace now p n p' n' t).0.edges
      ≡ after_move src p n p' n' q m t.edges
unfolding rename move_edge
rename_free server no_replace now p n p' n' t src s f h q m =
    ground (arith, s, f, h, find_edge-moved src p n p' n' q m t.edges f)

edges_of : Option Tree → Option (List Edge)
edges_of none = none
edges_of (some t) = some t.edges

replace_edges :
    (server : Server) (now : ℕ) (src dst : Edge) (p' : ℕ) (n' : String) (t t' : Tree)
    → (replace server now src dst p' n' t).0 ≡ some t'
    → t'.edges ≡ delete_edge p' n' t.edges
unfolding replace
replace_edges server now src dst p' n' t t' h = ground (arith, h)

replace_errno :
    (server : Server) (now : ℕ) (src dst : Edge) (p' : ℕ) (n' : String) (t : Tree)
    → (replace server now src dst p' n' t).0 ≡ none
    → (replace server now src dst p' n' t).1 ≢ ok
unfolding replace
replace_errno server now src dst p' n' t h = ground (arith, h)

rename_over :
    (server : Server) (no_replace : Bool) (now p : ℕ) (n : String) (p' : ℕ) (n' : String) (t : Tree)
    (src dst : Edge)
    → find_edge p n t.edges ≡ some src
    → find_edge p' n' t.edges ≡ some dst
    → (dst.inode == src.inode) ≡ false
    → (rename server no_replace now p n p' n' t).1 ≡ ok
    → (q : ℕ) (m : String)
    → find_edge q m (rename server no_replace now p n p' n' t).0.edges
      ≡ after_move src p n p' n' q m t.edges
unfolding rename move_edge
rename_over server no_replace now p n p' n' t src dst s d i h q m =
    elim (Option-cases (replace server now src dst p' n' t).0) [
      | inl refused ↦
          absurd
            (ground (arith, s, d, i, h, refused, replace_errno server now src dst p' n' t refused))
      | inr (t', done) ↦
          let e = replace_edges server now src dst p' n' t t' done in
          ground (
            arith,
            s,
            d,
            i,
            h,
            done,
            ap (λ es. find_edge q m (delete_edge p n es ++ moved src p' n' ∷ [])) e
                ∙ find_edge-replaced src p n p' n' q m t.edges,
          )
    ]

rename_stays :
    (server : Server) (no_replace : Bool) (now p : ℕ) (n : String) (p' : ℕ) (n' : String) (t : Tree)
    (src dst : Edge)
    → find_edge p n t.edges ≡ some src
    → find_edge p' n' t.edges ≡ some dst
    → (dst.inode == src.inode) ≡ true
    → (rename server no_replace now p n p' n' t).0 ≡ t
unfolding rename
rename_stays server no_replace now p n p' n' t src dst s d i = ground (arith, s, d, i)

-- A rename that succeeds makes the new name lead to the source's inode and the old name to nothing,
-- and leaves every other name of every directory as it was; it changes nothing where both names lead
-- to the same inode.
pub find_edge-rename :
    (server : Server) (no_replace : Bool) (now p : ℕ) (n : String) (p' : ℕ) (n' : String) (t : Tree)
    (src : Edge)
    → find_edge p n t.edges ≡ some src
    → (rename server no_replace now p n p' n' t).1 ≡ ok
    → (q : ℕ) (m : String)
    → find_edge q m (rename server no_replace now p n p' n' t).0.edges ≡ (
        if stays (find_edge p' n' t.edges) src
        then find_edge q m t.edges
        else after_move src p n p' n' q m t.edges)
find_edge-rename server no_replace now p n p' n' t src s h q m =
    elim (Option-cases (find_edge p' n' t.edges)) [
      | inl free ↦ rw free (rename_free server no_replace now p n p' n' t src s free h q m)
      | inr (dst, d) ↦ elim (Bool-cases (dst.inode == src.inode)) [
        | inl same ↦
            rw (d, same)
              (ap (λ u. find_edge q m u.edges)
                (rename_stays server no_replace now p n p' n' t src dst s d same))
        | inr other ↦
            rw (d, other) (rename_over server no_replace now p n p' n' t src dst s d other h q m)
      ]
    ]
