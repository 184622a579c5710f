-- ===== src/Meta/Handles/Sustaining.antt =====
-- Files that are unlinked while they are open, until their last close.
use Prim.Native.String.{String}
use memorylayer_storage.Prelude.{
  ℕ, ◌-◌, ◌≡◌, refl, sym, subst, Bool, true, false, ◌&&◌, not, Option, none, some, List, [], ◌∷◌,
  ◌==◌, arith, keep, is_some, Bool-cases, Option-cases, inl, inr,
}
use memorylayer_storage.Meta.Errno.{ok, Server, write_row, commit}
use memorylayer_storage.Meta.Slices.{SliceRow, has_slice}
use memorylayer_storage.Meta.Names.{Tree, find_edge, delete_edge, delete_inode_rows, drop_link}
use memorylayer_storage.Meta.Handles.{
  Engine, open_inode, is_open, delete_closed, close, to_sustain, unlink_committed, mark_all,
  unlink_open, Call, opens, closes, unlinks, step, steps,
}

-- A sustained inode is open.
abbrev pub IsHeld : Engine → Type 0
IsHeld e = (i : ℕ) → e.sustained i ≡ true → is_open e i ≡ true

drop_link-is_open :
    (f : ℕ → Bool) (now i : ℕ) (t : Tree) → (drop_link f now i t).1 ≡ true → f i ≡ true
unfolding drop_link
drop_link-is_open f now i t h = ground (arith, h)

to_sustain-is_open :
    (e : Engine) (now p : ℕ) (n : String) (i : ℕ)
    → to_sustain e now p n ≡ some i
    → is_open e i ≡ true
unfolding to_sustain
to_sustain-is_open e now p n i h = elim (Option-cases (find_edge p n e.tree.edges)) [
  | inl none_eq ↦ absurd (ground (arith, h, none_eq))
  | inr (d, f) ↦
      let t : Tree = record e.tree { edges = delete_edge p n e.tree.edges } in
      elim (Bool-cases (drop_link (is_open e) now d.inode t).1) [
        | inr off ↦ absurd (ground (arith, h, f, off))
        | inl on ↦
            let here : d.inode ≡ i = ground (arith, h, f, on) in
            subst (λ k. is_open e k ≡ true) here (drop_link-is_open (is_open e) now d.inode t on)
      ]
]

open_inode-IsHeld :
    (server : Server) (inode : ℕ) (e : Engine) → IsHeld e → IsHeld (open_inode server inode e).0
unfolding open_inode
open_inode-IsHeld server inode e v i s = ground (arith, s, v i)

close-IsHeld :
    (server : Server) (inode : ℕ) (e : Engine) → IsHeld e → IsHeld (close server inode e).0
unfolding close delete_closed
close-IsHeld server inode e v i s =
    elim (Bool-cases (e.open_refs inode - 1 == 0 && e.sustained inode)) [
      | inl last ↦ elim (Bool-cases (inode == i)) [
        | inl mine ↦ absurd (ground (arith, s, last, mine))
        | inr other ↦ ground (arith, s, last, other, v i)
      ]
      | inr more ↦ elim (Bool-cases (inode == i)) [
        | inl mine ↦
            let here : inode ≡ i = ground (arith, mine) in
            let kept : e.sustained inode ≡ true =
              subst (λ k. e.sustained k ≡ true) (sym here) (ground (arith, s, more)) in
            ground (arith, s, more, mine, kept)
        | inr other ↦ ground (arith, s, more, other, v i)
      ]
    ]

mark_all-IsHeld :
    (m : Option ℕ) (e : Engine)
    → IsHeld e
    → ((d : ℕ) → m ≡ some d → is_open e d ≡ true)
    → IsHeld (mark_all m e)
mark_all-IsHeld none e v h i s = v i s
mark_all-IsHeld (some d) e v h i s = elim (Bool-cases (d == i)) [
  | inl mine ↦
      let here : d ≡ i = ground (arith, mine) in subst (λ k. is_open e k ≡ true) here (h d refl)
  | inr other ↦ v i (ground (arith, s, other))
]

unlink_committed-is_open :
    (server : Server) (now p : ℕ) (n : String) (e : Engine) (d : ℕ)
    → (unlink_committed server now p n e).2 ≡ some d
    → is_open e d ≡ true
unfolding unlink_committed
unlink_committed-is_open server now p n e d f = to_sustain-is_open e now p n d (ground (arith, f))

unlink_open-IsHeld :
    (server : Server) (now p : ℕ) (n : String) (e : Engine)
    → IsHeld e
    → IsHeld (unlink_open server now p n e).0
unfolding unlink_open unlink_committed
unlink_open-IsHeld server now p n e v =
    let r = unlink_committed server now p n e in
    mark_all-IsHeld r.2 r.0 v (unlink_committed-is_open server now p n e)

step-IsHeld : (c : Call) (e : Engine) → IsHeld e → IsHeld (step c e)
unfolding step
step-IsHeld (opens server i) e v = open_inode-IsHeld server i e v
step-IsHeld (closes server i) e v = close-IsHeld server i e v
step-IsHeld (unlinks server now p n) e v = unlink_open-IsHeld server now p n e v

-- After any calls one after the other, each inode that is sustained is open, so that a close of it is
-- still to come: of the calls that open, close and unlink, and whatever the server answers.
pub steps-IsHeld : (calls : List Call) (e : Engine) → IsHeld e → IsHeld (steps calls e)
unfolding steps
steps-IsHeld [] e v = v
steps-IsHeld (c ∷ calls) e v = steps-IsHeld calls (step c e) (step-IsHeld c e v)

-- Whether a close is the last of a sustained inode.
abbrev pub is_last : ℕ → Engine → Bool
is_last i e = e.open_refs i - 1 == 0 && e.sustained i

has_slice-keep :
    (i j id : ℕ) (rows : List SliceRow)
    → has_slice j id (keep (λ r. not (r.inode == i)) rows) ≡ (has_slice j id rows && not (j == i))
has_slice-keep i j id [] = refl
has_slice-keep i j id (r ∷ rows) =
    let rest = has_slice-keep i j id rows in
    elim (Bool-cases (r.inode == i)) [
      | inl mine ↦ rw mine (elim (Bool-cases (r.inode == j)) [
        | inl same ↦
            let here : (j == i) ≡ true = ground (arith, mine, same) in ground (arith, rest, here)
        | inr other ↦ ground (arith, rest, other)
      ])
      | inr apart ↦ rw apart (elim (Bool-cases (r.inode == j)) [
        | inl same ↦
            let there : (j == i) ≡ false = ground (arith, apart, same) in
            ground (arith, rest, there)
        | inr other ↦ ground (arith, rest, other)
      ])
    ]

-- With a server that carries it out, a close returns no error; the last close of a sustained inode
-- deletes the node of the inode and its slice rows, and no other close deletes a row, nor does any
-- close delete a row of another inode.
pub close_rows :
    (server : Server) (i : ℕ) (e : Engine) (j id : ℕ)
    → server write_row ≡ true
    → server commit ≡ true
    → ((close server i e).1 ≡ ok)
      × (is_some ((close server i e).0.tree.nodes j)
          ≡ (is_some (e.tree.nodes j) && not (is_last i e && i == j)))
      × (has_slice j id (close server i e).0.tree.slices
          ≡ (has_slice j id e.tree.slices && not (is_last i e && j == i)))
unfolding close delete_closed delete_inode_rows
close_rows server i e j id w c = elim (Bool-cases (is_last i e)) [
  | inr more ↦ rw (close, more) (refl, ground arith, ground arith)
  | inl last ↦
      let rows = has_slice-keep i j id e.tree.slices in
      rw (close, last, delete_closed, w, c)
        (
          refl,
          elim (Bool-cases (i == j)) [
            | inl mine ↦ rw mine (ground arith)
            | inr other ↦ rw other (ground arith)
          ],
          rows,
        )
]
