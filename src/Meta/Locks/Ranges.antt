-- ===== src/Meta/Locks/Ranges.antt =====
-- What an owner holds at each byte, and what `split_range` makes of it.
use memorylayer_storage.Prelude.{
  ℕ, ◌+◌, ◌≤◌, ◌<◌, ◌^◌, ◌≡◌, refl, Bool, true, false, ◌&&◌, ◌||◌, not, List, [], ◌∷◌, ◌++◌, arith,
  leb, ◌==◌, if◌then◌else◌, All, All-append, Bool-cases, inl, inr,
}
use memorylayer_storage.Meta.Locks.{PlockRec, f_unlck, trim, trim_all, split_range}

-- The byte `x` is in the record's range, and the record's type and process pass the test `p`.
abbrev pub covers : (ℕ → ℕ → Bool) → ℕ → PlockRec → Bool
covers p x r = leb r.start x && leb x r.end && p r.typ r.pid

-- Some record that passes the test `p` covers the byte `x`.
unfoldable pub locked_by : (ℕ → ℕ → Bool) → ℕ → List PlockRec → Bool
locked_by p x [] = false
locked_by p x (r ∷ rs) = covers p x r || locked_by p x rs

-- The range of a record is not empty and its end is a 64-bit word.
pub record IsRange (r : PlockRec) : Type 0 where
  pub ordered : r.start ≤ r.end
  pub word : r.end < 2 ^ 64

pub locked_by-append :
    (p : ℕ → ℕ → Bool) (x : ℕ) (xs ys : List PlockRec)
    → locked_by p x (xs ++ ys) ≡ (locked_by p x xs || locked_by p x ys)
unfolding locked_by
locked_by-append p x [] ys = refl
locked_by-append p x (r ∷ rs) ys = ground (arith, locked_by-append p x rs ys)

locked_by-trim :
    (p : ℕ → ℕ → Bool) (x s e : ℕ) (r : PlockRec)
    → s ≤ e
    → IsRange r
    → locked_by p x (trim s e r) ≡ (if leb s x && leb x e then false else covers p x r)
unfolding locked_by trim
locked_by-trim p x s e r h v = ground arith

locked_by-trim_all :
    (p : ℕ → ℕ → Bool) (x s e : ℕ) (rs : List PlockRec)
    → s ≤ e
    → All IsRange rs
    → locked_by p x (trim_all s e rs) ≡ (if leb s x && leb x e then false else locked_by p x rs)
unfolding locked_by trim_all
locked_by-trim_all p x s e [] h v = ground arith
locked_by-trim_all p x s e (r ∷ rs) h v =
    rw
      (
        locked_by-append p x (trim s e r) (trim_all s e rs),
        locked_by-trim p x s e r h v.0,
        locked_by-trim_all p x s e rs h v.1,
      )
      (ground arith)

-- The bytes of the range get the new lock, or none at an unlock, and every other byte keeps what it
-- had: for every test on the type and the process, at every byte, of every record list whose ranges
-- are not empty and end below 2^64, for a range that is not empty.
pub locked_by-split_range :
    (p : ℕ → ℕ → Bool) (x : ℕ) (recs : List PlockRec) (typ s e pid : ℕ)
    → s ≤ e
    → All IsRange recs
    → locked_by p x (split_range recs typ s e pid)
      ≡ (if leb s x && leb x e then not (typ == f_unlck) && p typ pid else locked_by p x recs)
unfolding split_range locked_by
locked_by-split_range p x recs typ s e pid h v = elim (Bool-cases (typ == f_unlck)) [
  | inl u ↦ rw (u, locked_by-trim_all p x s e recs h v) (ground arith)
  | inr u ↦
      rw (u, locked_by-append p x (trim_all s e recs) _, locked_by-trim_all p x s e recs h v)
        (ground arith)
]

trim-IsRange : (s e : ℕ) (r : PlockRec) → IsRange r → All IsRange (trim s e r)
unfolding trim
trim-IsRange s e r v = ground arith

trim_all-IsRange : (s e : ℕ) (rs : List PlockRec) → All IsRange rs → All IsRange (trim_all s e rs)
unfolding trim_all
trim_all-IsRange s e [] v = tt
trim_all-IsRange s e (r ∷ rs) v =
    All-append IsRange (trim s e r) (trim_all s e rs) (trim-IsRange s e r v.0)
      (trim_all-IsRange s e rs v.1)

pub split_range-IsRange :
    (recs : List PlockRec) (typ s e pid : ℕ)
    → s ≤ e
    → e < 2 ^ 64
    → All IsRange recs
    → All IsRange (split_range recs typ s e pid)
unfolding split_range
split_range-IsRange recs typ s e pid h w v = elim (Bool-cases (typ == f_unlck)) [
  | inl u ↦ rw u (trim_all-IsRange s e recs v)
  | inr u ↦ rw u (
      All-append IsRange (trim_all s e recs) _ (trim_all-IsRange s e recs v)
        (record { ordered = h; word = w }, tt))
]

-- How many records cover a byte.
unfoldable pub depth_at : ℕ → List PlockRec → ℕ
depth_at x [] = 0
depth_at x (r ∷ rs) = (if covers (λ _ _. true) x r then 1 else 0) + depth_at x rs

depth_at-append :
    (x : ℕ) (xs ys : List PlockRec) → depth_at x (xs ++ ys) ≡ depth_at x xs + depth_at x ys
unfolding depth_at
depth_at-append x [] ys = omega arith
depth_at-append x (r ∷ rs) ys = omega (arith, depth_at-append x rs ys)

depth_at-trim :
    (x s e : ℕ) (r : PlockRec)
    → s ≤ e
    → IsRange r
    → depth_at x (trim s e r) ≡ (if leb s x && leb x e then 0 else depth_at x (r ∷ []))
unfolding depth_at trim
depth_at-trim x s e r h v = ground arith

depth_at-trim_all :
    (x s e : ℕ) (rs : List PlockRec)
    → s ≤ e
    → All IsRange rs
    → depth_at x (trim_all s e rs) ≡ (if leb s x && leb x e then 0 else depth_at x rs)
unfolding depth_at trim_all
depth_at-trim_all x s e [] h v = ground arith
depth_at-trim_all x s e (r ∷ rs) h v = ground (
  arith,
  depth_at-append x (trim s e r) (trim_all s e rs),
  depth_at-trim x s e r h v.0,
  depth_at-trim_all x s e rs h v.1,
)

-- The ranges of one owner stay disjoint: where at most one record covered each byte, at most one
-- does after a lock or an unlock of a range that is not empty.
pub split_range_disjoint :
    (recs : List PlockRec) (typ s e pid x : ℕ)
    → s ≤ e
    → All IsRange recs
    → depth_at x recs ≤ 1
    → depth_at x (split_range recs typ s e pid) ≤ 1
unfolding split_range depth_at
split_range_disjoint recs typ s e pid x h v d = ground (
  arith,
  depth_at-trim_all x s e recs h v,
  depth_at-append x (trim_all s e recs) (record { typ = typ; start = s; end = e; pid = pid } ∷ []),
)

pub locked_by_mono :
    (p q : ℕ → ℕ → Bool) (x : ℕ) (rs : List PlockRec)
    → ((t d : ℕ) → p t d ≡ true → q t d ≡ true)
    → locked_by p x rs ≡ true
    → locked_by q x rs ≡ true
unfolding locked_by
locked_by_mono p q x [] h l = l
locked_by_mono p q x (r ∷ rs) h l = ground (arith, h r.typ r.pid, locked_by_mono p q x rs h)
