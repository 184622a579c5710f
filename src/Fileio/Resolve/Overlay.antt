-- ===== src/Fileio/Resolve/Overlay.antt =====
-- The loop of `resolve` over the slices: what it has placed, and what remains.
use memorylayer_storage.Prelude.{
  ℕ, ◌+◌, ◌-◌, ◌≤◌, ◌<◌, ◌≡◌, Bool, true, false, ◌&&◌, ◌||◌, Option, none, some, List, [], ◌∷◌,
  ◌++◌, arith, ltb, leb, ◌==◌, if◌then◌else◌, All, All-append, Bool-cases, inl, inr, u32,
}
use memorylayer_storage.Meta.Slices.{SliceRef}
use memorylayer_storage.Meta.Slices.Content.{slice_piece, in_slice, newest, InChunk}
use memorylayer_storage.Fileio.Resolve.{
  Seg, Iv, Progress, sub32, subtract, add_covered, place, overlay, overlay_all,
}
use memorylayer_storage.Fileio.Resolve.Intervals.{
  in_iv, in_ivs, IsChain, in_ivs-below, in_ivs-subtract, subtract_from-IsChain, add_covered_lem,
}

-- Where the byte `x` is read from, by a segment that has it; `none` is a zero byte.
abbrev pub seg_piece : ℕ → Seg → Option (ℕ × ℕ)
seg_piece x g = if g.id == 0 then none else some (g.id, g.src_off + (x - g.start))

abbrev pub in_seg : ℕ → Seg → Bool
in_seg x g = leb g.start x && ltb x g.end

-- How many segments have the byte `x`.
unfoldable pub hits : ℕ → List Seg → ℕ
hits x [] = 0
hits x (g ∷ segs) = (if in_seg x g then 1 else 0) + hits x segs

-- The segment agrees with the specification at each of its bytes.
pub record Agrees (all : List SliceRef) (g : Seg) : Type 0 where
  pub at : (x : ℕ) → in_seg x g ≡ true → seg_piece x g ≡ newest x all

pub hits-append : (x : ℕ) (xs ys : List Seg) → hits x (xs ++ ys) ≡ hits x xs + hits x ys
unfolding hits
hits-append x [] ys = omega arith
hits-append x (g ∷ xs) ys = omega (arith, hits-append x xs ys)

-- The state of the loop: what is covered is placed once, and right.
pub record IsPlaced (all : List SliceRef) (p : Progress) : Type 0 where
  pub chain : IsChain 0 p.covered
  pub count : (x : ℕ) → hits x p.out ≡ (if in_ivs x p.covered then 1 else 0)
  pub agree : All (Agrees all) p.out

abbrev placed_seg : SliceRef → Iv → Seg
placed_seg s g = record {
  start = g.a;
  end = g.b;
  id = s.id;
  src_off = u32 (s.off + sub32 g.a s.pos);
}

placed_seg-Agrees :
    (all : List SliceRef) (s : SliceRef) (g : Iv)
    → InChunk s
    → g.a < g.b
    → ((x : ℕ) → in_iv x g ≡ true → (in_slice x s ≡ true) × (newest x all ≡ slice_piece x s))
    → Agrees all (placed_seg s g)
placed_seg-Agrees all s g fit full good = record { at = λ x h. ground (arith, good x h, good g.a) }

place_one :
    (all : List SliceRef) (s : SliceRef) (g : Iv) (p : Progress)
    → InChunk s
    → g.a < g.b
    → ((x : ℕ) → in_iv x g ≡ true → in_ivs x p.covered ≡ false)
    → ((x : ℕ) → in_iv x g ≡ true → (in_slice x s ≡ true) × (newest x all ≡ slice_piece x s))
    → IsPlaced all p
    → IsPlaced all
        (record { covered = add_covered p.covered g.a g.b; out = p.out ++ placed_seg s g ∷ [] })
unfolding hits
place_one all s g p fit full free good v = record {
  chain = (add_covered_lem 0 0 g.a g.b p.covered v.chain full).1;
  count = λ x. ground (
    arith,
    hits-append x p.out (placed_seg s g ∷ []),
    v.count x,
    free x,
    (add_covered_lem x 0 g.a g.b p.covered v.chain full).0,
  );
  agree = All-append (Agrees all) p.out _ v.agree (placed_seg-Agrees all s g fit full good, tt);
}

-- The gaps of one slice: free, and right for the slice.
record IsOpen (all : List SliceRef) (s : SliceRef) (gaps covered : List Iv) : Type 0 where
  free : (x : ℕ) → in_ivs x gaps ≡ true → in_ivs x covered ≡ false
  good : (x : ℕ) → in_ivs x gaps ≡ true → (in_slice x s ≡ true) × (newest x all ≡ slice_piece x s)

IsOpen-tail :
    (all : List SliceRef) (s : SliceRef) (lo : ℕ) (g : Iv) (gaps covered : List Iv)
    → IsChain lo (g ∷ gaps)
    → IsChain 0 covered
    → IsOpen all s (g ∷ gaps) covered
    → IsOpen all s gaps (add_covered covered g.a g.b)
unfolding in_ivs
IsOpen-tail all s lo g gaps covered c v o = record {
  free = λ x h.
      ground (
        arith,
        (add_covered_lem x 0 g.a g.b covered v c.1).0,
        o.free x,
        in_ivs-below x g.b gaps c.2,
      );
  good = λ x h. o.good x (ground (arith, h));
}

place_lem :
    (all : List SliceRef) (s : SliceRef) (lo : ℕ) (gaps : List Iv) (p : Progress)
    → InChunk s
    → IsChain lo gaps
    → IsOpen all s gaps p.covered
    → IsPlaced all p
    → IsPlaced all (place s gaps p)
      × ((x : ℕ) → in_ivs x (place s gaps p).covered ≡ (in_ivs x p.covered || in_ivs x gaps))
unfolding place in_ivs
place_lem all s lo [] p fit c o v = (v, λ x. ground arith)
place_lem all s lo (g ∷ gaps) p fit c o v =
    let one =
      place_one all s g p fit c.1 (λ x h. o.free x (ground (arith, h)))
        (λ x h. o.good x (ground (arith, h))) v in
    let rest =
      place_lem all s g.b gaps
        (record { covered = add_covered p.covered g.a g.b; out = p.out ++ placed_seg s g ∷ [] }) fit
        c.2 (IsOpen-tail all s lo g gaps p.covered c v.chain o) one in
    (rest.0, λ x. ground (arith, rest.1 x, (add_covered_lem x 0 g.a g.b p.covered v.chain c.1).0))

-- What the loop has still to look at decides every byte of the window that is not covered, and
-- nothing outside the window is covered.
pub record Remains (all todo : List SliceRef) (lo hi : ℕ) (p : Progress) : Type 0 where
  pub inside : (x : ℕ) → in_ivs x p.covered ≡ true → (lo ≤ x) × (x < hi)
  pub later : (x : ℕ) → lo ≤ x → x < hi → in_ivs x p.covered ≡ false → newest x all ≡ newest x todo

overlay_lem :
    (all todo : List SliceRef) (lo hi : ℕ) (s : SliceRef) (p : Progress)
    → InChunk s
    → IsPlaced all p
    → Remains all (s ∷ todo) lo hi p
    → IsPlaced all (overlay lo hi s p) × Remains all todo lo hi (overlay lo hi s p)
unfolding overlay newest subtract
overlay_lem all todo lo hi s p fit v r =
    let a : ℕ = if ltb s.pos lo then lo else s.pos in
    let b : ℕ = if ltb hi (u32 (s.pos + s.len)) then hi else u32 (s.pos + s.len) in
    elim (Bool-cases (leb b a)) [
      | inl none_left ↦
          rw none_left
            (v, record { inside = r.inside; later = λ x l h u. ground (arith, r.later x l h u) })
      | inr some_left ↦
          let sub = λ (x : ℕ). in_ivs-subtract x 0 a b p.covered v.chain in
          let done =
            place_lem all s a (subtract a b p.covered) p fit
              (subtract_from-IsChain 0 b a p.covered v.chain)
              (record {
                free = λ x h. ground (arith, sub x, h);
                good = λ x h. ground (arith, sub x, h, r.later x);
              })
              v in
          rw some_left (
            done.0,
            record {
              inside = λ x h. ground (arith, done.1 x, sub x, r.inside x, h);
              later = λ x l h u. ground (arith, done.1 x, sub x, r.later x l h, u);
            },
          )
    ]

pub overlay_all_lem :
    (all todo : List SliceRef) (lo hi : ℕ) (p : Progress)
    → All InChunk todo
    → IsPlaced all p
    → Remains all todo lo hi p
    → IsPlaced all (overlay_all lo hi todo p) × Remains all [] lo hi (overlay_all lo hi todo p)
unfolding overlay_all
overlay_all_lem all [] lo hi p fit v r = (v, r)
overlay_all_lem all (s ∷ todo) lo hi p fit v r =
    let (v', r') = overlay_lem all todo lo hi s p fit.0 v r in
    overlay_all_lem all todo lo hi (overlay lo hi s p) fit.1 v' r'
