-- ===== src/Fileio/Resolve/Intervals.antt =====
-- Sorted interval sets: what `subtract` and `addCovered` compute, byte by byte.
use memorylayer_storage.Prelude.{
  ℕ, ◌≤◌, ◌<◌, ◌≡◌, refl, ◌∙◌, Bool, false, ◌&&◌, ◌||◌, not, List, [], ◌∷◌, ◌++◌, arith, ltb, leb,
  if◌then◌else◌, All, All-append, Bool-cases, inl, inr,
}
use memorylayer_storage.Fileio.Resolve.{
  Iv, min32, subtract_from, subtract, insert_iv, sort_ivs, merge_from, merge_ivs, add_covered,
}

abbrev pub in_iv : ℕ → Iv → Bool
in_iv x c = leb c.a x && ltb x c.b

-- The byte `x` is in some interval.
unfoldable pub in_ivs : ℕ → List Iv → Bool
in_ivs x [] = false
in_ivs x (c ∷ ivs) = in_iv x c || in_ivs x ivs

-- Intervals that are not empty, in order and disjoint, from `lo` on.
abbrev pub IsChain : ℕ → List Iv → Type 0
IsChain lo [] = Unit
IsChain lo (c ∷ ivs) = (lo ≤ c.a) × (c.a < c.b) × IsChain c.b ivs

IsChain-mono : (lo hi : ℕ) (ivs : List Iv) → IsChain hi ivs → lo ≤ hi → IsChain lo ivs
IsChain-mono lo hi [] v h = tt
IsChain-mono lo hi (c ∷ ivs) v h = (omega arith, v.1, v.2)

pub in_ivs-below : (x lo : ℕ) (ivs : List Iv) → IsChain lo ivs → x < lo → in_ivs x ivs ≡ false
unfolding in_ivs
in_ivs-below x lo [] v h = refl
in_ivs-below x lo (c ∷ ivs) v h = ground (arith, in_ivs-below x c.b ivs v.2)

in_ivs-append : (x : ℕ) (xs ys : List Iv) → in_ivs x (xs ++ ys) ≡ (in_ivs x xs || in_ivs x ys)
unfolding in_ivs
in_ivs-append x [] ys = refl
in_ivs-append x (c ∷ xs) ys = ground (arith, in_ivs-append x xs ys)

-- The gap before `c` and what is left after it.
gap :
    (x b cur : ℕ) (c : Iv) (rest covered : List Iv)
    → (leb c.b cur || leb b c.a) ≡ false
    → in_ivs x rest ≡ (leb c.b x && ltb x b && not (in_ivs x covered))
    → (x < c.b → in_ivs x covered ≡ false)
    → c.a < c.b
    → (in_ivs x (if ltb cur c.a then record { a = cur; b = min32 c.a b } ∷ [] else [])
        || in_ivs x (if leb b c.b then [] else rest))
      ≡ (leb cur x && ltb x b && not (in_iv x c || in_ivs x covered))
unfolding in_ivs min32
gap x b cur c rest covered on e f h = ground arith

in_ivs-subtract_from :
    (x lo b cur : ℕ) (covered : List Iv)
    → IsChain lo covered
    → in_ivs x (subtract_from b cur covered) ≡ (leb cur x && ltb x b && not (in_ivs x covered))
unfolding in_ivs subtract_from min32
in_ivs-subtract_from x lo b cur [] v = ground arith
in_ivs-subtract_from x lo b cur (c ∷ covered) v = elim (Bool-cases (leb c.b cur || leb b c.a)) [
  | inl skip ↦
      rw (skip, in_ivs-subtract_from x c.b b cur covered v.2)
        (ground (arith, in_ivs-below x c.b covered v.2))
  | inr on ↦ rw on (
      in_ivs-append x (if ltb cur c.a then _ else _)
        (if leb b c.b then [] else subtract_from b c.b covered)
      ∙ gap x b cur c (subtract_from b c.b covered) covered on
          (in_ivs-subtract_from x c.b b c.b covered v.2) (in_ivs-below x c.b covered v.2) v.1)
]

-- `subtract` leaves the bytes of [a, b) that the covered set does not have, exactly.
pub in_ivs-subtract :
    (x lo a b : ℕ) (covered : List Iv)
    → IsChain lo covered
    → in_ivs x (subtract a b covered) ≡ (leb a x && ltb x b && not (in_ivs x covered))
unfolding subtract
in_ivs-subtract x lo a b covered v = in_ivs-subtract_from x lo b a covered v

-- What is left comes in order, and no part of it is empty.
pub subtract_from-IsChain :
    (lo b cur : ℕ) (covered : List Iv)
    → IsChain lo covered
    → IsChain cur (subtract_from b cur covered)
unfolding subtract_from min32
subtract_from-IsChain lo b cur [] v = ground arith
subtract_from-IsChain lo b cur (c ∷ covered) v = ground (
  arith,
  subtract_from-IsChain c.b b cur covered v.2,
  subtract_from-IsChain c.b b c.b covered v.2,
  IsChain-mono cur c.b (subtract_from b c.b covered),
  IsChain-mono (min32 c.a b) c.b (subtract_from b c.b covered),
)

-- Intervals that are not empty, by their left ends, from `lo` on.
abbrev IsAscending : ℕ → List Iv → Type 0
IsAscending lo [] = Unit
IsAscending lo (c ∷ ivs) = (lo ≤ c.a) × (c.a < c.b) × IsAscending c.a ivs

abbrev IsNonempty : Iv → Type 0
IsNonempty c = c.a < c.b

IsAscending-mono : (lo hi : ℕ) (ivs : List Iv) → IsAscending hi ivs → lo ≤ hi → IsAscending lo ivs
IsAscending-mono lo hi [] v h = tt
IsAscending-mono lo hi (c ∷ ivs) v h = (omega arith, v.1, v.2)

IsChain-All : (lo : ℕ) (ivs : List Iv) → IsChain lo ivs → All IsNonempty ivs
IsChain-All lo [] v = tt
IsChain-All lo (c ∷ ivs) v = (v.1, IsChain-All c.b ivs v.2)

in_ivs-insert_iv :
    (x : ℕ) (c : Iv) (ivs : List Iv) → in_ivs x (insert_iv c ivs) ≡ (in_iv x c || in_ivs x ivs)
unfolding in_ivs insert_iv
in_ivs-insert_iv x c [] = refl
in_ivs-insert_iv x c (d ∷ ivs) = ground (arith, in_ivs-insert_iv x c ivs)

in_ivs-sort_ivs : (x : ℕ) (ivs : List Iv) → in_ivs x (sort_ivs ivs) ≡ in_ivs x ivs
unfolding in_ivs sort_ivs
in_ivs-sort_ivs x [] = refl
in_ivs-sort_ivs x (c ∷ ivs) =
    ground (arith, in_ivs-insert_iv x c (sort_ivs ivs), in_ivs-sort_ivs x ivs)

insert_iv-IsAscending :
    (lo : ℕ) (c : Iv) (ivs : List Iv)
    → lo ≤ c.a
    → c.a < c.b
    → IsAscending lo ivs
    → IsAscending lo (insert_iv c ivs)
unfolding insert_iv
insert_iv-IsAscending lo c [] h n v = (h, n, tt)
insert_iv-IsAscending lo c (d ∷ ivs) h n v = ground (arith, insert_iv-IsAscending d.a c ivs)

sort_ivs-IsAscending : (ivs : List Iv) → All IsNonempty ivs → IsAscending 0 (sort_ivs ivs)
unfolding sort_ivs
sort_ivs-IsAscending [] v = tt
sort_ivs-IsAscending (c ∷ ivs) v =
    insert_iv-IsAscending 0 c (sort_ivs ivs) (omega arith) v.0 (sort_ivs-IsAscending ivs v.1)

in_ivs-merge_from :
    (x : ℕ) (last : Iv) (ivs : List Iv)
    → IsAscending last.a ivs
    → in_ivs x (merge_from last ivs) ≡ (in_iv x last || in_ivs x ivs)
unfolding in_ivs merge_from
in_ivs-merge_from x last [] v = refl
in_ivs-merge_from x last (c ∷ ivs) v =
    let wide : Iv = record last { b = if ltb last.b c.b then c.b else last.b } in
    ground (
      arith,
      in_ivs-merge_from x c ivs v.2,
      in_ivs-merge_from x wide ivs (IsAscending-mono last.a c.a ivs v.2 v.0),
    )

merge_from-IsChain :
    (lo : ℕ) (last : Iv) (ivs : List Iv)
    → lo ≤ last.a
    → last.a < last.b
    → IsAscending last.a ivs
    → IsChain lo (merge_from last ivs)
unfolding merge_from
merge_from-IsChain lo last [] h n v = (h, n, tt)
merge_from-IsChain lo last (c ∷ ivs) h n v =
    let wide : Iv = record last { b = if ltb last.b c.b then c.b else last.b } in
    ground (
      arith,
      merge_from-IsChain last.b c ivs,
      merge_from-IsChain lo wide ivs h (ground arith) (IsAscending-mono last.a c.a ivs v.2 v.0),
    )

merge_ivs_facts :
    (x : ℕ) (ivs : List Iv)
    → IsAscending 0 ivs
    → (in_ivs x (merge_ivs ivs) ≡ in_ivs x ivs) × IsChain 0 (merge_ivs ivs)
unfolding merge_ivs in_ivs
merge_ivs_facts x [] v = (refl, tt)
merge_ivs_facts x (c ∷ ivs) v =
    (in_ivs-merge_from x c ivs v.2, merge_from-IsChain 0 c ivs (omega arith) v.1 v.2)

-- `addCovered` adds the bytes of [a, b) and no others, and returns an interval set in order again.
pub add_covered_lem :
    (x lo a b : ℕ) (covered : List Iv)
    → IsChain lo covered
    → a < b
    → (in_ivs x (add_covered covered a b) ≡ (in_ivs x covered || (leb a x && ltb x b)))
      × IsChain 0 (add_covered covered a b)
unfolding add_covered in_ivs
add_covered_lem x lo a b covered v h =
    let all = covered ++ record { a = a; b = b } ∷ [] in
    let asc = sort_ivs-IsAscending all (
      All-append IsNonempty covered (record { a = a; b = b } ∷ []) (IsChain-All lo covered v)
        (h, tt)) in
    let facts = merge_ivs_facts x (sort_ivs all) asc in
    (
      ground (
        arith,
        facts.0,
        in_ivs-sort_ivs x all,
        in_ivs-append x covered (record { a = a; b = b } ∷ []),
      ),
      facts.1,
    )
