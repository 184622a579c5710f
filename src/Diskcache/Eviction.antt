-- ===== src/Diskcache/Eviction.antt =====
-- The bounds of the clean cache, and what `evict` takes to meet them.
use memorylayer_storage.Prelude.{
  ℕ, ◌+◌, ◌-◌, ◌≤◌, ◌≡◌, refl, ap, ◌∙◌, Bool, true, false, ◌&&◌, ◌||◌, Option, none, some, List, [],
  ◌∷◌, ◌++◌, length, ltb, ◌==◌, arith, any, subst, Bool-cases, inl, inr, if◌then◌else◌,
}
use memorylayer_storage.Meta.Slices.Content.{any-append}
use memorylayer_storage.Diskcache.{
  Limits, Entry, Clean, put_file, size_of, without, add_lru, over, evict_from, evict,
  free_space_evict_bytes,
}

unfoldable pub total : List Entry → ℕ
total [] = 0
total (e ∷ lru) = e.size + total lru

-- The bytes are those of the entries.
abbrev pub IsCounted : Clean → Type 0
IsCounted c = c.cur_bytes ≡ total c.lru

-- Whether a list of entries is over a limit that is set, or fewer bytes are given back than are wanted.
abbrev pub exceeds : Limits → ℕ → ℕ → List Entry → Bool
exceeds limits target freed lru =
    (ltb 0 limits.max_bytes && ltb limits.max_bytes (total lru))
    || ((ltb 0 limits.max_items && ltb limits.max_items (length lru)) || ltb freed target)

-- Each entry of `taken` goes for a reason: with it and those behind it, the cache is over a limit.
abbrev pub AreNeeded : Limits → ℕ → ℕ → List Entry → List Entry → Type 0
AreNeeded limits target freed [] left = Unit
AreNeeded limits target freed (e ∷ taken) left =
    (exceeds limits target freed (e ∷ (taken ++ left)) ≡ true)
    × AreNeeded limits target (freed + e.size) taken left

-- After an eviction: what it took from the back of the list, and no more than it had to, with the files.
pub record Trimmed (limits : Limits) (target freed : ℕ) (lru : List Entry) (c r : Clean)
    : Type 0 where
  pub taken : List Entry
  pub split : lru ≡ taken ++ r.lru
  pub needed : AreNeeded limits target freed taken r.lru
  pub enough : exceeds limits target (freed + total taken) r.lru ≡ false
  pub counted : IsCounted r
  pub files : (j : ℕ) → r.files j ≡ (if any (λ e. e.id == j) taken then none else c.files j)

if_or :
    (a b : Bool) (v : Option (List ℕ))
    → (if b then none else (if a then none else v)) ≡ (if a || b then none else v)
if_or true true v = refl
if_or true false v = refl
if_or false true v = refl
if_or false false v = refl

evict_from-Trimmed :
    (limits : Limits) (target freed : ℕ) (lru : List Entry) (c : Clean)
    → c.cur_bytes ≡ total lru
    → target ≤ freed + c.cur_bytes
    → Trimmed limits target freed lru c (evict_from limits target freed lru c)
unfolding evict_from total
evict_from-Trimmed limits target freed [] c e h = record {
  taken = [];
  split = refl;
  needed = tt;
  enough = ground (arith, e, h);
  counted = e;
  files = λ j. refl;
}
evict_from-Trimmed limits target freed (x ∷ lru) c e h =
    elim (Bool-cases (over limits target freed (length (x ∷ lru)) c.cur_bytes)) [
      | inl goes ↦
          let c' : Clean = record c {
            files = put_file x.id none c.files;
            cur_bytes = c.cur_bytes - x.size;
          } in
          let t =
            evict_from-Trimmed limits target (freed + x.size) lru c' (omega (arith, e))
              (omega (arith, e, h)) in
          let sum : (freed + x.size) + total t.taken ≡ freed + (x.size + total t.taken) =
            omega arith in
          rw (evict_from, goes)
            (record {
              taken = x ∷ t.taken;
              split = ap (◌∷◌ x) t.split;
              needed = (
                subst (λ l. exceeds limits target freed (x ∷ l) ≡ true) t.split
                    (ground (arith, goes, e)),
                t.needed,
              );
              enough =
                  subst
                    (λ n.
                      exceeds limits target n (evict_from limits target (freed + x.size) lru c').lru
                      ≡ false)
                    sum t.enough;
              counted = t.counted;
              files = λ j. t.files j ∙ if_or (x.id == j) (any (λ y. y.id == j) t.taken) (c.files j);
            })
      | inr stops ↦
          rw (evict_from, stops)
            (record {
              taken = [];
              split = refl;
              needed = tt;
              enough = ground (arith, stops, e, h);
              counted = e;
              files = λ j. refl;
            })
    ]

-- No id stands in the list twice.
abbrev pub IsDistinct : List Entry → Type 0
IsDistinct [] = Unit
IsDistinct (e ∷ lru) = (any (λ x. x.id == e.id) lru ≡ false) × IsDistinct lru

total-absent :
    (id : ℕ) (lru : List Entry)
    → any (λ x. x.id == id) lru ≡ false
    → (total (without id lru) ≡ total lru) × (size_of id lru ≡ 0)
unfolding total without
total-absent id [] h = (refl, refl)
total-absent id (e ∷ lru) h = ground (arith, h, total-absent id lru)

total-without :
    (id : ℕ) (lru : List Entry)
    → IsDistinct lru
    → total (without id lru) + size_of id lru ≡ total lru
unfolding total without
total-without id [] v = omega arith
total-without id (e ∷ lru) v = elim (Bool-cases (e.id == id)) [
  | inl mine ↦
      let here : e.id ≡ id = ground (arith, mine) in
      let gone = total-absent id lru (subst (λ i. any (λ x. x.id == i) lru ≡ false) here v.0) in
      rw mine (omega (arith, gone.0, gone.1))
  | inr other ↦ rw other (omega (arith, total-without id lru v.1))
]

total-append : (xs ys : List Entry) → total (xs ++ ys) ≡ total xs + total ys
unfolding total
total-append [] ys = omega arith
total-append (x ∷ xs) ys = omega (arith, total-append xs ys)

add_lru-IsCounted :
    (id size : ℕ) (c : Clean) → IsCounted c → IsDistinct c.lru → IsCounted (add_lru id size c)
unfolding add_lru total
add_lru-IsCounted id size c counted distinct = omega (
  arith,
  counted,
  total-without id c.lru distinct,
  total-append (without id c.lru) (record { id = id; size = size } ∷ []),
)

absent-without :
    (i id : ℕ) (lru : List Entry)
    → any (λ x. x.id == i) lru ≡ false
    → any (λ x. x.id == i) (without id lru) ≡ false
unfolding without
absent-without i id [] h = refl
absent-without i id (e ∷ lru) h = ground (arith, h, absent-without i id lru)

absent_self : (id : ℕ) (lru : List Entry) → any (λ x. x.id == id) (without id lru) ≡ false
unfolding without
absent_self id [] = refl
absent_self id (e ∷ lru) = ground (arith, absent_self id lru)

without-IsDistinct : (id : ℕ) (lru : List Entry) → IsDistinct lru → IsDistinct (without id lru)
unfolding without
without-IsDistinct id [] v = tt
without-IsDistinct id (e ∷ lru) v = elim (Bool-cases (e.id == id)) [
  | inl mine ↦ rw mine (without-IsDistinct id lru v.1)
  | inr other ↦ rw other (absent-without e.id id lru v.0, without-IsDistinct id lru v.1)
]

append-IsDistinct :
    (e : Entry) (lru : List Entry)
    → any (λ x. x.id == e.id) lru ≡ false
    → IsDistinct lru
    → IsDistinct (lru ++ e ∷ [])
append-IsDistinct e [] h v = (refl, tt)
append-IsDistinct e (x ∷ lru) h v = (
  any-append (λ y. y.id == x.id) lru (e ∷ []) ∙ ground (arith, h, v.0),
  append-IsDistinct e lru (ground (arith, h)) v.1,
)

rest-IsDistinct : (xs ys : List Entry) → IsDistinct (xs ++ ys) → IsDistinct ys
rest-IsDistinct [] ys v = v
rest-IsDistinct (x ∷ xs) ys v = rest-IsDistinct xs ys v.1

target_within : (free : Option (ℕ × ℕ)) (n : ℕ) → free_space_evict_bytes free n ≤ 0 + n
unfolding free_space_evict_bytes
target_within none n = omega arith
target_within (some disk) n = ground arith

-- A slice that comes into the clean cache starts an eviction that takes entries from the back of the list
-- and no more than it has to: each that it takes leaves the cache over a limit that is set, or the disk
-- short of free space, if it stays, and what is left is over none. The files of the entries that it takes
-- are removed and no other, the bytes are counted right, and no slice is listed twice.
pub evict-add_lru-Trimmed :
    (limits : Limits) (free : Option (ℕ × ℕ)) (id size : ℕ) (c : Clean)
    → IsCounted c
    → IsDistinct c.lru
    → Trimmed limits
        (free_space_evict_bytes free (add_lru id size c).cur_bytes)
        0
        (without id c.lru ++ record { id = id; size = size } ∷ [])
        c
        (evict limits free (add_lru id size c))
      × IsDistinct (evict limits free (add_lru id size c)).lru
unfolding add_lru evict
evict-add_lru-Trimmed limits free id size c counted distinct =
    let d = add_lru id size c in
    let t =
      evict_from-Trimmed limits (free_space_evict_bytes free d.cur_bytes) 0 d.lru d
        (add_lru-IsCounted id size c counted distinct) (target_within free d.cur_bytes) in
    (
      record {
        taken = t.taken;
        split = t.split;
        needed = t.needed;
        enough = t.enough;
        counted = t.counted;
        files = t.files;
      },
      rest-IsDistinct t.taken (evict limits free d).lru (subst IsDistinct t.split grown),
    )
  where
    grown : IsDistinct (add_lru id size c).lru
    grown =
        append-IsDistinct (record { id = id; size = size }) (without id c.lru)
          (absent_self id c.lru) (without-IsDistinct id c.lru distinct)
