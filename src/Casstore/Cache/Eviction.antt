-- ===== src/Casstore/Cache/Eviction.antt =====
-- The index keeps the sum of its sizes, and an eviction takes the oldest entries, no more than needed.
use memorylayer_storage.Prelude.{
  ℕ, ◌+◌, ◌-◌, ◌≤◌, ◌<◌, ◌≡◌, refl, ap, Option, none, some, List, [], ◌∷◌, ◌++◌, ltb, leb, arith,
  Bool-cases, inl, inr, length,
}
use memorylayer_storage.S3.Text.{Str}
use memorylayer_storage.Casstore.Cache.{
  CacheEntry, Index, collect, collect_evictions, add_entry, put, without, remove_entry,
}

unfoldable pub sizes : List CacheEntry → ℕ
sizes [] = 0
sizes (e ∷ entries) = e.size + sizes entries

abbrev pub IsCounted : Index → Type 0
IsCounted c = c.total ≡ sizes c.entries

sizes-append : (xs ys : List CacheEntry) → sizes (xs ++ ys) ≡ sizes xs + sizes ys
unfolding sizes
sizes-append [] ys = omega arith
sizes-append (e ∷ xs) ys = omega (arith, sizes-append xs ys)

-- The size of the youngest victim, zero where there is none.
pub last_size : List CacheEntry → ℕ
last_size [] = 0
last_size (e ∷ []) = e.size
last_size (e ∷ f ∷ entries) = last_size (f ∷ entries)

-- What an eviction leaves and takes: `entries` in two, within the budget, and over it with one more.
pub record Evicted (max_bytes : ℕ) (entries left victims : List CacheEntry) (total : ℕ)
    : Type 0 where
  pub split : victims ++ left ≡ entries
  pub counted : total ≡ sizes left
  pub within : total ≤ max_bytes
  pub needed : 0 < length victims → max_bytes < total + last_size victims

collect_more :
    (max_bytes : ℕ) (v : CacheEntry) (entries left victims : List CacheEntry) (total : ℕ)
    → max_bytes < v.size + sizes entries
    → Evicted max_bytes entries left victims total
    → Evicted max_bytes (v ∷ entries) left (v ∷ victims) total
unfolding last_size sizes
collect_more max_bytes v entries left [] total over e = record {
  split = ap (◌∷◌ v) e.split;
  counted = e.counted;
  within = e.within;
  needed = λ h. ground (arith, over, e.counted, ap sizes e.split);
}
collect_more max_bytes v entries left (w ∷ victims) total over e = record {
  split = ap (◌∷◌ v) e.split;
  counted = e.counted;
  within = e.within;
  needed = λ h. e.needed (omega arith);
}

collect_lem :
    (max_bytes : ℕ) (entries : List CacheEntry) (total : ℕ)
    → total ≡ sizes entries
    → (let out = collect max_bytes entries total in Evicted max_bytes entries out.0.0 out.1 out.0.1)
unfolding collect sizes
collect_lem max_bytes [] total h = record {
  split = refl;
  counted = h;
  within = omega (arith, h);
  needed = λ k. absurd (omega (arith, k));
}
collect_lem max_bytes (v ∷ entries) total h = elim (Bool-cases (ltb max_bytes total)) [
  | inl over ↦ rw over (
      collect_more max_bytes v entries _ _ _ (ground (arith, over, h))
        (collect_lem max_bytes entries (total - v.size) (omega (arith, h))))
  | inr fits ↦ rw fits (record {
    split = refl;
    counted = h;
    within = ground (arith, fits);
    needed = λ k. absurd (omega (arith, k));
  })
]

collect_evictions_lem :
    (c : Index)
    → IsCounted c
    → (let out = collect_evictions c in
        Evicted c.max_bytes c.entries out.0.entries out.1 out.0.total)
unfolding collect_evictions
collect_evictions_lem c v = elim (Bool-cases (leb c.total c.max_bytes)) [
  | inl fits ↦ rw fits (record {
    split = refl;
    counted = v;
    within = ground (arith, fits);
    needed = λ k. absurd (omega (arith, k));
  })
  | inr over ↦ rw over (collect_lem c.max_bytes c.entries c.total v)
]

-- A put into an index whose total is the sum of its sizes leaves such an index, within its budget; the
-- victims are the oldest entries of the list with the new one at its end, and with the last victim
-- back the index would be over its budget.
pub put-Evicted :
    (key : Str) (size : ℕ) (c : Index)
    → IsCounted c
    → (let out = put key size c in
        Evicted c.max_bytes
          (c.entries ++ record { cache_key = key; size = size } ∷ [])
          out.0.entries
          out.1
          out.0.total)
unfolding put add_entry sizes
put-Evicted key size c v =
    collect_evictions_lem (add_entry key size c)
      (omega (arith, v, sizes-append c.entries (record { cache_key = key; size = size } ∷ [])))

-- What an entry and the list without it measure, and the list where there is none.
abbrev measured : List CacheEntry → Option (CacheEntry × List CacheEntry) → ℕ
measured entries none = sizes entries
measured entries (some p) = p.0.size + sizes p.1

without_lem :
    (key : Str) (entries : List CacheEntry) → measured entries (without key entries) ≡ sizes entries
unfolding without sizes
without_lem key [] = refl
without_lem key (f ∷ entries) = ground (arith, without_lem key entries)

-- A delete, of an entry that is there or not, keeps the count.
pub remove_entry-IsCounted : (key : Str) (c : Index) → IsCounted c → IsCounted (remove_entry key c)
unfolding remove_entry
remove_entry-IsCounted key c v = ground (arith, v, without_lem key c.entries)
