-- ===== src/Casstore/Cache.antt =====
-- The eviction index of `CacheStore`, in casstore/snapshot/store_cache.go. The index is in memory: the
-- entries of the cache, oldest first, and their total size. `Put` and a `Get` that misses add an entry
-- and evict; `Delete` takes one out. The stores themselves are not part of the model.
pub mod Eviction
mod Examples
use memorylayer_storage.Prelude.{
  ℕ, ◌+◌, ◌-◌, Bool, true, false, Option, none, some, List, [], ◌∷◌, ◌++◌, ltb, leb, ◌==◌,
  if◌then◌else◌,
}
use memorylayer_storage.S3.Text.{Str, str_eq}

pub record CacheEntry : Type 0 where
  pub cache_key : Str
  pub size : ℕ

-- `total` is never below zero while it is the sum of the sizes, so its subtraction is that of ℕ.
pub record Index : Type 0 where
  pub max_bytes : ℕ
  pub entries : List CacheEntry
  pub total : ℕ

-- The loop of `collectEvictions`: what is left, and the victims.
pub collect : ℕ → List CacheEntry → ℕ → (List CacheEntry × ℕ) × List CacheEntry
collect max_bytes [] total = (([], total), [])
collect max_bytes (v ∷ entries) total =
    let rest = collect max_bytes entries (total - v.size) in
    if ltb max_bytes total then (rest.0, v ∷ rest.1) else ((v ∷ entries, total), [])

pub collect_evictions : Index → Index × List CacheEntry
collect_evictions c =
    if leb c.total c.max_bytes
    then (c, [])
    else let left = collect c.max_bytes c.entries c.total in
      (record c { entries = left.0.0; total = left.0.1 }, left.1)

-- The index after a blob has been cached, before the eviction.
pub add_entry : Str → ℕ → Index → Index
add_entry key size c = record c {
  entries = c.entries ++ record { cache_key = key; size = size } ∷ [];
  total = c.total + size;
}

-- `Put`, and `Get` on a miss, when the local store takes the blob: the index, and the blobs that
-- `evict` deletes.
unfoldable pub put : Str → ℕ → Index → Index × List CacheEntry
put key size c = collect_evictions (add_entry key size c)

-- The first entry with the key is taken out of the list.
pub without : Str → List CacheEntry → Option (CacheEntry × List CacheEntry)
without key [] = none
without key (e ∷ entries) = elim (without key entries) [
  | none ↦ if str_eq e.cache_key key then some (e, entries) else none
  | some p ↦ if str_eq e.cache_key key then some (e, entries) else some (p.0, e ∷ p.1)
]

pub remove_entry : Str → Index → Index
remove_entry key c = elim (without key c.entries) [
  | none ↦ c
  | some p ↦ record c { entries = p.1; total = c.total - p.0.size }
]
