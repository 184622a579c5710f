-- ===== src/Casstore/Cache/Examples.antt =====
-- The theorems on the eviction index at concrete inputs.
use memorylayer_storage.Prelude.{◌≡◌, refl, [], ◌∷◌, ◌++◌}
use memorylayer_storage.Casstore.Cache.{Index, collect, collect_evictions, add_entry, put}
use memorylayer_storage.Casstore.Cache.Eviction.{sizes, IsCounted, Evicted, put-Evicted}

-- Two entries of 60 and 30 bytes, within 100 bytes.
abbrev warm : Index
warm = record {
  max_bytes = 100;
  entries =
      record { cache_key = 1 ∷ []; size = 60 } ∷ record { cache_key = 2 ∷ []; size = 30 } ∷ [];
  total = 90;
}

warm-IsCounted : IsCounted warm
unfolding sizes
warm-IsCounted = refl

put_evicts : (put (3 ∷ []) 40 warm).1 ≡ record { cache_key = 1 ∷ []; size = 60 } ∷ []
unfolding put add_entry collect_evictions collect
put_evicts = refl

put-Evicted_example :
    let out = put (3 ∷ []) 40 warm in
    Evicted 100
      (warm.entries ++ record { cache_key = 3 ∷ []; size = 40 } ∷ [])
      out.0.entries
      out.1
      out.0.total
put-Evicted_example = put-Evicted (3 ∷ []) 40 warm warm-IsCounted
