-- ===== src/Meta/Table/Laws.antt =====
-- What `select` returns after each statement on a keyed table.
use memorylayer_storage.Prelude.{
  ℕ, ◌≡◌, refl, ◌&&◌, none, some, List, [], ◌∷◌, arith, ◌==◌, if◌then◌else◌,
}
use memorylayer_storage.Meta.Table.{Row, select, upsert, delete_key, delete_sid}

module _ {ℓ} {V : Type ℓ} where
  pub select-upsert :
      (i s o j t p : ℕ) (v : V) (rs : List (Row V))
      → select j t p (upsert i s o v rs)
        ≡ (if i == j && s == t && o == p then some v else select j t p rs)
  unfolding select upsert
  select-upsert i s o j t p v [] = refl
  select-upsert i s o j t p v (r ∷ rs) = ground (arith, select-upsert i s o j t p v rs)

  pub select-delete_key :
      (i s o j t p : ℕ) (rs : List (Row V))
      → select j t p (delete_key i s o rs)
        ≡ (if i == j && s == t && o == p then none else select j t p rs)
  unfolding select delete_key
  select-delete_key i s o j t p [] = ground arith
  select-delete_key i s o j t p (r ∷ rs) = ground (arith, select-delete_key i s o j t p rs)

  pub select-delete_sid :
      (s j t p : ℕ) (rs : List (Row V))
      → select j t p (delete_sid s rs) ≡ (if s == t then none else select j t p rs)
  unfolding select delete_sid
  select-delete_sid s j t p [] = ground arith
  select-delete_sid s j t p (r ∷ rs) = ground (arith, select-delete_sid s j t p rs)
