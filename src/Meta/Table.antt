-- ===== src/Meta/Table.antt =====
-- A table whose primary key is (inode, sid, owner), as `flock` and `plock` of
-- mlfs/internal/meta/schema.go: the rows, and the statements that locks.go issues on them.
pub mod Laws
use memorylayer_storage.Prelude.{
  ℕ, Bool, ◌&&◌, not, Option, none, some, List, [], ◌∷◌, ◌==◌, if◌then◌else◌, keep,
}

pub record Row {ℓ} (V : Type ℓ) : Type ℓ where
  pub inode : ℕ
  pub sid : ℕ
  pub owner : ℕ
  pub value : V

module _ {ℓ} {V : Type ℓ} where
  -- WHERE inode=$1 AND sid=$2 AND owner=$3
  abbrev pub has_key : ℕ → ℕ → ℕ → Row V → Bool
  has_key inode sid owner r = r.inode == inode && r.sid == sid && r.owner == owner

  -- SELECT value ... WHERE inode=$1 AND sid=$2 AND owner=$3, a query of one row
  unfoldable pub select : ℕ → ℕ → ℕ → List (Row V) → Option V
  select inode sid owner [] = none
  select inode sid owner (r ∷ rs) =
      if has_key inode sid owner r then some r.value else select inode sid owner rs

  -- INSERT ... ON CONFLICT (inode, sid, owner) DO UPDATE
  unfoldable pub upsert : ℕ → ℕ → ℕ → V → List (Row V) → List (Row V)
  upsert inode sid owner v [] = record { inode = inode; sid = sid; owner = owner; value = v } ∷ []
  upsert inode sid owner v (r ∷ rs) =
      let rest = upsert inode sid owner v rs in
      if has_key inode sid owner r then record r { value = v } ∷ rs else r ∷ rest

  -- DELETE ... WHERE inode=$1 AND sid=$2 AND owner=$3
  pub delete_key : ℕ → ℕ → ℕ → List (Row V) → List (Row V)
  delete_key inode sid owner rs = keep (λ r. not (has_key inode sid owner r)) rs

  -- DELETE ... WHERE sid=$1
  pub delete_sid : ℕ → List (Row V) → List (Row V)
  delete_sid sid rs = keep (λ r. not (r.sid == sid)) rs
