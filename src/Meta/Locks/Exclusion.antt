-- ===== src/Meta/Locks/Exclusion.antt =====
-- Record locks exclude one another: the invariant of `plock`, kept by every method of locks.go.
use memorylayer_storage.Prelude.{
  ℕ, ◌≤◌, ◌<◌, ◌^◌, ◌≡◌, Bool, true, false, ◌&&◌, none, List, ◌⊎◌, arith, leb, ◌==◌, All,
  Option-cases,
}
use memorylayer_storage.Meta.Errno.{Server}
use memorylayer_storage.Meta.Table.{Row}
use memorylayer_storage.Meta.Locks.{
  PlockRec, LockDb, f_wrlck, f_unlck, plock_conflict, load_my_plock, load_other_plocks, split_range,
  store_plock, setlk,
}
use memorylayer_storage.Meta.Locks.Ranges.{
  IsRange, locked_by, locked_by_mono, locked_by-split_range, split_range-IsRange,
}
use memorylayer_storage.Meta.Locks.Conflicts.{
  excludes, plock_conflict-none, locked_by-load_other_plocks, load_my_plock-store_plock,
}

abbrev pub is_write : ℕ → ℕ → Bool
is_write t pid = t == f_wrlck

abbrev pub is_any : ℕ → ℕ → Bool
is_any t pid = true

-- Every stored range is a range, and a byte that one owner has locked for writing is locked by no
-- other owner, of this session or of another.
pub record IsExclusive (rows : List (Row (List PlockRec))) : Type 0 where
  pub ranges : (s i o : ℕ) → All IsRange (load_my_plock s i o rows)
  pub apart :
      (s i o t q x : ℕ)
      → (s == t && o == q) ≡ false
      → locked_by is_write x (load_my_plock s i o rows) ≡ true
      → locked_by is_any x (load_my_plock t i q rows) ≡ false

-- What `setlk` leaves: the tables as they were, or the caller's row rewritten after the test.
pub setlk_cases {ℓ} :
    (P : LockDb → Type ℓ) (sid : ℕ) (server : Server) (inode owner typ s e pid : ℕ) (db : LockDb)
    → P db
    → ((typ == f_unlck) ≡ true
          ⊎ (plock_conflict (load_other_plocks sid inode owner db.plocks) typ s e ≡ none)
        → P (record db {
          plocks =
              store_plock sid inode owner
                (split_range (load_my_plock sid inode owner db.plocks) typ s e pid)
                db.plocks;
        }))
    → P (setlk sid server inode owner typ s e pid db).0
unfolding setlk
setlk_cases P sid server inode owner typ s e pid db same written =
    ground
      (arith, Option-cases (plock_conflict (load_other_plocks sid inode owner db.plocks) typ s e))

module _ (s i o typ a b pid : ℕ) (rows : List (Row (List PlockRec))) (v : IsExclusive rows)
    (ordered : a ≤ b) (word : b < 2 ^ 64)
    (free : (typ == f_unlck) ≡ true
      ⊎ (plock_conflict (load_other_plocks s i o rows) typ a b ≡ none)) where
  abbrev mine : List PlockRec
  mine = split_range (load_my_plock s i o rows) typ a b pid

  abbrev inside : ℕ → Bool
  inside x = leb a x && leb x b

  -- What another owner holds at a byte of the range does not exclude the new lock.
  other_free :
      (t q x : ℕ)
      → (s == t && o == q) ≡ false
      → inside x ≡ true
      → (typ == f_unlck) ≡ false
      → locked_by (excludes typ) x (load_my_plock t i q rows) ≡ false
  other_free t q x d h u = ground (
    arith,
    plock_conflict-none (load_other_plocks s i o rows) typ a b x,
    locked_by-load_other_plocks (excludes typ) x s i o t q rows d,
  )

  mine_write :
      (t q x : ℕ)
      → (s == t && o == q) ≡ false
      → locked_by is_write x mine ≡ true
      → locked_by is_any x (load_my_plock t i q rows) ≡ false
  mine_write t q x d h = ground (
    arith,
    other_free t q x d,
    v.apart s i o t q x d,
    locked_by-split_range is_write x (load_my_plock s i o rows) typ a b pid ordered
        (v.ranges s i o),
    λ (w : (typ == f_wrlck) ≡ true).
        locked_by_mono is_any (excludes typ) x (load_my_plock t i q rows) (λ k p m. ground arith),
  )

  other_write :
      (t q x : ℕ)
      → (t == s && q == o) ≡ false
      → locked_by is_write x (load_my_plock t i q rows) ≡ true
      → locked_by is_any x mine ≡ false
  other_write t q x d h = ground (
    arith,
    other_free t q x (ground arith),
    v.apart t i q s o x d h,
    locked_by-split_range is_any x (load_my_plock s i o rows) typ a b pid ordered (v.ranges s i o),
    locked_by_mono is_write (excludes typ) x (load_my_plock t i q rows) (λ k p m. ground arith) h,
  )

  stored_apart :
      (s1 j o1 t q x : ℕ)
      → (s1 == t && o1 == q) ≡ false
      → locked_by is_write x (load_my_plock s1 j o1 (store_plock s i o mine rows)) ≡ true
      → locked_by is_any x (load_my_plock t j q (store_plock s i o mine rows)) ≡ false
  stored_apart s1 j o1 t q x d h = ground (
    arith,
    load_my_plock-store_plock s i o s1 j o1 mine rows,
    load_my_plock-store_plock s i o t j q mine rows,
    mine_write t q x,
    other_write s1 o1 x,
    v.apart s1 j o1 t q x d,
  )

  pub store_plock-IsExclusive : IsExclusive (store_plock s i o mine rows)
  store_plock-IsExclusive = record {
    ranges = λ t j q. ground (
      arith,
      load_my_plock-store_plock s i o t j q mine rows,
      v.ranges t j q,
      split_range-IsRange (load_my_plock s i o rows) typ a b pid ordered word (v.ranges s i o),
    );
    apart = stored_apart;
  }
