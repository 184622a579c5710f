-- ===== src/Meta/Locks/Reach.antt =====
-- Any number of sessions that call the methods of locks.go on one database, one call after the other.
use memorylayer_storage.Prelude.{
  ℕ, ◌≤◌, ◌<◌, ◌^◌, ◌≡◌, refl, Bool, ◌&&◌, List, [], arith, ◌==◌, if◌then◌else◌,
}
use memorylayer_storage.Meta.Errno.{Server}
use memorylayer_storage.Meta.Table.{Row, select, delete_key, delete_sid}
use memorylayer_storage.Meta.Table.Laws.{select-delete_key, select-delete_sid}
use memorylayer_storage.Meta.Locks.{
  PlockRec, LockDb, no_locks, load_my_plock, flock, setlk, clear_all_locks, clear_locks_for_sid,
  clear_plocks,
}
use memorylayer_storage.Meta.Locks.Ranges.{locked_by}
use memorylayer_storage.Meta.Locks.Exclusion.{IsExclusive, setlk_cases, store_plock-IsExclusive}
use memorylayer_storage.Meta.Locks.Flocks.{IsFlockExclusive, flock-IsFlockExclusive}

-- One call by the session `sid`. The requested byte ranges are those that the kernel sends: not
-- empty, in 64-bit words.
pub data Step (db : LockDb) : LockDb → Type 0 where
  flocks :
      (sid : ℕ) (server : Server) (inode owner typ : ℕ)
      → Step db (flock sid server inode owner typ db).0
  setlks :
      (sid : ℕ) (server : Server) (inode owner typ start end pid : ℕ)
      → start ≤ end
      → end < 2 ^ 64
      → Step db (setlk sid server inode owner typ start end pid db).0
  clears_all : (server : Server) → Step db (clear_all_locks server db).0
  clears_sid : (sid : ℕ) (server : Server) → Step db (clear_locks_for_sid sid server db).0
  clears_plocks :
      (sid : ℕ) (server : Server) (inode owner : ℕ)
      → Step db (clear_plocks sid server inode owner db)

pub data Reach : LockDb → Type 0 where
  here : Reach no_locks
  next : {db db' : LockDb} → Reach db → Step db db' → Reach db'

pub record IsConsistent (db : LockDb) : Type 0 where
  pub whole : IsFlockExclusive db.flocks
  pub ranged : IsExclusive db.plocks

-- A table whose owners hold what they held, or nothing.
module _ (rows rows' : List (Row (List PlockRec))) (gone : ℕ → ℕ → ℕ → Bool)
    (kept : (s i o : ℕ)
      → load_my_plock s i o rows' ≡ (if gone s i o then [] else load_my_plock s i o rows)) where
  fewer-IsExclusive : IsExclusive rows → IsExclusive rows'
  unfolding locked_by
  fewer-IsExclusive v = record {
    ranges = λ s i o. ground (arith, kept s i o, v.ranges s i o);
    apart = λ s i o t q x d h. ground (arith, kept s i o, kept t i q, v.apart s i o t q x d);
  }

delete_key-IsExclusive :
    (s i o : ℕ) (rows : List (Row (List PlockRec)))
    → IsExclusive rows
    → IsExclusive (delete_key i s o rows)
delete_key-IsExclusive s i o rows =
    fewer-IsExclusive rows (delete_key i s o rows) (λ t j q. i == j && s == t && o == q)
      (λ t j q. unfold load_my_plock in ground (arith, select-delete_key i s o j t q rows))

delete_sid-IsExclusive :
    (s : ℕ) (rows : List (Row (List PlockRec))) → IsExclusive rows → IsExclusive (delete_sid s rows)
delete_sid-IsExclusive s rows =
    fewer-IsExclusive rows (delete_sid s rows) (λ t j q. s == t)
      (λ t j q. unfold load_my_plock in ground (arith, select-delete_sid s j t q rows))

delete_sid-IsFlockExclusive :
    (s : ℕ) (rows : List (Row ℕ)) → IsFlockExclusive rows → IsFlockExclusive (delete_sid s rows)
delete_sid-IsFlockExclusive s rows v s1 j o1 t q d h =
    ground
      (arith, select-delete_sid s j s1 o1 rows, select-delete_sid s j t q rows, v s1 j o1 t q d)

no_locks-IsConsistent : IsConsistent no_locks
unfolding load_my_plock locked_by select
no_locks-IsConsistent = record {
  whole = λ s i o t q d h. refl;
  ranged = record { ranges = λ s i o. tt; apart = λ s i o t q x d h. refl };
}

Step-IsConsistent : {db db' : LockDb} → Step db db' → IsConsistent db → IsConsistent db'
unfolding clear_all_locks clear_locks_for_sid clear_plocks flock setlk
Step-IsConsistent {db} (flocks sid server inode owner typ) v = record {
  whole = flock-IsFlockExclusive sid server inode owner typ db v.whole;
  ranged = ground (arith, v.ranged);
}
Step-IsConsistent {db} (setlks sid server inode owner typ start end pid h w) v =
    setlk_cases IsConsistent sid server inode owner typ start end pid db v (λ free. record {
      whole = v.whole;
      ranged =
          store_plock-IsExclusive sid inode owner typ start end pid db.plocks v.ranged h w free;
    })
Step-IsConsistent {db} (clears_all server) v = ground (arith, no_locks-IsConsistent)
Step-IsConsistent {db} (clears_sid sid server) v =
    let e = delete_sid-IsExclusive sid db.plocks v.ranged in
    let f = delete_sid-IsFlockExclusive sid db.flocks v.whole in ground (arith, e, f)
Step-IsConsistent {db} (clears_plocks sid server inode owner) v =
    let e = delete_key-IsExclusive sid inode owner db.plocks v.ranged in ground (arith, e)

-- From empty tables, after any calls that any number of sessions make one after the other, so that no
-- transaction overlaps another, and whatever statements the server refuses: an exclusive flock holder
-- of a file is its only one, every stored record is a range of 64-bit words that is not empty, and a byte
-- that one owner has locked for writing is locked by no other.
pub Reach-IsConsistent : {db : LockDb} → Reach db → IsConsistent db
Reach-IsConsistent here = no_locks-IsConsistent
Reach-IsConsistent (next r st) = Step-IsConsistent st (Reach-IsConsistent r)
