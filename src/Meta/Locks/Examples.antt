-- ===== src/Meta/Locks/Examples.antt =====
-- The theorems on locks at concrete inputs, and runs of the code.
use memorylayer_storage.Prelude.{
  ℕ, ◌≡◌, ◌↔◌, ◌⊎◌, refl, Bool, false, ◌&&◌, not, some, List, [], ◌∷◌, arith, ◌==◌, leb,
  if◌then◌else◌, any,
}
use memorylayer_storage.Meta.Errno.{healthy, ok, eagain}
use memorylayer_storage.Meta.Table.{select, upsert}
use memorylayer_storage.Meta.Locks.{
  flock_seen, PlockRec, LockDb, no_locks, f_rdlck, f_wrlck, f_unlck, flock_shared, flock_exclusive,
  flock, setlk, load_my_plock, load_other_plocks, plock_conflict, split_range, trim, trim_all,
  store_plock,
}
use memorylayer_storage.Meta.Locks.Ranges.{locked_by}
use memorylayer_storage.Meta.Locks.Conflicts.{Clash}
use memorylayer_storage.Meta.Locks.Flocks.{blocks, flock_decides, flock_seen_both}
use memorylayer_storage.Meta.Locks.Reach.{
  Reach, here, next, setlks, IsConsistent, Reach-IsConsistent,
}
use memorylayer_storage.Meta.Locks.Effects.{setlk_eagain_iff, setlk_effect}

-- One write lock of process 7 on the bytes 0 to 99.
abbrev whole : List PlockRec
whole = record { typ = f_wrlck; start = 0; end = 99; pid = 7 } ∷ []

-- An unlock in the middle of a record leaves two.
unlock_splits :
    split_range whole f_unlck 10 19 7
    ≡ record { typ = f_wrlck; start = 0; end = 9; pid = 7 }
      ∷ record { typ = f_wrlck; start = 20; end = 99; pid = 7 }
      ∷ []
unfolding split_range trim_all trim
unlock_splits = refl

-- Session 1 locks the bytes 0 to 99 of file 5 for writing.
abbrev held : LockDb
held = (setlk 1 healthy 5 3 f_wrlck 0 99 7 no_locks).0

abbrev held_reached : Reach held
held_reached = next here (setlks 1 healthy 5 3 f_wrlck 0 99 7 (omega arith) (omega arith))

Reach-IsConsistent_example : IsConsistent held
Reach-IsConsistent_example = Reach-IsConsistent held_reached

held_others : load_other_plocks 2 5 3 held.plocks ≡ whole
unfolding setlk load_my_plock select plock_conflict load_other_plocks store_plock split_range
    trim_all upsert
held_others = refl

setlk_eagain_iff_example :
    ((setlk 2 healthy 5 3 f_rdlck 50 60 8 held).1 ≡ eagain)
    ↔ Clash (load_other_plocks 2 5 3 held.plocks) f_rdlck 50 60
setlk_eagain_iff_example =
    setlk_eagain_iff 2 5 3 f_rdlck 50 60 held 8 refl (omega arith) (rw held_others (omega arith))

setlk_effect_example :
    let (db', e) = setlk 1 healthy 5 3 f_unlck 10 19 7 held in
    ((p : ℕ → ℕ → Bool) (x : ℕ)
      → e ≡ ok
      → locked_by p x (load_my_plock 1 5 3 db'.plocks) ≡ (
          if leb 10 x && leb x 19
          then not (f_unlck == f_unlck) && p f_unlck 7
          else locked_by p x (load_my_plock 1 5 3 held.plocks)))
    × ((t j q : ℕ)
        → (5 == j && 1 == t && 3 == q) ≡ false
        → load_my_plock t j q db'.plocks ≡ load_my_plock t j q held.plocks)
    × (db'.flocks ≡ held.flocks)
    × ((e ≡ ok) ⊎ (db' ≡ held))
unfolding setlk load_my_plock select plock_conflict load_other_plocks store_plock split_range
    trim_all upsert
setlk_effect_example = setlk_effect 1 5 3 f_unlck 10 19 held healthy 7 (omega arith) (omega arith)

abbrev shared : LockDb
shared = (flock 1 healthy 5 3 flock_shared no_locks).0

flock_decides_example :
    let (db', e) = flock 2 healthy 5 3 flock_exclusive shared in
    let refused = any (blocks 2 5 3 flock_exclusive) shared.flocks in
    (e ≡ (if refused then eagain else ok))
    × (select 5 1 3 db'.flocks
        ≡ (if not refused && false then some flock_exclusive else select 5 1 3 shared.flocks))
    × (db'.plocks ≡ shared.plocks)
flock_decides_example = flock_decides 2 5 3 flock_exclusive shared 5 1 3 refl

flock_seen_both_example :
    let first = flock_seen 1 healthy 5 3 flock_exclusive [] no_locks in
    let second = flock_seen 2 healthy 5 3 flock_exclusive [] first.0 in
    (first.1 ≡ ok)
    × (second.1 ≡ ok)
    × (select 5 1 3 second.0.flocks ≡ some flock_exclusive)
    × (select 5 2 3 second.0.flocks ≡ some flock_exclusive)
flock_seen_both_example = flock_seen_both 1 2 5 3 3 no_locks refl refl refl
