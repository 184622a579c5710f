-- ===== src/Meta/Locks/Flocks.antt =====
-- Whole-file locks: the conflict test of `Flock` and the invariant of the table `flock`.
use memorylayer_storage.Prelude.{
  ℕ, ◌≡◌, Bool, true, false, ◌&&◌, ◌||◌, not, some, none, List, [], ◌∷◌, arith, ◌==◌, any, inl, inr,
  Option-cases, if◌then◌else◌,
}
use memorylayer_storage.Meta.Errno.{Server, ok, eagain, healthy}
use memorylayer_storage.Meta.Table.{Row, select, upsert, delete_key}
use memorylayer_storage.Meta.Table.Laws.{select-upsert, select-delete_key}
use memorylayer_storage.Meta.Locks.{
  LockDb, flock_exclusive, flock_unlock, flock_scan, flock, flock_seen,
}

-- A row of another owner of the same file that excludes a request of type `typ`.
abbrev pub blocks : ℕ → ℕ → ℕ → ℕ → Row ℕ → Bool
blocks sid inode owner typ r =
    r.inode == inode
    && (not (r.sid == sid && r.owner == owner)
        && (typ == flock_exclusive || r.value == flock_exclusive))

flock_scan-any :
    (sid inode owner typ : ℕ) (rows : List (Row ℕ)) (c : Bool)
    → flock_scan sid inode owner typ rows c ≡ (c || any (blocks sid inode owner typ) rows)
unfolding flock_scan
flock_scan-any sid inode owner typ [] c = ground arith
flock_scan-any sid inode owner typ (r ∷ rows) c =
    ground (
      arith,
      flock_scan-any sid inode owner typ rows c,
      flock_scan-any sid inode owner typ rows true,
    )

-- An exclusive holder is the only holder of its file.
abbrev pub IsFlockExclusive : List (Row ℕ) → Type 0
IsFlockExclusive rows =
    (s i o t q : ℕ)
    → (s == t && o == q) ≡ false
    → select i s o rows ≡ some flock_exclusive
    → select i t q rows ≡ none

not_blocked :
    (s i o typ t q l : ℕ) (rows : List (Row ℕ))
    → any (blocks s i o typ) rows ≡ false
    → (s == t && o == q) ≡ false
    → select i t q rows ≡ some l
    → (typ == flock_exclusive || l == flock_exclusive) ≡ false
unfolding select
not_blocked s i o typ t q l [] f d h = cc
not_blocked s i o typ t q l (r ∷ rows) f d h = ground (arith, not_blocked s i o typ t q l rows)

exclusive_alone :
    (s i o t q : ℕ) (rows : List (Row ℕ))
    → any (blocks s i o flock_exclusive) rows ≡ false
    → (s == t && o == q) ≡ false
    → select i t q rows ≡ none
exclusive_alone s i o t q rows f d = elim (Option-cases (select i t q rows)) [
  | inl e ↦ e
  | inr (l, e) ↦ cc (not_blocked s i o flock_exclusive t q l rows f d e)
]

upsert-IsFlockExclusive :
    (s i o typ : ℕ) (rows : List (Row ℕ))
    → IsFlockExclusive rows
    → any (blocks s i o typ) rows ≡ false
    → IsFlockExclusive (upsert i s o typ rows)
upsert-IsFlockExclusive s i o typ rows v f s1 j o1 t q d h = ground (
  arith,
  select-upsert i s o j s1 o1 typ rows,
  select-upsert i s o j t q typ rows,
  v s1 j o1 t q d,
  λ (e : typ ≡ flock_exclusive). exclusive_alone s i o t q rows (rw e at f),
  not_blocked s i o typ s1 o1 flock_exclusive rows f,
)

delete_key-IsFlockExclusive :
    (s i o : ℕ) (rows : List (Row ℕ))
    → IsFlockExclusive rows
    → IsFlockExclusive (delete_key i s o rows)
delete_key-IsFlockExclusive s i o rows v s1 j o1 t q d h = ground (
  arith,
  select-delete_key i s o j s1 o1 rows,
  select-delete_key i s o j t q rows,
  v s1 j o1 t q d,
)

pub flock-IsFlockExclusive :
    (sid : ℕ) (server : Server) (inode owner typ : ℕ) (db : LockDb)
    → IsFlockExclusive db.flocks
    → IsFlockExclusive (flock sid server inode owner typ db).0.flocks
unfolding flock
flock-IsFlockExclusive sid server i o typ db v =
    let del = delete_key-IsFlockExclusive sid i o db.flocks v in
    let put = upsert-IsFlockExclusive sid i o typ db.flocks v in
    ground (arith, del, put, flock_scan-any sid i o typ db.flocks false)

-- Against a healthy server, and with no other transaction that overlaps, a request other than an unlock is
-- refused with EAGAIN where some row of another owner of the file excludes it, and nothing changes;
-- otherwise it succeeds, the caller's row is the request, and every other row is as it was.
pub flock_decides :
    (sid inode owner typ : ℕ) (db : LockDb) (j t q : ℕ)
    → (typ == flock_unlock) ≡ false
    → let (db', e) = flock sid healthy inode owner typ db in
      let refused = any (blocks sid inode owner typ) db.flocks in
      (e ≡ (if refused then eagain else ok))
      × (select j t q db'.flocks ≡ (
          if not refused && (inode == j && (sid == t && owner == q))
          then some typ
          else select j t q db.flocks))
      × (db'.plocks ≡ db.plocks)
unfolding flock
flock_decides sid i o typ db j t q u =
    ground
      (arith, flock_scan-any sid i o typ db.flocks false, select-upsert i sid o j t q typ db.flocks)

-- Two sessions whose SELECTs both come before either writes are both granted an exclusive lock on one
-- file, where no other owner holds a lock on it: the table then has both.
pub flock_seen_both :
    (s t i o q : ℕ) (db : LockDb)
    → any (blocks s i o flock_exclusive) db.flocks ≡ false
    → any (blocks t i q flock_exclusive) db.flocks ≡ false
    → (s == t && o == q) ≡ false
    → let first = flock_seen s healthy i o flock_exclusive db.flocks db in
      let second = flock_seen t healthy i q flock_exclusive db.flocks first.0 in
      (first.1 ≡ ok)
      × (second.1 ≡ ok)
      × (select i s o second.0.flocks ≡ some flock_exclusive)
      × (select i t q second.0.flocks ≡ some flock_exclusive)
flock_seen_both s t i o q db a b d =
    let one = flock_scan-any s i o flock_exclusive db.flocks false in
    let two = flock_scan-any t i q flock_exclusive db.flocks false in
    let mid = upsert i s o flock_exclusive db.flocks in
    let put = select-upsert i s o i s o flock_exclusive db.flocks in
    let old = select-upsert i t q i s o flock_exclusive mid in
    let new = select-upsert i t q i t q flock_exclusive mid in
    ground (arith, a, b, d, one, two, put, old, new)
