-- ===== src/Meta/Locks/Effects.antt =====
-- What `Setlk` and `Getlk` answer and what a granted lock changes.
use memorylayer_storage.Prelude.{
  ℕ, ◌≤◌, ◌≡◌, ◌↔◌, ◌≢◌, Bool, false, ◌&&◌, not, some, none, List, [], ◌∷◌, arith, ◌==◌, All, leb,
  if◌then◌else◌, Option-cases, inl, inr, ◌⊎◌,
}
use memorylayer_storage.Meta.Errno.{Server, healthy, ok, eagain}
use memorylayer_storage.Meta.Locks.{
  PlockRec, LockDb, f_unlck, load_my_plock, load_other_plocks, plock_conflict, split_range, getlk,
  setlk,
}
use memorylayer_storage.Meta.Locks.Ranges.{IsRange, locked_by, locked_by-split_range}
use memorylayer_storage.Meta.Locks.Conflicts.{
  Clash, plock_conflict-none, plock_conflict-some, load_my_plock-store_plock,
}

plock_conflict-All {κ} :
    (P : PlockRec → Type κ) (others : List PlockRec) (typ s e : ℕ) (c : PlockRec)
    → All P others
    → plock_conflict others typ s e ≡ some c
    → P c
unfolding plock_conflict
plock_conflict-All P [] typ s e c v h = absurd (ground (arith, h))
plock_conflict-All P (r ∷ others) typ s e c v h =
    ground (arith, v.0, plock_conflict-All P others typ s e c v.1)

module _ (sid inode owner typ start end : ℕ) (db : LockDb) where
  abbrev others : List PlockRec
  others = load_other_plocks sid inode owner db.plocks

  not_Clash : plock_conflict others typ start end ≡ none → ¬ Clash others typ start end
  not_Clash e (x, a, b, l) = cc (plock_conflict-none others typ start end x e a b, l)

  -- Against a healthy server a lock request is refused with EAGAIN exactly when some byte of its
  -- range is held by another owner of the file in a way that excludes it (one of the two is a
  -- write), for a range that is not empty over stored ranges that are not empty.
  pub setlk_eagain_iff :
      (pid : ℕ)
      → (typ == f_unlck) ≡ false
      → start ≤ end
      → All IsRange others
      → ((setlk sid healthy inode owner typ start end pid db).1 ≡ eagain)
        ↔ Clash others typ start end
  unfolding setlk
  setlk_eagain_iff pid u h v = elim (Option-cases (plock_conflict others typ start end)) [
    | inl e ↦ (λ r. absurd (ground (arith, r)), λ c. absurd (not_Clash e c))
    | inr (c, e) ↦ (λ r. plock_conflict-some others typ start end c h v e, λ k. ground arith)
  ]

  -- `Getlk` answers F_UNLCK exactly when `Setlk` of the same request would be granted, against a
  -- healthy server that stores no record of type F_UNLCK; otherwise it names a stored record.
  pub getlk-f_unlck_iff :
      (pid : ℕ)
      → (typ == f_unlck) ≡ false
      → All (λ r. r.typ ≢ f_unlck) others
      → ((getlk sid healthy inode owner typ start end db).typ ≡ f_unlck)
        ↔ ((setlk sid healthy inode owner typ start end pid db).1 ≡ ok)
  unfolding setlk getlk
  getlk-f_unlck_iff pid u v = elim (Option-cases (plock_conflict others typ start end)) [
    | inl e ↦ (λ r. ground arith, λ r. ground arith)
    | inr (c, e) ↦
        let kept = plock_conflict-All (λ r. r.typ ≢ f_unlck) others typ start end c v e in
        (λ r. absurd (kept (ground (arith, r))), λ r. absurd (ground (arith, r)))
  ]

  -- A granted request changes the caller's row as `split_range` does, at every byte, leaves what
  -- every other owner holds on every file, and touches no whole-file lock; a refused one changes
  -- nothing. For a range that is not empty, over stored ranges that are not empty.
  pub setlk_effect :
      (server : Server) (pid : ℕ)
      → start ≤ end
      → All IsRange (load_my_plock sid inode owner db.plocks)
      → let (db', e) = setlk sid server inode owner typ start end pid db in
        ((p : ℕ → ℕ → Bool) (x : ℕ)
          → e ≡ ok
          → locked_by p x (load_my_plock sid inode owner db'.plocks) ≡ (
              if leb start x && leb x end
              then not (typ == f_unlck) && p typ pid
              else locked_by p x (load_my_plock sid inode owner db.plocks)))
        × ((t j q : ℕ)
            → (inode == j && sid == t && owner == q) ≡ false
            → load_my_plock t j q db'.plocks ≡ load_my_plock t j q db.plocks)
        × (db'.flocks ≡ db.flocks)
        × ((e ≡ ok) ⊎ (db' ≡ db))
  unfolding setlk
  setlk_effect server pid h v =
      let mine = split_range (load_my_plock sid inode owner db.plocks) typ start end pid in
      let stored = λ (t j q : ℕ). load_my_plock-store_plock sid inode owner t j q mine db.plocks in
      (
        λ p x e. ground (
          arith,
          stored sid inode owner,
          locked_by-split_range p x (load_my_plock sid inode owner db.plocks) typ start end pid h v,
        ),
        λ t j q d. ground (arith, stored t j q),
        ground arith,
        ground arith,
      )
