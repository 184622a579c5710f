-- ===== src/Meta/Locks/Conflicts.antt =====
-- What the conflict tests decide, and what a row holds after it is written.
use memorylayer_storage.Prelude.{
  ℕ, ◌≤◌, ◌≡◌, refl, Bool, true, false, ◌&&◌, ◌||◌, none, some, List, [], ◌∷◌, arith, ◌==◌,
  if◌then◌else◌, All, Bool-cases, ltb, inl, inr,
}
use memorylayer_storage.Meta.Table.{Row, select}
use memorylayer_storage.Meta.Table.Laws.{select-upsert, select-delete_key}
use memorylayer_storage.Meta.Locks.{
  PlockRec, f_wrlck, plock_conflict, load_my_plock, load_other_plocks, store_plock,
}
use memorylayer_storage.Meta.Locks.Ranges.{locked_by, IsRange, locked_by-append}

-- A lock of type `t` excludes a request of type `typ`: one of the two is a write.
abbrev pub excludes : ℕ → ℕ → ℕ → Bool
excludes typ t pid = typ == f_wrlck || t == f_wrlck

pub plock_conflict-none :
    (others : List PlockRec) (typ s e x : ℕ)
    → plock_conflict others typ s e ≡ none
    → s ≤ x
    → x ≤ e
    → locked_by (excludes typ) x others ≡ false
unfolding plock_conflict locked_by
plock_conflict-none [] typ s e x h a b = refl
plock_conflict-none (r ∷ others) typ s e x h a b =
    ground (arith, plock_conflict-none others typ s e x)

-- The record that is returned overlaps the range and excludes the request, so some byte of the
-- range is held in a way that excludes it.
abbrev pub Clash : List PlockRec → ℕ → ℕ → ℕ → Type 0
Clash others typ s e = (x : ℕ) × (s ≤ x) × (x ≤ e) × (locked_by (excludes typ) x others ≡ true)

Clash-cons :
    (r : PlockRec) (others : List PlockRec) (typ s e : ℕ)
    → Clash others typ s e
    → Clash (r ∷ others) typ s e
unfolding locked_by
Clash-cons r others typ s e (x, a, b, l) = (x, a, b, ground (arith, l))

pub plock_conflict-some :
    (others : List PlockRec) (typ s e : ℕ) (c : PlockRec)
    → s ≤ e
    → All IsRange others
    → plock_conflict others typ s e ≡ some c
    → Clash others typ s e
unfolding plock_conflict locked_by
plock_conflict-some [] typ s e c h v k = cc
plock_conflict-some (r ∷ others) typ s e c h v k =
    let later = λ (m : plock_conflict others typ s e ≡ some c).
      Clash-cons r others typ s e (plock_conflict-some others typ s e c h v.1 m) in
    elim (Bool-cases (ltb r.end s || ltb e r.start)) [
      | inl apart ↦ later (ground arith)
      | inr meets ↦ elim (Bool-cases (excludes typ r.typ r.pid)) [
        | inl clash ↦ elim (Bool-cases (ltb r.start s)) [
          | inl before ↦ (s, ground arith, h, ground arith)
          | inr after ↦ (r.start, ground arith, ground arith, ground arith)
        ]
        | inr fine ↦ later (ground arith)
      ]
    ]

-- What another owner holds is among what `load_other_plocks` returns.
pub locked_by-load_other_plocks :
    (p : ℕ → ℕ → Bool) (x s i o t q : ℕ) (rows : List (Row (List PlockRec)))
    → (s == t && o == q) ≡ false
    → locked_by p x (load_my_plock t i q rows) ≡ true
    → locked_by p x (load_other_plocks s i o rows) ≡ true
unfolding load_other_plocks load_my_plock select locked_by
locked_by-load_other_plocks p x s i o t q [] d h = ground arith
locked_by-load_other_plocks p x s i o t q (r ∷ rows) d h = ground (
  arith,
  locked_by-load_other_plocks p x s i o t q rows d,
  locked_by-append p x r.value (load_other_plocks s i o rows),
)

pub load_my_plock-store_plock :
    (s i o t j q : ℕ) (recs : List PlockRec) (rows : List (Row (List PlockRec)))
    → load_my_plock t j q (store_plock s i o recs rows)
      ≡ (if i == j && s == t && o == q then recs else load_my_plock t j q rows)
unfolding load_my_plock store_plock
load_my_plock-store_plock s i o t j q [] rows = ground (arith, select-delete_key i s o j t q rows)
load_my_plock-store_plock s i o t j q (r ∷ rs) rows =
    ground (arith, select-upsert i s o j t q (r ∷ rs) rows)
