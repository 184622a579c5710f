-- ===== src/Fileio/Chunks/Memory.antt =====
-- A slice store in memory without errors, on which the calls of a store can be run.
use memorylayer_storage.Prelude.{
  ℕ, ◌≡◌, refl, true, false, Option, none, some, List, take, drop, ◌==◌, if◌then◌else◌, arith, inr,
}
use memorylayer_storage.Fileio.Chunks.{Store}

abbrev pub Memory : Type 0
Memory = ℕ → Option (List ℕ)

abbrev pub part : ℕ → ℕ → Option (List ℕ) → Option (List ℕ)
part off n none = none
part off n (some body) = some (take n (drop off body))

pub part_held :
    (off n : ℕ) (o : Option (List ℕ)) (bytes : List ℕ)
    → part off n o ≡ some bytes
    → (body : List ℕ) × (o ≡ some body) × (bytes ≡ take n (drop off body))
part_held off n none bytes h = absurd (ground (arith, h))
part_held off n (some body) bytes h = (body, refl, ground (arith, h))

pub put_same :
    (id : ℕ) (body : List ℕ) (o : Option (List ℕ)) → (if id == id then some body else o) ≡ some body
put_same id body o = ground arith

pub put_other :
    (id j : ℕ) (body : List ℕ) (o : Option (List ℕ))
    → (id == j) ≡ false
    → (if id == j then some body else o) ≡ o
put_other id j body o h = ground (arith, h)

pub cut_other :
    (id j : ℕ) (o : Option (List ℕ)) → (id == j) ≡ false → (if id == j then none else o) ≡ o
cut_other id j o h = ground (arith, h)

pub cut_same : (id : ℕ) (o : Option (List ℕ)) → (if id == id then none else o) ≡ none
cut_same id o = ground arith

abbrev pub memory : Store Memory
memory = record {
  write = λ id body class s. ((λ j. if id == j then some body else s j), true);
  read = λ id s. (s, s id);
  read_at = λ id off n s. (s, part off n (s id));
  remove = λ id s. ((λ j. if id == j then none else s j), true);
  IsValid = λ s. Unit;
  holds = λ id s. s id;
  write-IsValid = λ id body class s v e. tt;
  holds-write = λ id body class s v e d. put_same id body (s id);
  write-CanHold = λ id body class s v e. inr (put_same id body (s id));
  holds-write_other = λ id body class s j v e d. put_other id j body (s j) d;
  read-IsValid = λ id s v. tt;
  holds-read = λ id s j v. refl;
  read-holds = λ id s body v e. e;
  read_at-IsValid = λ id off n s v. tt;
  holds-read_at = λ id off n s j v. refl;
  read_at-holds = λ id off n s bytes v e. part_held off n (s id) bytes e;
  remove-IsValid = λ id s v. tt;
  holds-remove = λ id s v d. cut_same id (s id);
  holds-remove_other = λ id s j v d. cut_other id j (s j) d;
}
