-- ===== src/Fileio/Chunks.antt =====
-- The interface of a slice data store, `Store` of mlfs/internal/chunkstore/chunkstore.go, with what its
-- clients rely on. A slice is written once: `holds` is what the store has under an id.
pub mod Memory
use memorylayer_storage.Prelude.{
  ℕ, ◌≡◌, ◌⊎◌, Bool, true, false, Option, none, some, List, take, drop, ◌==◌, if◌then◌else◌,
}

-- A slice that is written again has the same bytes.
abbrev pub CanHold : Option (List ℕ) → List ℕ → Type 0
CanHold o body = (o ≡ none) ⊎ (o ≡ some body)

-- The Boolean is whether the call returned without an error; `none` is an error of a read.
pub record Store (S : Type 0) : Type 1 where
  pub write : ℕ → List ℕ → ℕ → S → S × Bool
  pub read : ℕ → S → S × Option (List ℕ)
  pub read_at : ℕ → ℕ → ℕ → S → S × Option (List ℕ)
  pub remove : ℕ → S → S × Bool
  pub IsValid : S → Type 0
  pub holds : ℕ → S → Option (List ℕ)
  pub write-IsValid :
      (id : ℕ) (body : List ℕ) (class : ℕ) (s : S)
      → IsValid s
      → CanHold (holds id s) body
      → IsValid (write id body class s).0
  pub holds-write :
      (id : ℕ) (body : List ℕ) (class : ℕ) (s : S)
      → IsValid s
      → CanHold (holds id s) body
      → (write id body class s).1 ≡ true
      → holds id (write id body class s).0 ≡ some body
  pub write-CanHold :
      (id : ℕ) (body : List ℕ) (class : ℕ) (s : S)
      → IsValid s
      → CanHold (holds id s) body
      → CanHold (holds id (write id body class s).0) body
  pub holds-write_other :
      (id : ℕ) (body : List ℕ) (class : ℕ) (s : S) (j : ℕ)
      → IsValid s
      → CanHold (holds id s) body
      → (id == j) ≡ false
      → holds j (write id body class s).0 ≡ holds j s
  pub read-IsValid : (id : ℕ) (s : S) → IsValid s → IsValid (read id s).0
  pub holds-read : (id : ℕ) (s : S) (j : ℕ) → IsValid s → holds j (read id s).0 ≡ holds j s
  pub read-holds :
      (id : ℕ) (s : S) (body : List ℕ)
      → IsValid s
      → (read id s).1 ≡ some body
      → holds id s ≡ some body
  pub read_at-IsValid : (id off n : ℕ) (s : S) → IsValid s → IsValid (read_at id off n s).0
  pub holds-read_at :
      (id off n : ℕ) (s : S) (j : ℕ) → IsValid s → holds j (read_at id off n s).0 ≡ holds j s
  pub read_at-holds :
      (id off n : ℕ) (s : S) (bytes : List ℕ)
      → IsValid s
      → (read_at id off n s).1 ≡ some bytes
      → (body : List ℕ) × (holds id s ≡ some body) × (bytes ≡ take n (drop off body))
  pub remove-IsValid : (id : ℕ) (s : S) → IsValid s → IsValid (remove id s).0
  pub holds-remove :
      (id : ℕ) (s : S) → IsValid s → (remove id s).1 ≡ true → holds id (remove id s).0 ≡ none
  pub holds-remove_other :
      (id : ℕ) (s : S) (j : ℕ) → IsValid s → (id == j) ≡ false → holds j (remove id s).0 ≡ holds j s
