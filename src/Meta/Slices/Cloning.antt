-- ===== src/Meta/Slices/Cloning.antt =====
-- What a file holds after `Clone` of mlfs/internal/meta/slices.go.
use memorylayer_storage.Prelude.{
  ℕ, ◌≡◌, Bool, true, List, [], ◌∷◌, arith, ◌==◌, keep, any, ◌&&◌, All,
}
use memorylayer_storage.Meta.Slices.{SliceRow, Scan}
use memorylayer_storage.Meta.Slices.Content.{covers, piece}
use memorylayer_storage.Meta.Slices.Copies.{IsKeyed}

-- A SELECT without an ORDER BY: each row that matches, once, in any order.
pub record IsSelect (scan : Scan) : Type 0 where
  pub same : (p : SliceRow → Bool) (rows : List SliceRow) → any p (scan rows) ≡ any p rows
  pub once : (rows : List SliceRow) → IsKeyed rows → IsKeyed (scan rows)

-- A row of a file that covers a byte, and has it at `v`.
abbrev has_at : ℕ → ℕ → ℕ × ℕ → SliceRow → Bool
has_at j x v r = covers j x r && ((piece x r).0 == v.0 && (piece x r).1 == v.1)

-- The rows of a file that cover a byte agree on where it is.
abbrev pub IsFlat : ℕ → ℕ → List SliceRow → Type 0
IsFlat j x rows =
    (v w : ℕ × ℕ)
    → any (λ r. covers j x r && ((piece x r).0 == v.0 && (piece x r).1 == v.1)) rows ≡ true
    → any (λ r. covers j x r && ((piece x r).0 == w.0 && (piece x r).1 == w.1)) rows ≡ true
    → v ≡ w

-- A scan yields rows that are there.
abbrev pub IsScan : Scan → Type 0
IsScan scan =
    (p : SliceRow → Bool) (rows : List SliceRow)
    → All (λ r. p r ≡ true) rows
    → All (λ r. p r ≡ true) (scan rows)

keep-All :
    (p q : SliceRow → Bool) (rows : List SliceRow)
    → All (λ r. q r ≡ true) rows
    → All (λ r. q r ≡ true) (keep p rows)
keep-All p q [] v = tt
keep-All p q (r ∷ rows) v = ground (arith, v, keep-All p q rows v.1)
