-- ===== src/Meta/Scope/Examples.antt =====
-- The scope of a file in a directory under the root.
use memorylayer_storage.Prelude.{
  ℕ, zero, suc, ◌≤◌, ◌≡◌, ◌≢◌, refl, none, arith, ◌==◌, if◌then◌else◌,
}
use memorylayer_storage.Meta.Scope.{
  ParentRow, no_row, parent_row, ino_scope, anchored, ScopeCache, scope_of,
}
use memorylayer_storage.Meta.Scope.Walking.{IsFirstLevel, climb, IsMemo, scope_of-IsFirstLevel}

abbrev parents : ℕ → ParentRow
parents i = if i == 7 then parent_row 3 else if i == 3 then parent_row 1 else no_row

abbrev empty : ScopeCache
empty i = none

abbrev parent : ℕ → ℕ
parent i = if i == 7 then 3 else 1

rows_on_way : (k : ℕ) → k ≤ 1 → parents (climb parent k 7) ≡ parent_row (parent (climb parent k 7))
unfolding climb
rows_on_way zero h = refl
rows_on_way (suc zero) h = refl
rows_on_way (suc (suc k)) h = absurd (omega (arith, h))

no_root : (k : ℕ) → k ≤ 1 → climb parent k 7 ≢ 1
unfolding climb
no_root zero h = λ e. absurd (omega (arith, e))
no_root (suc zero) h = λ e. absurd (omega (arith, e))
no_root (suc (suc k)) h = absurd (omega (arith, h))

deep : IsFirstLevel parents parent 1 7 3
unfolding climb
deep = record { rows = rows_on_way; ends = refl; entry = refl; below = no_root }

scope_of-IsFirstLevel_example :
    ((scope_of 4 parents 7 empty).1 ≡ anchored (ino_scope 3))
    × IsMemo parents parent (scope_of 4 parents 7 empty).0
scope_of-IsFirstLevel_example =
    scope_of-IsFirstLevel parents parent 1 4 7 3 empty deep refl
      (λ i key e. absurd (ground (arith, e)))
