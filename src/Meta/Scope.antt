-- ===== src/Meta/Scope.antt =====
-- Ownership scopes, `scopeOf` of mlfs/internal/meta/scope.go: the walk to the first-level ancestor of an
-- inode, with its memo. What the query for a parent comes to is a function of the inode. The walk is on
-- fuel; the depth of the inode is fuel enough.
pub mod Walking
mod Examples
use memorylayer_storage.Prelude.{
  ℕ, zero, suc, Bool, true, false, ◌||◌, Option, none, some, ◌==◌, if◌then◌else◌,
}

abbrev pub root_inode : ℕ
root_inode = 1

-- The key "root", and "ino:" with an inode.
pub data ScopeKey : Type 0 where
  root_scope : ScopeKey
  ino_scope : ℕ → ScopeKey

pub data ParentRow : Type 0 where
  no_row query_failed : ParentRow
  parent_row : ℕ → ParentRow

-- `anchored` is stored in the memo, `vanished` is not.
pub data Walked : Type 0 where
  out_of_fuel walk_failed : Walked
  vanished anchored : ScopeKey → Walked

-- Whether the walk ends at `cur`, whose parent is `parent`.
abbrev pub is_anchor : ℕ → ℕ → Bool
is_anchor parent cur = parent == root_inode || parent == cur

unfoldable pub walk_up : ℕ → (ℕ → ParentRow) → ℕ → ℕ → Walked
walk_up zero parents inode cur = out_of_fuel
walk_up (suc fuel) parents inode cur = elim (parents cur) [
  | no_row ↦ vanished (ino_scope inode)
  | query_failed ↦ walk_failed
  | parent_row parent ↦ elim (is_anchor parent cur) [
    | true ↦ anchored (ino_scope cur)
    | false ↦ walk_up fuel parents inode parent
  ]
]

abbrev pub ScopeCache : Type 0
ScopeCache = ℕ → Option ScopeKey

abbrev pub store_scope : ℕ → ScopeKey → ScopeCache → ScopeCache
store_scope inode key cache i = if inode == i then some key else cache i

-- `scopeOf`
unfoldable pub scope_of : ℕ → (ℕ → ParentRow) → ℕ → ScopeCache → ScopeCache × Walked
scope_of fuel parents inode cache =
    if inode == root_inode then (cache, anchored root_scope) else elim (cache inode) [
      | some key ↦ (cache, anchored key)
      | none ↦ elim (walk_up fuel parents inode inode) [
        | anchored key ↦ (store_scope inode key cache, anchored key)
        | vanished key ↦ (cache, vanished key)
        | walk_failed ↦ (cache, walk_failed)
        | out_of_fuel ↦ (cache, out_of_fuel)
      ]
    ]
