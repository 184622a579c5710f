-- ===== src/Meta/Ownership.antt =====
-- Leases with fencing generations: mlfs/internal/meta/ownership.go and the fence of
-- mlfs/internal/meta/fence.go. The table `ownership` is a map from its primary key, the scope key.
-- Times are milliseconds, as in the table; generations do not wrap.
pub mod Fencing
pub mod Owner
pub mod Cluster
mod Examples
use Prim.Native.String.{String}
use text.Mathlib.Text.{◌==◌ as str_eq}
use memorylayer_storage.Prelude.{
  ℕ, ◌+◌, Bool, true, false, ◌&&◌, not, Option, none, some, ltb, ◌==◌, if◌then◌else◌,
}
use memorylayer_storage.Meta.Errno.{Errno, ok, estale, eio, Server, first_select, write_row, commit}

pub record Lease : Type 0 where
  pub owner_node : String
  pub expires : ℕ
  pub generation : ℕ

abbrev pub Leases : Type 0
Leases = String → Option Lease

abbrev pub no_leases : Leases
no_leases scope = none

abbrev pub put_row : String → Lease → Leases → Leases
put_row scope l table s = if str_eq scope s then some l else table s

-- The named results of `AcquireOrResume`, or its error.
pub data Acquired : Type 0 where
  failed : Acquired
  acquired : Lease → Bool → Acquired

-- The transaction's row and its `held`, by the row that it read.
abbrev pub granted : ℕ → String → ℕ → Option Lease → Lease × Bool
granted now node ttl none =
    (record { owner_node = node; expires = now + ttl; generation = 1 }, true)
granted now node ttl (some cur) =
    if str_eq cur.owner_node node
    then (record { owner_node = node; expires = now + ttl; generation = cur.generation }, true)
    else if ltb cur.expires now
    then (record { owner_node = node; expires = now + ttl; generation = cur.generation + 1 }, true)
    else (cur, false)

pub acquire_or_resume : Server → ℕ → String → String → ℕ → Leases → Leases × Acquired
acquire_or_resume server now scope node ttl table =
    if not (server first_select)
    then (table, failed)
    else let (l, held) = granted now node ttl (table scope) in
      if held && not (server write_row)
      then (table, failed)
      else if not (server commit)
      then (table, failed)
      else ((if held then put_row scope l table else table), acquired l held)

-- The row that an UPDATE ... WHERE scope_key, owner_node and generation finds.
abbrev pub owned_at : String → ℕ → Option Lease → Bool
owned_at node generation none = false
owned_at node generation (some l) = str_eq l.owner_node node && l.generation == generation

abbrev pub set_expiry : ℕ → String → Leases → Leases
set_expiry expires scope table s = elim (table s) [
  | none ↦ none
  | some l ↦ if str_eq scope s then some (record l { expires = expires }) else some l
]

-- `none` is the error of the statement.
pub refresh : Server → ℕ → String → String → ℕ → ℕ → Leases → Leases × Option Bool
refresh server now scope node generation ttl table =
    if not (server write_row)
    then (table, none)
    else if owned_at node generation (table scope)
    then (set_expiry (now + ttl) scope table, some true)
    else (table, some false)

pub release_ownership : Server → String → String → ℕ → Leases → Leases × Option Bool
release_ownership server scope node generation table =
    if not (server write_row)
    then (table, none)
    else if owned_at node generation (table scope)
    then (set_expiry 0 scope table, some true)
    else (table, some false)

-- The row of `Fenced`: despite its name it reports that the scope is still at the generation.
pub fenced : Server → String → ℕ → Leases → Option Bool
fenced server scope generation table =
    if not (server first_select)
    then none
    else some (elim (table scope) [ none ↦ false | some l ↦ l.generation == generation ])

pub data FenceError : Type 0 where
  err_fenced sql_error : FenceError

-- `checkFence`: `none` lets the write go on.
pub check_fence : Bool → Server → String → String → ℕ → Leases → Option FenceError
check_fence enabled server node_id scope generation table =
    if not enabled
    then none
    else if not (server first_select)
    then some sql_error
    else if owned_at node_id generation (table scope)
    then none
    else some err_fenced

-- `fenceInTx` and the mapping of its error by the methods that call it.
unfoldable pub fence_errno : Option FenceError → Errno
fence_errno none = ok
fence_errno (some err_fenced) = estale
fence_errno (some sql_error) = eio
