-- ===== src/Meta/Ownership/Owner.antt =====
-- The lease cache of one node: mlfs/internal/meta/sqlowner.go, and `acquireScope` of
-- mlfs/internal/meta/fence.go. Times are nanoseconds; the table is given milliseconds.
use Prim.Native.String.{String}
use text.Mathlib.Text.{◌==◌ as str_eq}
use memorylayer_storage.Prelude.{
  ℕ, ◌+◌, ◌*◌, ◌/◌, Bool, true, false, ◌||◌, not, Option, none, some, List, [], ◌∷◌, ltb, leb, ◌==◌,
  if◌then◌else◌,
}
use memorylayer_storage.Meta.Errno.{Errno, ok, estale, eio, Server}
use memorylayer_storage.Meta.Ownership.{
  Leases, Acquired, failed, acquired, acquire_or_resume, refresh,
}

pub record HeldLease : Type 0 where
  pub gen : ℕ
  pub local_expiry : ℕ

abbrev pub Held : Type 0
Held = String → Option HeldLease

abbrev pub nothing_held : Held
nothing_held scope = none

abbrev pub put_held : String → Option HeldLease → Held → Held
put_held scope l held s = if str_eq scope s then l else held s

-- The constructor's defaults for the lease lifetime and the refresh interval.
abbrev pub seconds : ℕ → ℕ
seconds n = n * 1_000_000_000

pub new_ttl : ℕ → ℕ
new_ttl ttl = if ttl == 0 then seconds 30 else ttl

pub new_refresh : ℕ → ℕ → ℕ
new_refresh ttl interval =
    if interval == 0 || leb (new_ttl ttl) interval then new_ttl ttl / 3 else interval

abbrev pub milliseconds : ℕ → ℕ
milliseconds d = d / 1_000_000

-- The readings of the node's clock in one call: at the test of the cache, inside the transaction,
-- and when the cache is written.
pub record Clock : Type 0 where
  pub before : ℕ
  pub inside : ℕ
  pub after : ℕ

pub data Ensured : Type 0 where
  ensure_error not_held : Ensured
  holds : ℕ → Ensured

pub record EnsureResult : Type 0 where
  pub held : Held
  pub table : Leases
  pub answer : Ensured

abbrev pub cached : ℕ → Option HeldLease → Option ℕ
cached now none = none
cached now (some l) = if ltb now l.local_expiry then some l.gen else none

-- The end of `Ensure`, by what `AcquireOrResume` answered.
abbrev pub settle : ℕ → String → Held → Leases → Acquired → EnsureResult
settle expiry scope held table failed = record { held = held; table = table; answer = ensure_error }
settle expiry scope held table (acquired l got) =
    if got
    then record {
      held = put_held scope (some (record { gen = l.generation; local_expiry = expiry })) held;
      table = table;
      answer = holds l.generation;
    }
    else record { held = held; table = table; answer = not_held }

unfoldable pub ensure : Server → Clock → String → String → ℕ → Held → Leases → EnsureResult
ensure server clock node scope ttl held table = elim (cached clock.before (held scope)) [
  | some gen ↦ record { held = held; table = table; answer = holds gen }
  | none ↦
      let a =
        acquire_or_resume server (milliseconds clock.inside) scope node (milliseconds ttl) table in
      settle (clock.after + ttl) scope held a.0 a.1
]

-- What one round of the loop of `refreshAll` does to the entry of its scope.
abbrev pub refreshed : ℕ → Option Bool → Option HeldLease → Option HeldLease
refreshed expiry none entry = elim entry [
  | none ↦ none
  | some l ↦ some (record l { local_expiry = expiry })
]
refreshed expiry (some false) entry = none
refreshed expiry (some true) entry = elim entry [
  | none ↦ none
  | some l ↦ some (record l { local_expiry = expiry })
]

-- One round, for a scope and the generation that the snapshot has for it. A failed statement lets the
-- entry lapse at once.
unfoldable pub refresh_scope :
    Server → Clock → String → String → ℕ → ℕ → Held → Leases → Held × Leases
refresh_scope server clock node scope gen ttl held table =
    let (table', r) =
      refresh server (milliseconds clock.inside) scope node gen (milliseconds ttl) table in
    let expiry : ℕ = elim r [ none ↦ clock.after | some b ↦ clock.after + ttl ] in
    (put_held scope (refreshed expiry r (held scope)) held, table')

-- The scopes and generations of the snapshot, in the order in which the map is ranged over.
pub refresh_all :
    (String → Server) → Clock → String → ℕ → List (String × ℕ) → Held → Leases → Held × Leases
refresh_all server clock node ttl [] held table = (held, table)
refresh_all server clock node ttl ((scope, gen) ∷ snapshot) held table =
    let (held', table') = refresh_scope (server scope) clock node scope gen ttl held table in
    refresh_all server clock node ttl snapshot held' table'

-- `acquireScope`: `scope` is the answer of `scopeOf`, `none` for its error.
pub acquire_scope :
    Bool → Option String → Server → Clock → String → ℕ → Held → Leases → EnsureResult × Errno
acquire_scope enabled scope server clock node ttl held table =
    if not enabled
    then (record { held = held; table = table; answer = holds 0 }, ok)
    else elim scope [
      | none ↦ (record { held = held; table = table; answer = ensure_error }, eio)
      | some s ↦
          let r = ensure server clock node s ttl held table in
          (r, elim r.answer [ ensure_error ↦ eio | not_held ↦ estale | holds gen ↦ ok ])
    ]
