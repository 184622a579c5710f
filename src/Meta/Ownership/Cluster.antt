-- ===== src/Meta/Ownership/Cluster.antt =====
-- Many nodes on one table `ownership`, each with its cache, and the writes that pass the fence.
pub mod Serial
use Prim.Native.String.{String}
use text.Mathlib.Text.{◌==◌ as str_eq}
use text.Mathlib.TextEquality.{eq_iff}
use text.Mathlib.TextPositions.{eq_refl}
use memorylayer_storage.Prelude.{
  ℕ, ◌+◌, ◌≤◌, ◌≡◌, refl, sym, ap, ◌∙◌, Bool, true, false, Option, none, some, List, [], ◌∷◌, arith,
  if◌then◌else◌, All, Bool-cases, Option-cases, inl, inr, ◌↔◌,
}
use memorylayer_storage.Meta.Errno.{Server}
use memorylayer_storage.Meta.Ownership.{
  Lease, Leases, no_leases, owned_at, acquire_or_resume, Acquired, acquired, failed, refresh,
  release_ownership, check_fence,
}
use memorylayer_storage.Meta.Ownership.Fencing.{
  Follows, Follows-trans, Later, Later-refl, acquire_or_resume-Later, acquire_or_resume_outcome,
  owner_of_acquired, refresh-Later, release_ownership-Later,
}
use memorylayer_storage.Meta.Ownership.Owner.{
  HeldLease, Held, Clock, nothing_held, put_held, cached, ensure, settle, refresh_scope, refreshed,
  milliseconds,
}

-- A write that was committed under a scope and a generation.
pub record Write : Type 0 where
  pub node : String
  pub scope : String
  pub gen : ℕ

-- The log has the newest write first.
pub record Cluster : Type 0 where
  pub table : Leases
  pub owners : String → Held
  pub log : List Write

abbrev pub put_owner : String → Held → (String → Held) → String → Held
put_owner node held owners n = if str_eq node n then held else owners n

abbrev pub after_fence : Bool → Write → List Write → List Write
after_fence passed w log = if passed then w ∷ log else log

abbrev pub passes : Server → Write → Leases → Bool
passes server w table = elim (check_fence true server w.node w.scope w.gen table) [
  | none ↦ true
  | some e ↦ false
]

abbrev pub after_ensure : Server → Clock → String → String → ℕ → Cluster → Cluster
after_ensure server clock node scope ttl c =
    let r = ensure server clock node scope ttl (c.owners node) c.table in
    record c { table = r.table; owners = put_owner node r.held c.owners }

abbrev pub after_refresh : Server → Clock → String → String → ℕ → ℕ → Cluster → Cluster
after_refresh server clock node scope gen ttl c =
    let r = refresh_scope server clock node scope gen ttl (c.owners node) c.table in
    record c { table = r.1; owners = put_owner node r.0 c.owners }

-- One call by a node, or one write with a generation of any origin.
pub data Step (c : Cluster) : Cluster → Type 0 where
  ensures :
      (server : Server) (clock : Clock) (node scope : String) (ttl : ℕ)
      → Step c (after_ensure server clock node scope ttl c)
  refreshes :
      (server : Server) (clock : Clock) (node scope : String) (gen ttl : ℕ)
      → Step c (after_refresh server clock node scope gen ttl c)
  releases :
      (server : Server) (scope node : String) (gen : ℕ)
      → Step c (record c { table = (release_ownership server scope node gen c.table).0 })
  stops : (node : String) → Step c (record c { owners = put_owner node nothing_held c.owners })
  writes :
      (server : Server) (w : Write)
      → Step c (record c { log = after_fence (passes server w c.table) w c.log })

abbrev pub start : Cluster
start = record { table = no_leases; owners = λ node. nothing_held; log = [] }

pub data Reach : Cluster → Type 0 where
  here : Reach start
  next : {c d : Cluster} → Reach c → Step c d → Reach d
