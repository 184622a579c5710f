-- ===== src/Meta/Ownership/Examples.antt =====
-- The theorems on leases at concrete inputs: node "a" takes a scope, lets it expire, and "b" takes it.
use memorylayer_storage.Prelude.{◌≡◌, refl, [], ◌∷◌, some}
use memorylayer_storage.Meta.Errno.{healthy}
use memorylayer_storage.Meta.Ownership.{Lease, Leases, no_leases, acquire_or_resume, check_fence}
use memorylayer_storage.Meta.Ownership.Owner.{Clock, ensure}
use memorylayer_storage.Meta.Ownership.Cluster.{
  Cluster, Reach, here, next, ensures, writes, start, after_ensure,
}
use memorylayer_storage.Meta.Ownership.Cluster.Serial.{IsSerial, Reach-IsSerial}

abbrev first : Lease
first = record { owner_node = "a"; expires = 130; generation = 1 }

abbrev taken : Leases
taken = (acquire_or_resume healthy 100 "root" "a" 30 no_leases).0

abbrev stolen : Leases
stolen = (acquire_or_resume healthy 200 "root" "b" 30 taken).0

stolen_generation :
    stolen "root" ≡ some (record { owner_node = "b"; expires = 230; generation = 2 })
unfolding acquire_or_resume
stolen_generation = refl

abbrev clock : Clock
clock = record { before = 100_000_000; inside = 100_000_000; after = 100_000_000 }

abbrev owned : Cluster
owned = after_ensure healthy clock "a" "root" 30_000_000 start

abbrev written : Cluster
written = record owned { log = record { node = "a"; scope = "root"; gen = 1 } ∷ [] }

written_reached : Reach written
unfolding acquire_or_resume ensure check_fence
written_reached =
    next (next here (ensures healthy clock "a" "root" 30_000_000))
      (writes healthy (record { node = "a"; scope = "root"; gen = 1 }))

Reach-IsSerial_example : IsSerial written.log
Reach-IsSerial_example = Reach-IsSerial written_reached
