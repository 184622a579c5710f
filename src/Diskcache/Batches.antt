-- ===== src/Diskcache/Batches.antt =====
-- `drainBatched` of mlfs/internal/cache/cache.go, the drain of a disk cache whose store writes many
-- slices at once (`BatchWriter` of mlfs/internal/chunkstore/chunkstore.go). The uploads run beside the
-- scan of the directory and beside each other; here each is one step after the scan, and `order` says in
-- which order they end. The files that they remove are those that the scan has read already.
pub mod Scanning
pub mod Promoting
pub mod Flushing
pub mod Each
mod Examples
use memorylayer_storage.Prelude.{
  ℕ, zero, suc, ◌+◌, ◌≡◌, ◌⊎◌, Bool, true, false, ◌&&◌, ◌||◌, Option, none, some, List, [], ◌∷◌,
  ◌++◌, length, any, leb, ◌==◌, All, if◌then◌else◌,
}
use memorylayer_storage.Fileio.Chunks.{Store, CanHold}
use memorylayer_storage.Diskcache.{
  missing, corrupt, unreadable, valid, Limits, put_file, read_staged, populate,
}
use memorylayer_storage.Diskcache.Serving.{DiskCache, FileSystem, Drained, has_failed, quarantine}

pub record BatchItem : Type 0 where
  pub id : ℕ
  pub body : List ℕ
  pub class : ℕ

-- The items have the bytes that are wanted under their ids, and each slice that is wanted may be
-- written.
pub record Fits {S : Type 0} (store : Store S) (want : ℕ → Option (List ℕ)) (items : List BatchItem)
    (s : S) : Type 0 where
  pub wanted : All (λ it. want it.id ≡ some it.body) items
  pub can : (j : ℕ) (b : List ℕ) → want j ≡ some b → CanHold (store.holds j s) b

-- A batch that fails may have been written in part.
pub record BatchWriter {S : Type 0} (store : Store S) : Type 1 where
  pub write_batch : List BatchItem → S → S × Bool
  pub write_batch-IsValid :
      (want : ℕ → Option (List ℕ)) (items : List BatchItem) (s : S)
      → store.IsValid s
      → Fits store want items s
      → store.IsValid (write_batch items s).0
  pub write_batch_each :
      (want : ℕ → Option (List ℕ)) (items : List BatchItem) (s : S) (j : ℕ)
      → store.IsValid s
      → Fits store want items s
      → (store.holds j (write_batch items s).0 ≡ store.holds j s)
        ⊎ ((b : List ℕ) × (want j ≡ some b) × (store.holds j (write_batch items s).0 ≡ some b))
  pub write_batch_done :
      (want : ℕ → Option (List ℕ)) (items : List BatchItem) (s : S) (j : ℕ)
      → store.IsValid s
      → Fits store want items s
      → (write_batch items s).1 ≡ true
      → any (λ it. it.id == j) items ≡ true
      → store.holds j (write_batch items s).0 ≡ want j

abbrev pub hand_off : List BatchItem → List (List BatchItem)
hand_off [] = []
hand_off (it ∷ its) = (it ∷ its) ∷ []

abbrev pub insert_at {ℓ} : {A : Type ℓ} → ℕ → A → List A → List A
insert_at k x [] = x ∷ []
insert_at zero x (y ∷ ys) = x ∷ y ∷ ys
insert_at (suc k) x (y ∷ ys) = y ∷ insert_at k x ys

-- The list in another order: each member stands at the place that `order` has for it among those behind
-- it.
abbrev pub arrange {ℓ} : {A : Type ℓ} → List ℕ → List A → List A
arrange order [] = []
arrange [] (x ∷ xs) = x ∷ xs
arrange (k ∷ order) (x ∷ xs) = insert_at k x (arrange order xs)

-- What the scan of the staging directory comes to: `set_aside` is the number of quarantined entries, or
-- `none` where one could not be quarantined, which ends the scan and drops the batch at hand.
pub record Gathered (S : Type 0) : Type 0 where
  pub cache : DiskCache S
  pub batches : List (List BatchItem)
  pub set_aside : Option ℕ

module _ {S : Type 0} (store : Store S) (sha256 : List ℕ → List ℕ) (limits : Limits) where
  -- The loop of `drainBatched`, over the ids that the directory lists.
  unfoldable pub gather :
      (ℕ → FileSystem) → ℕ → List ℕ → List BatchItem → ℕ → ℕ → DiskCache S → Gathered S
  gather disks budget [] batch bytes n c = record {
    cache = c;
    batches = hand_off batch;
    set_aside = some n;
  }
  gather disks budget (id ∷ ids) batch bytes n c = elim (c.staging id) [
    | none ↦ gather disks budget ids batch bytes n c
    | some raw ↦
        let q = quarantine store sha256 limits (disks id) id raw c in
        let aside : Gathered S = elim (has_failed store sha256 limits q.1) [
          | true ↦ record { cache = q.0; batches = []; set_aside = none }
          | false ↦ gather disks budget ids batch bytes (n + 1) q.0
        ] in
        elim (read_staged sha256 (disks id).reads_staging (some raw)) [
          | missing ↦ gather disks budget ids batch bytes n c
          | corrupt ↦ aside
          | unreadable ↦ aside
          | valid class body ↦
              let full = batch ++ record { id = id; body = body; class = class } ∷ [] in
              elim (leb budget (bytes + length body)) [
                | false ↦ gather disks budget ids full (bytes + length body) n c
                | true ↦
                    let r = gather disks budget ids [] 0 n c in
                    record r { batches = full ∷ r.batches }
              ]
        ]
  ]

  -- An item of a batch that is written: to the clean cache, and out of staging.
  unfoldable pub promote : FileSystem → BatchItem → DiskCache S → DiskCache S
  promote disk it c = record c {
    clean = (populate sha256 limits disk.fills disk.free it.id it.body c.clean).0;
    staging = if disk.removes then put_file it.id none c.staging else c.staging;
  }

  unfoldable pub promote_all : (ℕ → FileSystem) → List BatchItem → DiskCache S → DiskCache S
  promote_all disks [] c = c
  promote_all disks (it ∷ items) c = promote_all disks items (promote (disks it.id) it c)

  module _ (writer : BatchWriter store) where
    -- `flushAsync`
    unfoldable pub flush : (ℕ → FileSystem) → List BatchItem → DiskCache S → DiskCache S × Bool
    flush disks batch c =
        let r = writer.write_batch batch c.backing in
        if r.1
        then (promote_all disks batch (record c { backing = r.0 }), true)
        else (record c { backing = r.0 }, false)

    unfoldable pub flush_all :
        (ℕ → FileSystem) → List (List BatchItem) → DiskCache S → DiskCache S × Bool
    flush_all disks [] c = (c, true)
    flush_all disks (batch ∷ batches) c =
        let r = flush disks batch c in
        let rest = flush_all disks batches r.0 in (rest.0, r.1 && rest.1)

    -- `drainBatched`; `alerts` is whether there is a handler `OnCorrupt`, without which a quarantined
    -- entry is an error. The Boolean is false for an error.
    unfoldable pub drain_batched :
        (ℕ → FileSystem) → ℕ → Bool → List ℕ → List ℕ → DiskCache S → DiskCache S × Bool
    drain_batched disks budget alerts order ids c =
        let g = gather disks budget ids [] 0 0 c in
        let r = flush_all disks (arrange order g.batches) g.cache in
        (r.0, elim g.set_aside [ none ↦ false | some n ↦ r.1 && (alerts || n == 0) ])
