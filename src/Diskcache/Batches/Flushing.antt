-- ===== src/Diskcache/Batches/Flushing.antt =====
-- The uploads of `drainBatched`, and the drain as a whole.
use memorylayer_storage.Prelude.{
  ℕ, zero, suc, ◌≡◌, refl, sym, ap, ◌∙◌, Bool, true, Option, some, List, [], ◌∷◌, length, take, any,
  arith, All, Bool-cases, inl, inr,
}
use memorylayer_storage.Fileio.Chunks.{Store}
use memorylayer_storage.Diskcache.{Limits}
use memorylayer_storage.Diskcache.Serving.{DiskCache, FileSystem}
use memorylayer_storage.Diskcache.Contract.{staged_body, holds, IsValid, CanHold-backing}
use memorylayer_storage.Diskcache.Reads.{Same}
use memorylayer_storage.Diskcache.Draining.{Kept, Kept-same, Kept-trans}
use memorylayer_storage.Diskcache.Batches.{
  BatchItem, Fits, BatchWriter, insert_at, arrange, Gathered, gather, flush, flush_all,
  drain_batched,
}
use memorylayer_storage.Diskcache.Batches.Scanning.{is_at, Scan, gather-Scan}
use memorylayer_storage.Diskcache.Batches.Promoting.{
  Carries, Carries-Kept, promote_all-Kept, promote_all-backing, backing_written,
}

All-insert_at {ℓ κ} :
    {A : Type ℓ} (P : A → Type κ) (k : ℕ) (x : A) (xs : List A)
    → P x
    → All P xs
    → All P (insert_at k x xs)
All-insert_at P k x [] h v = (h, tt)
All-insert_at P zero x (y ∷ ys) h v = (h, v)
All-insert_at P (suc k) x (y ∷ ys) h v = (v.0, All-insert_at P k x ys h v.1)

All-arrange {ℓ κ} :
    {A : Type ℓ} (P : A → Type κ) (order : List ℕ) (xs : List A)
    → All P xs
    → All P (arrange order xs)
All-arrange P order [] v = tt
All-arrange P [] (x ∷ xs) v = v
All-arrange P (k ∷ order) (x ∷ xs) v =
    All-insert_at P k x (arrange order xs) v.0 (All-arrange P order xs v.1)

module _ {S : Type 0} (store : Store S) (sha256 : List ℕ → List ℕ)
    (sum_length : (body : List ℕ) → length (sha256 body) ≡ 32)
    (tells : (body : List ℕ) (k : ℕ) → sha256 (take k body) ≡ sha256 body → take k body ≡ body)
    (limits : Limits) (writer : BatchWriter store) where
  module _ (want : ℕ → Option (List ℕ)) where
    abbrev Wanted : BatchItem → Type 0
    Wanted it = want it.id ≡ some it.body

    abbrev Carried : DiskCache S → Type 0
    Carried c = Carries store sha256 sum_length tells limits want c

    -- What uploads come to, of batches that `at j` tells a slice of.
    record Flushed (has : ℕ → Bool) (c : DiskCache S) (r : DiskCache S × Bool) : Type 0 where
      kept : Kept store sha256 sum_length tells limits c r.0
      stays :
          (j : ℕ) (b : List ℕ)
          → want j ≡ some b
          → store.holds j c.backing ≡ some b
          → store.holds j r.0.backing ≡ some b
      done :
          (j : ℕ) (b : List ℕ)
          → r.1 ≡ true
          → has j ≡ true
          → want j ≡ some b
          → store.holds j r.0.backing ≡ some b

    fits :
        (items : List BatchItem) (c : DiskCache S)
        → IsValid store sha256 c
        → Carried c
        → All Wanted items
        → Fits store want items c.backing
    fits items c v w h = record {
      wanted = h;
      can = λ j b e. CanHold-backing store sha256 c j b v (inr (w j b e));
    }

    present :
        (items : List BatchItem) (s : S)
        → All Wanted items
        → ((j : ℕ) → any (is_at j) items ≡ true → store.holds j s ≡ want j)
        → All (λ it. Wanted it × (store.holds it.id s ≡ some it.body)) items
    present [] s h d = tt
    present (it ∷ items) s h d =
        ((h.0, d it.id (ground arith) ∙ h.0), present items s h.1 (λ j e. d j (ground (arith, e))))

    flush-Flushed :
        (disks : ℕ → FileSystem) (batch : List BatchItem) (c : DiskCache S)
        → IsValid store sha256 c
        → Carried c
        → All Wanted batch
        → Flushed (λ j. any (is_at j) batch) c (flush store sha256 limits writer disks batch c)
    unfolding flush
    flush-Flushed disks batch c v w h = elim (Bool-cases r.1) [
      | inr fails ↦
          rw (flush, fails)
            (record { kept = k; stays = stays; done = λ j b e. absurd (ground (arith, e)) })
      | inl ok ↦
          let d : DiskCache S = record c { backing = r.0 } in
          let done = λ (j : ℕ) (e : any (is_at j) batch ≡ true).
            writer.write_batch_done want batch c.backing j v.backing fit ok e in
          let back = promote_all-backing store sha256 sum_length tells limits want disks batch d in
          rw (flush, ok)
            (record {
              kept = Kept-trans store sha256 sum_length tells limits c d _ k (
                  promote_all-Kept store sha256 sum_length tells limits want disks batch d k.still
                    (Carries-Kept store sha256 sum_length tells limits want c d k w)
                    (present batch r.0 h done));
              stays = λ j b e f. ap (store.holds j) back ∙ stays j b e f;
              done = λ j b t e f. ap (store.holds j) back ∙ (done j e ∙ f);
            })
    ]
      where
        r : S × Bool
        r = writer.write_batch batch c.backing

        fit : Fits store want batch c.backing
        fit = fits batch c v w h

        k : Kept store sha256 sum_length tells limits c (record c { backing = r.0 })
        k =
            backing_written store sha256 sum_length tells limits want c r.0 v w
              (writer.write_batch-IsValid want batch c.backing v.backing fit)
              (λ j. writer.write_batch_each want batch c.backing j v.backing fit)

        stays :
            (j : ℕ) (b : List ℕ)
            → want j ≡ some b
            → store.holds j c.backing ≡ some b
            → store.holds j r.0 ≡ some b
        stays j b e f = elim (writer.write_batch_each want batch c.backing j v.backing fit) [
          | inl same ↦ same ∙ f
          | inr (b', e', now) ↦ now ∙ (sym e' ∙ e)
        ]

    flush_all-Flushed :
        (disks : ℕ → FileSystem) (batches : List (List BatchItem)) (c : DiskCache S)
        → IsValid store sha256 c
        → Carried c
        → All (All Wanted) batches
        → Flushed
            (λ j. any (any (is_at j)) batches)
            c
            (flush_all store sha256 limits writer disks batches c)
    unfolding flush_all
    flush_all-Flushed disks [] c v w h = record {
      kept = Kept-same store sha256 sum_length tells limits c v;
      stays = λ j b e f. f;
      done = λ j b t e. absurd (ground (arith, e));
    }
    flush_all-Flushed disks (batch ∷ batches) c v w h =
        let d = (flush store sha256 limits writer disks batch c).0 in
        let first = flush-Flushed disks batch c v w h.0 in
        let rest =
          flush_all-Flushed disks batches d first.kept.still
            (Carries-Kept store sha256 sum_length tells limits want c d first.kept w) h.1 in
        record {
          kept = Kept-trans store sha256 sum_length tells limits c d _ first.kept rest.kept;
          stays = λ j b e f. rest.stays j b e (first.stays j b e f);
          done = λ j b t e f. elim (Bool-cases (any (is_at j) batch)) [
            | inl mine ↦ rest.stays j b f (first.done j b (ground (arith, t)) mine f)
            | inr other ↦ rest.done j b (ground (arith, t)) (ground (arith, e, other)) f
          ];
        }

  -- The scan and the uploads of a drain.
  module _ (disks : ℕ → FileSystem) (budget : ℕ) (order ids : List ℕ) (c : DiskCache S)
      (v : IsValid store sha256 c) (reads : (id : ℕ) → (disks id).reads_staging ≡ true) where
    abbrev want : ℕ → Option (List ℕ)
    want j = staged_body store sha256 (c.staging j)

    abbrev gathered : Gathered S
    gathered = gather store sha256 limits disks budget ids [] 0 0 c

    abbrev has : ℕ → Bool
    has j = any (any (is_at j)) (arrange order gathered.batches)

    scan : Scan store sha256 sum_length tells limits want ids [] c gathered
    scan =
        gather-Scan store sha256 sum_length tells limits want disks budget ids [] 0 0 c v
          (λ j. refl) reads

    carried : Carried want gathered.cache
    unfolding holds
    carried j b e = scan.kept.same j ∙ rw (holds, e) refl

    flushes :
        Flushed want has gathered.cache (
          flush_all store sha256 limits writer disks
            (arrange order gathered.batches)
            gathered.cache)
    flushes =
        flush_all-Flushed want disks (arrange order gathered.batches) gathered.cache scan.kept.still
          carried (All-arrange (All (Wanted want)) order gathered.batches (scan.wanted tt))

  -- A batched drain that can read the staging directory changes nothing that the cache holds, in
  -- whichever order the uploads end and whichever of them fail, also where one fails part of the way.
  pub drain_batched-Same :
      (disks : ℕ → FileSystem) (budget : ℕ) (alerts : Bool) (order ids : List ℕ) (c : DiskCache S)
      → IsValid store sha256 c
      → ((id : ℕ) → (disks id).reads_staging ≡ true)
      → Same store sha256 sum_length tells limits c
          (drain_batched store sha256 limits writer disks budget alerts order ids c).0
  unfolding drain_batched
  drain_batched-Same disks budget alerts order ids c v reads =
      Kept-trans store sha256 sum_length tells limits c
        (gathered disks budget order ids c v reads).cache _
        (scan disks budget order ids c v reads).kept (flushes disks budget order ids c v reads).kept
