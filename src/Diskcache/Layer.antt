-- ===== src/Diskcache/Layer.antt =====
-- The disk cache over a slice store is a slice store.
use memorylayer_storage.Prelude.{
  ℕ, ◌+◌, ◌≡◌, refl, sym, ◌∙◌, subst, false, List, length, take, ◌==◌, arith, Bool-cases, inl, inr,
  true, none,
}
use memorylayer_storage.Fileio.Chunks.{Store, CanHold}
use memorylayer_storage.Diskcache.{Limits, read_checksummed, read_staged}
use memorylayer_storage.Diskcache.Serving.{DiskCache, FileSystem, write, read, read_at, remove}
use memorylayer_storage.Diskcache.Contract.{holds, IsValid, write-Wrote}
use memorylayer_storage.Diskcache.Reads.{read-Served, read_at-cut}

-- A cache, and what the file system does in the calls to come.
pub record Running (S : Type 0) : Type 0 where
  pub script : ℕ → FileSystem
  pub calls : ℕ
  pub cache : DiskCache S

module _ {S : Type 0} (store : Store S) (sha256 : List ℕ → List ℕ)
    (sum_length : (body : List ℕ) → length (sha256 body) ≡ 32)
    (tells : (body : List ℕ) (k : ℕ) → sha256 (take k body) ≡ sha256 body → take k body ≡ body)
    (limits : Limits) where
  abbrev pub disk : Running S → FileSystem
  disk s = s.script s.calls

  abbrev pub after : Running S → DiskCache S → Running S
  after s c = record s { calls = s.calls + 1; cache = c }

  pub removed :
      (id : ℕ) (c : DiskCache S)
      → IsValid store sha256 c
      → IsValid store sha256 (remove store sha256 limits id c).0
        × ((j : ℕ)
            → (id == j) ≡ false
            → holds store sha256 j (remove store sha256 limits id c).0 ≡ holds store sha256 j c)
  unfolding remove holds read_staged read_checksummed
  removed id c v = (
    record {
      backing = store.remove-IsValid id c.backing v.backing;
      staging = λ j b e. elim (Bool-cases (id == j)) [
        | inl mine ↦ absurd (ground (arith, e, mine))
        | inr other ↦
            subst (λ o. CanHold o b) (sym (store.holds-remove_other id c.backing j v.backing other))
              (v.staging j b (ground (arith, e, other)))
      ];
      clean = λ j b e. elim (Bool-cases (id == j)) [
        | inl mine ↦ absurd (ground (arith, e, mine))
        | inr other ↦ others j other ∙ v.clean j b (ground (arith, e, other))
      ];
    },
    others,
  )
    where
      others :
          (j : ℕ)
          → (id == j) ≡ false
          → holds store sha256 j (remove store sha256 limits id c).0 ≡ holds store sha256 j c
      others j other = rw (other, store.holds-remove_other id c.backing j v.backing other) refl

  pub gone :
      (id : ℕ) (c : DiskCache S)
      → IsValid store sha256 c
      → (remove store sha256 limits id c).1 ≡ true
      → holds store sha256 id (remove store sha256 limits id c).0 ≡ none
  unfolding remove holds read_staged
  gone id c v done =
      let mine : (id == id) ≡ true = ground arith in
      rw mine (store.holds-remove id c.backing v.backing done)

  -- The disk cache keeps the contract of a slice store over every store that keeps it, whatever the file
  -- system does in its calls, for a checksum of 32 bytes that tells a slice from its beginnings.
  unfoldable pub layered : Store (Running S)
  unfolding read_at
  layered = record {
    write = λ id body class s.
        let r = write store sha256 limits (disk s) id body class s.cache in (after s r.0, r.1);
    read = λ id s. let r = read store sha256 limits (disk s) id s.cache in (after s r.0, r.1);
    read_at = λ id off n s.
        let r = read_at store sha256 limits (disk s) id off n s.cache in (after s r.0, r.1);
    remove = λ id s. let r = remove store sha256 limits id s.cache in (after s r.0, r.1);
    IsValid = λ s. IsValid store sha256 s.cache;
    holds = λ id s. holds store sha256 id s.cache;
    write-IsValid = λ id body class s v h.
        (write-Wrote store sha256 sum_length limits (disk s) id class body s.cache v h).still;
    holds-write = λ id body class s v h.
        (write-Wrote store sha256 sum_length limits (disk s) id class body s.cache v h).done;
    write-CanHold = λ id body class s v h.
        (write-Wrote store sha256 sum_length limits (disk s) id class body s.cache v h).may;
    holds-write_other = λ id body class s j v h.
        (write-Wrote store sha256 sum_length limits (disk s) id class body s.cache v h).others j;
    read-IsValid = λ id s v.
        (read-Served store sha256 sum_length tells limits (disk s) id s.cache v).after.still;
    holds-read = λ id s j v.
        (read-Served store sha256 sum_length tells limits (disk s) id s.cache v).after.same j;
    read-holds = λ id s body v.
        (read-Served store sha256 sum_length tells limits (disk s) id s.cache v).right body;
    read_at-IsValid = λ id off n s v. read_at_still (disk s) id off n s.cache v;
    holds-read_at = λ id off n s j v. read_at_same (disk s) id off n s.cache j v;
    read_at-holds = λ id off n s bytes v e.
        read_at-cut store sha256 sum_length tells limits (disk s) id off n s.cache bytes v e;
    remove-IsValid = λ id s v. (removed id s.cache v).0;
    holds-remove = λ id s v. gone id s.cache v;
    holds-remove_other = λ id s j v. (removed id s.cache v).1 j;
  }
    where
      read_at_still :
          (d : FileSystem) (id off n : ℕ) (c : DiskCache S)
          → IsValid store sha256 c
          → IsValid store sha256 (read_at store sha256 limits d id off n c).0
      read_at_still d id off n c v =
          (read-Served store sha256 sum_length tells limits d id c v).after.still

      read_at_same :
          (d : FileSystem) (id off n : ℕ) (c : DiskCache S) (j : ℕ)
          → IsValid store sha256 c
          → holds store sha256 j (read_at store sha256 limits d id off n c).0
            ≡ holds store sha256 j c
      read_at_same d id off n c j v =
          (read-Served store sha256 sum_length tells limits d id c v).after.same j
