-- ===== src/Diskcache/Recovery.antt =====
-- A slice from its write on: drains, evictions and a restart of the daemon.
use memorylayer_storage.Prelude.{
  ℕ, ◌≡◌, refl, sym, ap, ◌∙◌, true, Option, some, List, [], ◌∷◌, length, take, arith, Option-cases,
  inl, inr,
}
use memorylayer_storage.Fileio.Chunks.{Store, CanHold}
use memorylayer_storage.Diskcache.{Limits, Clean, add_lru, evict, read_checksummed}
use memorylayer_storage.Diskcache.Coherence.{evict-IsFewer, clean_body}
use memorylayer_storage.Diskcache.Serving.{
  DiskCache, FileSystem, write, read, scan_cache, open_cache,
}
use memorylayer_storage.Diskcache.Contract.{holds, IsValid, write-Wrote}
use memorylayer_storage.Diskcache.Reads.{Same, Same_trans, clean_change, Answers, read_finds}
use memorylayer_storage.Diskcache.Draining.{drain-Kept}

module _ {S : Type 0} (store : Store S) (sha256 : List ℕ → List ℕ)
    (sum_length : (body : List ℕ) → length (sha256 body) ≡ 32)
    (tells : (body : List ℕ) (k : ℕ) → sha256 (take k body) ≡ sha256 body → take k body ≡ body)
    (limits : Limits) where
  scan_cache-files :
      (ids : List ℕ) (c : Clean) (j : ℕ)
      → (scan_cache store sha256 limits ids c).files j ≡ c.files j
  unfolding scan_cache add_lru
  scan_cache-files [] c j = refl
  scan_cache-files (id ∷ ids) c j = elim (Option-cases (c.files id)) [
    | inl none_eq ↦ rw (scan_cache, none_eq) (scan_cache-files ids c j)
    | inr (raw, e) ↦ rw (scan_cache, e) (scan_cache-files ids (add_lru id (length raw) c) j)
  ]

  -- A restart keeps what the cache holds: whatever the directories list and however the drain of the
  -- recovery ends, a slice whose staging file was synced before the crash is there as before.
  pub open_cache-Same :
      (free : Option (ℕ × ℕ)) (disks : ℕ → FileSystem) (cached staged_ids : List ℕ)
      (c : DiskCache S)
      → IsValid store sha256 c
      → ((id : ℕ) → (disks id).reads_staging ≡ true)
      → Same store sha256 sum_length tells limits c
          (open_cache store sha256 limits free disks cached staged_ids c).0
  unfolding open_cache read_checksummed
  open_cache-Same free disks cached staged_ids c v reads =
      let bare : Clean = record { files = c.clean.files; lru = []; cur_bytes = 0 } in
      let scanned = scan_cache store sha256 limits cached bare in
      let now = evict limits free scanned in
      let body = clean_body sha256 sum_length tells in
      let first = clean_change store sha256 sum_length tells limits c now v (λ j b e.
        elim (evict-IsFewer limits free scanned j) [
          | inl gone ↦ absurd (ground (arith, ap body gone, e))
          | inr same ↦ v.clean j b (sym (ap body (same ∙ scan_cache-files cached bare j)) ∙ e)
        ]) in
      Same_trans store sha256 sum_length tells limits c (record c { clean = now }) _ first
        (drain-Kept store sha256 sum_length tells limits disks staged_ids (record c { clean = now })
          first.still reads)

  -- A slice that `Write` has acknowledged is what `Read` returns after a restart with its drain, on a disk
  -- that then reads its files and takes a cache file, and over a backing store that returns what it holds:
  -- whatever the directories list, and whichever uploads, removals or renames have failed on the way.
  pub read-open_cache-write :
      (d e : FileSystem) (free : Option (ℕ × ℕ)) (disks : ℕ → FileSystem)
      (cached staged_ids : List ℕ) (id class : ℕ) (body : List ℕ) (c : DiskCache S)
      → IsValid store sha256 c
      → CanHold (holds store sha256 id c) body
      → ((id : ℕ) → (disks id).reads_staging ≡ true)
      → (write store sha256 limits d id body class c).1 ≡ true
      → Answers store sha256 sum_length tells limits e id
          (open_cache store sha256 limits free disks cached staged_ids
            (write store sha256 limits d id body class c).0).0
      → (read store sha256 limits e id
          (open_cache store sha256 limits free disks cached staged_ids
            (write store sha256 limits d id body class c).0).0).1
        ≡ some body
  read-open_cache-write d e free disks cached staged_ids id class body c v h reads done answers =
      let w = write-Wrote store sha256 sum_length limits d id class body c v h in
      let o = open_cache-Same free disks cached staged_ids _ w.still reads in
      read_finds store sha256 sum_length tells limits e id _ body o.still answers
        (o.same id ∙ w.done done)
