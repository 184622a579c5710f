-- ===== src/Diskcache/Reads.antt =====
-- Reads of the disk cache: from the clean cache, from staging, and from the backing store.
use memorylayer_storage.Prelude.{
  ℕ, ◌≡◌, ◌≢◌, ◌⊎◌, refl, sym, ap, ◌∙◌, subst, Bool, true, false, Option, none, some, List, [], ◌∷◌,
  length, take, drop, arith, Bool-cases, Option-cases, inl, inr,
}
use memorylayer_storage.Fileio.Chunks.{Store, CanHold}
use memorylayer_storage.Diskcache.{
  checksum_len, unreadable, valid, is_synced, Limits, Clean, put_file, touch, check_bytes,
  check_staged, read_checksummed, read_staged, populate,
}
use memorylayer_storage.Diskcache.Coherence.{body_of, put_none-IsFewer, clean_body, populate_body}
use memorylayer_storage.Diskcache.Serving.{
  DiskCache, FileSystem, fetch, read_past, drop_clean, read, read_at, cut,
}
use memorylayer_storage.Diskcache.Contract.{Checked-cases, staged_body, holds, IsValid}

module _ {S : Type 0} (store : Store S) (sha256 : List ℕ → List ℕ)
    (sum_length : (body : List ℕ) → length (sha256 body) ≡ 32)
    (tells : (body : List ℕ) (k : ℕ) → sha256 (take k body) ≡ sha256 body → take k body ≡ body)
    (limits : Limits) where
  -- The cache holds what it held.
  pub record Same (c c' : DiskCache S) : Type 0 where
    pub still : IsValid store sha256 c'
    pub same : (j : ℕ) → holds store sha256 j c' ≡ holds store sha256 j c

  pub Same_trans : (c d e : DiskCache S) → Same c d → Same d e → Same c e
  Same_trans c d e v w = record { still = w.still; same = λ j. w.same j ∙ v.same j }

  pub clean_change :
      (c : DiskCache S) (clean : Clean)
      → IsValid store sha256 c
      → ((j : ℕ) (b : List ℕ)
          → clean_body sha256 sum_length tells (clean.files j) ≡ some b
          → holds store sha256 j c ≡ some b)
      → Same c (record c { clean = clean })
  unfolding holds
  clean_change c clean v h = record {
    still = record { backing = v.backing; staging = v.staging; clean = h };
    same = λ j. refl;
  }

  pub backing_change :
      (c : DiskCache S) (s : S)
      → IsValid store sha256 c
      → store.IsValid s
      → ((j : ℕ) → store.holds j s ≡ store.holds j c.backing)
      → Same c (record c { backing = s })
  unfolding holds
  backing_change c s v w h = record {
    still = record {
      backing = w;
      staging = λ j b e. subst (λ o. CanHold o b) (sym (h j)) (v.staging j b e);
      clean = λ j b e. rw (h j) (v.clean j b e);
    };
    same = λ j. rw (h j) refl;
  }

  -- A read changes nothing that the cache holds, and returns what it holds or an error.
  pub record Served (id : ℕ) (c : DiskCache S) (r : DiskCache S × Option (List ℕ)) : Type 0 where
    pub after : Same c r.0
    pub right : (body : List ℕ) → r.1 ≡ some body → holds store sha256 id c ≡ some body

  held : (c : DiskCache S) → IsValid store sha256 c → Same c c
  held c v = record { still = v; same = λ j. refl }

  unserved : (id : ℕ) (c c' : DiskCache S) → Same c c' → Served id c (c', none)
  unserved id c c' s = record { after = s; right = λ body e. absurd (ground (arith, e)) }

  served :
      (id : ℕ) (c c' : DiskCache S) (body : List ℕ)
      → Same c c'
      → holds store sha256 id c ≡ some body
      → Served id c (c', some body)
  served id c c' body s h = record { after = s; right = λ b e. h ∙ e }

  Served-from :
      (id : ℕ) (c d : DiskCache S) (r : DiskCache S × Option (List ℕ))
      → Same c d
      → Served id d r
      → Served id c r
  Served-from id c d r s v = record {
    after = Same_trans c d r.0 s v.after;
    right = λ body e. sym (s.same id) ∙ v.right body e;
  }

  fetch-Served :
      (disk : FileSystem) (id : ℕ) (c : DiskCache S)
      → IsValid store sha256 c
      → staged_body store sha256 (c.staging id) ≡ none
      → Served id c (fetch store sha256 limits disk id c)
  unfolding fetch holds
  fetch-Served disk id c v empty = elim (Option-cases r.1) [
    | inl none_eq ↦ rw (fetch, none_eq) (unserved id c (record c { backing = r.0 }) kept)
    | inr (body, e) ↦
        let has : holds store sha256 id c ≡ some body =
          rw (holds, empty) (store.read-holds id c.backing body v.backing e) in
        let filled = populate sha256 limits disk.fills disk.free id body c.clean in
        let all =
          Same_trans c (record c { backing = r.0 }) (record c { backing = r.0; clean = filled.0 })
            kept
            (clean_change (record c { backing = r.0 }) filled.0 kept.still
              (λ j b f.
                kept.same j
                ∙ elim (populate_body sha256 sum_length tells limits disk.fills disk.free id body
                    c.clean j b f) [
                      | inl old ↦ v.clean j b old
                      | inr (here, same) ↦
                          subst (λ i. holds store sha256 i c ≡ some b) here
                            (has ∙ ap some (sym same))
                    ])) in
        rw (fetch, e)
          (elim (Bool-cases filled.1) [
            | inl done ↦ rw (fetch, done) (served id c _ body all has)
            | inr failed ↦ rw (fetch, failed) (unserved id c _ all)
          ])
  ]
    where
      r : S × Option (List ℕ)
      r = store.read id c.backing

      kept : Same c (record c { backing = r.0 })
      kept =
          backing_change c r.0 v (store.read-IsValid id c.backing v.backing)
            (λ j. store.holds-read id c.backing j v.backing)

  -- A staging file that is read shows what it has, and one that is missing or corrupt has nothing.
  staged_read :
      (works : Bool) (file : Option (List ℕ))
      → (read_staged sha256 works file ≡ unreadable)
        ⊎ (body_of (read_staged sha256 works file) ≡ staged_body store sha256 file)
  unfolding read_staged
  staged_read works none = inr refl
  staged_read true (some raw) = inr refl
  staged_read false (some raw) = inl refl

  read_past-Served :
      (disk : FileSystem) (id : ℕ) (c : DiskCache S)
      → IsValid store sha256 c
      → Served id c (read_past store sha256 limits disk id c)
  unfolding read_past holds
  read_past-Served disk id c v = elim (staged_read disk.reads_staging (c.staging id)) [
    | inl fails ↦ rw (read_past, fails) (unserved id c c (held c v))
    | inr shows ↦ elim (Checked-cases (read_staged sha256 disk.reads_staging (c.staging id))) [
      | inl fails ↦ rw (read_past, fails) (unserved id c c (held c v))
      | inr (inl (inl e)) ↦
          rw (read_past, e) (fetch-Served disk id c v (sym (sym (ap body_of e) ∙ shows)))
      | inr (inl (inr e)) ↦
          rw (read_past, e) (fetch-Served disk id c v (sym (sym (ap body_of e) ∙ shows)))
      | inr (inr (class, body, e)) ↦
          let has : staged_body store sha256 (c.staging id) ≡ some body =
            sym shows ∙ ap body_of e in
          rw (read_past, e) (served id c c body (held c v) (rw (holds, has) refl))
    ]
  ]

  touched :
      (id : ℕ) (c : DiskCache S)
      → IsValid store sha256 c
      → Same c (record c { clean = touch id c.clean })
  unfolding touch
  touched id c v = clean_change c (touch id c.clean) v v.clean

  dropped :
      (id : ℕ) (c : DiskCache S)
      → IsValid store sha256 c
      → Same c (drop_clean store sha256 limits id c)
  unfolding read_checksummed
  dropped id c v =
      clean_change c (record c.clean { files = put_file id none c.clean.files }) v
        (λ j b e. elim (put_none-IsFewer id c.clean.files j) [
          | inl gone ↦ absurd (ground (arith, ap (clean_body sha256 sum_length tells) gone, e))
          | inr kept ↦ v.clean j b (sym (ap (clean_body sha256 sum_length tells) kept) ∙ e)
        ])

  clean_read :
      (works : Bool) (file : Option (List ℕ)) (class : ℕ) (body : List ℕ)
      → read_checksummed sha256 works file ≡ valid class body
      → body_of (read_checksummed sha256 true file) ≡ some body
  unfolding read_checksummed
  clean_read works none class body e = absurd (ground (arith, e))
  clean_read true (some raw) class body e = ap body_of e
  clean_read false (some raw) class body e = absurd (ground (arith, e))

  -- `Read` returns what the cache holds or an error, from whichever of the three places it comes, and
  -- changes nothing that the cache holds, while it moves slices into the clean cache and out of it.
  pub read-Served :
      (disk : FileSystem) (id : ℕ) (c : DiskCache S)
      → IsValid store sha256 c
      → Served id c (read store sha256 limits disk id c)
  unfolding read
  read-Served disk id c v =
      elim (Checked-cases (read_checksummed sha256 disk.reads_clean (c.clean.files id))) [
        | inl fails ↦ rw (read, fails) (unserved id c c (held c v))
        | inr (inl (inl e)) ↦ rw (read, e) (read_past-Served disk id c v)
        | inr (inl (inr e)) ↦
            rw (read, e)
              (Served-from id c (drop_clean store sha256 limits id c) _ (dropped id c v) (
                read_past-Served disk id (drop_clean store sha256 limits id c)
                  (dropped id c v).still))
        | inr (inr (class, body, e)) ↦
            rw (read, e)
              (served id c _ body (touched id c v)
                (v.clean id body (clean_read disk.reads_clean (c.clean.files id) class body e)))
      ]

  check_bytes_reads : (raw : List ℕ) → check_bytes sha256 raw ≢ unreadable
  unfolding check_bytes
  check_bytes_reads raw = λ e. absurd (ground (arith, e))

  check_staged_reads : (raw bytes : List ℕ) → check_staged sha256 raw bytes ≢ unreadable
  unfolding check_staged check_bytes
  check_staged_reads raw [] = λ e. absurd (ground (arith, e))
  check_staged_reads raw (class ∷ body) = λ e. absurd (ground (arith, e))

  clean_reads : (file : Option (List ℕ)) → read_checksummed sha256 true file ≢ unreadable
  unfolding read_checksummed
  clean_reads none = λ e. absurd (ground (arith, e))
  clean_reads (some raw) = check_bytes_reads raw

  staged_reads : (file : Option (List ℕ)) → read_staged sha256 true file ≢ unreadable
  unfolding read_staged
  staged_reads none = λ e. absurd (ground (arith, e))
  staged_reads (some raw) = check_staged_reads raw (drop checksum_len raw)

  -- The disk reads its files and takes a new cache file, and the backing store returns what it holds.
  pub record Answers (disk : FileSystem) (id : ℕ) (c : DiskCache S) : Type 0 where
    pub clean : disk.reads_clean ≡ true
    pub staging : disk.reads_staging ≡ true
    pub fills : is_synced disk.fills ≡ true
    pub backing :
        (body : List ℕ)
        → store.holds id c.backing ≡ some body
        → (store.read id c.backing).1 ≡ some body

  fetch_finds :
      (disk : FileSystem) (id : ℕ) (c : DiskCache S) (body : List ℕ)
      → Answers disk id c
      → store.holds id c.backing ≡ some body
      → (fetch store sha256 limits disk id c).1 ≡ some body
  unfolding fetch populate
  fetch_finds disk id c body a h = rw (fetch, a.backing body h, a.fills) refl

  read_past_finds :
      (disk : FileSystem) (id : ℕ) (c : DiskCache S) (body : List ℕ)
      → Answers disk id c
      → holds store sha256 id c ≡ some body
      → (read_past store sha256 limits disk id c).1 ≡ some body
  unfolding read_past holds
  read_past_finds disk id c body a h =
      elim (Checked-cases (read_staged sha256 true (c.staging id))) [
        | inl e ↦ absurd (staged_reads (c.staging id) e)
        | inr (inl (inl e)) ↦
            rw (read_past, a.staging, e)
              (fetch_finds disk id c body a (ground (arith, h, ap body_of e)))
        | inr (inl (inr e)) ↦
            rw (read_past, a.staging, e)
              (fetch_finds disk id c body a (ground (arith, h, ap body_of e)))
        | inr (inr (class, b, e)) ↦ rw (read_past, a.staging, e) (ground (arith, h, ap body_of e))
      ]

  -- A read of what the cache holds finds it, on a disk and over a store that answer.
  pub read_finds :
      (disk : FileSystem) (id : ℕ) (c : DiskCache S) (body : List ℕ)
      → IsValid store sha256 c
      → Answers disk id c
      → holds store sha256 id c ≡ some body
      → (read store sha256 limits disk id c).1 ≡ some body
  unfolding read
  read_finds disk id c body v a h =
      let on = a.clean in
      elim (Checked-cases (read_checksummed sha256 true (c.clean.files id))) [
        | inl e ↦ absurd (clean_reads (c.clean.files id) e)
        | inr (inl (inl e)) ↦ rw (read, on, e) (read_past_finds disk id c body a h)
        | inr (inl (inr e)) ↦
            rw (read, on, e)
              (read_past_finds disk id (drop_clean store sha256 limits id c) body
                (record { clean = on; staging = a.staging; fills = a.fills; backing = a.backing })
                ((dropped id c v).same id ∙ h))
        | inr (inr (class, b, e)) ↦ rw (read, on, e) (sym (v.clean id b (ap body_of e)) ∙ h)
      ]

  pub read_at-cut :
      (disk : FileSystem) (id off n : ℕ) (c : DiskCache S) (bytes : List ℕ)
      → IsValid store sha256 c
      → (read_at store sha256 limits disk id off n c).1 ≡ some bytes
      → (body : List ℕ) × (holds store sha256 id c ≡ some body) × (bytes ≡ take n (drop off body))
  unfolding read_at
  read_at-cut disk id off n c bytes v e =
      let r = read store sha256 limits disk id c in
      elim (Option-cases r.1) [
        | inl none_eq ↦ absurd (ground (arith, e, ap (cut store sha256 limits off n) none_eq))
        | inr (body, some_eq) ↦ (
          body,
          (read-Served disk id c v).right body some_eq,
          ground (arith, e, ap (cut store sha256 limits off n) some_eq),
        )
      ]
