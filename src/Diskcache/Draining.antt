-- ===== src/Diskcache/Draining.antt =====
-- The drain of the staging directory: what was acknowledged is uploaded, and is held all the while.
use memorylayer_storage.Prelude.{
  ℕ, ◌≡◌, refl, sym, ap, ◌∙◌, subst, Bool, true, false, none, some, List, [], ◌∷◌, length, take,
  ◌==◌, arith, Bool-cases, Option-cases, inl, inr,
}
use memorylayer_storage.Fileio.Chunks.{Store, CanHold}
use memorylayer_storage.Diskcache.{Limits, Clean, put_file, read_staged, populate}
use memorylayer_storage.Diskcache.Coherence.{body_of, populate_body}
use memorylayer_storage.Diskcache.Serving.{
  DiskCache, FileSystem, quarantine, upload, drain_one, has_failed, drain,
}
use memorylayer_storage.Diskcache.Contract.{Checked-cases, staged_body, holds, IsValid}
use memorylayer_storage.Diskcache.Reads.{Same, Same_trans, clean_change}

module _ {S : Type 0} (store : Store S) (sha256 : List ℕ → List ℕ)
    (sum_length : (body : List ℕ) → length (sha256 body) ≡ 32)
    (tells : (body : List ℕ) (k : ℕ) → sha256 (take k body) ≡ sha256 body → take k body ≡ body)
    (limits : Limits) where
  abbrev pub Kept : DiskCache S → DiskCache S → Type 0
  Kept c d = Same store sha256 sum_length tells limits c d

  pub Kept-trans : (c d e : DiskCache S) → Kept c d → Kept d e → Kept c e
  Kept-trans c d e v w = Same_trans store sha256 sum_length tells limits c d e v w

  -- The backing store changes under a slice that is staged.
  backing_written :
      (id : ℕ) (body : List ℕ) (c : DiskCache S) (s : S)
      → IsValid store sha256 c
      → staged_body store sha256 (c.staging id) ≡ some body
      → store.IsValid s
      → CanHold (store.holds id s) body
      → ((j : ℕ) → (id == j) ≡ false → store.holds j s ≡ store.holds j c.backing)
      → Kept c (record c { backing = s })
  unfolding holds
  backing_written id body c s v e w h others = record {
    still = record {
      backing = w;
      staging = λ j b f. elim (Bool-cases (id == j)) [
        | inl mine ↦
            let here : id ≡ j = ground (arith, mine) in
            let same : body ≡ b = ground (
              arith,
              e,
              subst (λ i. staged_body store sha256 (c.staging i) ≡ some b) (sym here) f,
            ) in
            subst (λ i. CanHold (store.holds i s) b) here
              (subst (CanHold (store.holds id s)) same h)
        | inr other ↦ subst (λ o. CanHold o b) (sym (others j other)) (v.staging j b f)
      ];
      clean = λ j b f. same j ∙ v.clean j b f;
    };
    same = same;
  }
    where
      same : (j : ℕ) → holds store sha256 j (record c { backing = s }) ≡ holds store sha256 j c
      same j = elim (Bool-cases (id == j)) [
        | inl mine ↦
            let here : id ≡ j = ground (arith, mine) in
            let e' = subst (λ i. staged_body store sha256 (c.staging i) ≡ some body) here e in
            rw (holds, e') refl
        | inr other ↦ rw (others j other) refl
      ]

  -- A staging file goes whose bytes the backing store has, or that has none.
  pub unstaged :
      (id : ℕ) (c : DiskCache S)
      → IsValid store sha256 c
      → ((body : List ℕ)
          → staged_body store sha256 (c.staging id) ≡ some body
          → store.holds id c.backing ≡ some body)
      → Kept c (record c { staging = put_file id none c.staging })
  unfolding holds read_staged
  unstaged id c v h = record {
    still = record {
      backing = v.backing;
      staging = λ j b f. elim (Bool-cases (id == j)) [
        | inl mine ↦ absurd (ground (arith, f, mine))
        | inr other ↦ v.staging j b (ground (arith, f, other))
      ];
      clean = λ j b f. same j ∙ v.clean j b f;
    };
    same = same;
  }
    where
      same :
          (j : ℕ)
          → holds store sha256 j (record c { staging = put_file id none c.staging })
            ≡ holds store sha256 j c
      same j = elim (Bool-cases (id == j)) [
        | inl mine ↦
            let here : id ≡ j = ground (arith, mine) in
            elim (Option-cases (staged_body store sha256 (c.staging j))) [
              | inl none_eq ↦ rw (holds, mine, none_eq) refl
              | inr (body, e) ↦
                  let e' =
                    subst (λ i. staged_body store sha256 (c.staging i) ≡ some body) (sym here) e in
                  rw (holds, mine, e)
                    (subst (λ i. store.holds i c.backing ≡ some body) here (h body e'))
            ]
        | inr other ↦ rw other refl
      ]

  upload-Kept :
      (disk : FileSystem) (id class : ℕ) (body : List ℕ) (c : DiskCache S)
      → IsValid store sha256 c
      → staged_body store sha256 (c.staging id) ≡ some body
      → Kept c (upload store sha256 limits disk id class body c).0
  unfolding upload holds
  upload-Kept disk id class body c v e = elim (Bool-cases r.1) [
    | inr fails ↦ rw (upload, fails) kept
    | inl done ↦
        rw (upload, done)
          (elim (Bool-cases disk.removes) [
            | inr stays ↦ rw (upload, stays) filled
            | inl goes ↦
                rw (upload, goes)
                  (Kept-trans c g _ filled (
                    unstaged id g filled.still (λ b f.
                      let same : body ≡ b = ground (arith, e, f) in
                      store.holds-write id body class c.backing v.backing (v.staging id body e) done
                      ∙ ap some same)))
          ])
  ]
    where
      r : S × Bool
      r = store.write id body class c.backing

      kept : Kept c (record c { backing = r.0 })
      kept =
          backing_written id body c r.0 v e
            (store.write-IsValid id body class c.backing v.backing (v.staging id body e))
            (store.write-CanHold id body class c.backing v.backing (v.staging id body e))
            (λ j other.
              store.holds-write_other id body class c.backing j v.backing (v.staging id body e)
                other)

      p : Clean
      p = (populate sha256 limits disk.fills disk.free id body c.clean).0

      g : DiskCache S
      g = record c { backing = r.0; clean = p }

      has : holds store sha256 id c ≡ some body
      has = rw (holds, e) refl

      filled : Kept c g
      filled =
          Kept-trans c (record c { backing = r.0 }) g kept
            (clean_change store sha256 sum_length tells limits (record c { backing = r.0 }) p
              kept.still
              (λ j b f.
                kept.same j
                ∙ elim (populate_body sha256 sum_length tells limits disk.fills disk.free id body
                    c.clean j b f) [
                      | inl old ↦ v.clean j b old
                      | inr (here, same) ↦
                          subst (λ i. holds store sha256 i c ≡ some b) here
                            (has ∙ ap some (sym same))
                    ]))

  pub Kept-same : (c : DiskCache S) → IsValid store sha256 c → Kept c c
  Kept-same c v = record { still = v; same = λ j. refl }

  pub quarantine-Kept :
      (disk : FileSystem) (id : ℕ) (raw : List ℕ) (c : DiskCache S)
      → IsValid store sha256 c
      → staged_body store sha256 (c.staging id) ≡ none
      → Kept c (quarantine store sha256 limits disk id raw c).0
  unfolding quarantine holds
  quarantine-Kept disk id raw c v e = elim (Bool-cases disk.renames) [
    | inl moves ↦
        let u = unstaged id c v (λ body f. absurd (ground (arith, e, f))) in
        rw (quarantine, moves)
          (record {
            still = record {
              backing = u.still.backing;
              staging = u.still.staging;
              clean = u.still.clean;
            };
            same = u.same;
          })
    | inr stays ↦ rw (quarantine, stays) (Kept-same c v)
  ]

  -- One entry is drained, and the cache holds what it held, if its file can be read.
  pub drain_one-Kept :
      (disk : FileSystem) (id : ℕ) (c : DiskCache S)
      → IsValid store sha256 c
      → disk.reads_staging ≡ true
      → Kept c (drain_one store sha256 limits disk id c).0
  unfolding drain_one read_staged
  drain_one-Kept disk id c v reads = elim (Option-cases (c.staging id)) [
    | inl none_eq ↦ rw (drain_one, none_eq) (Kept-same c v)
    | inr (raw, e) ↦
        rw (drain_one, e, reads)
          (elim (Checked-cases (read_staged sha256 true (some raw))) [
            | inl f ↦ rw (drain_one, f) (quarantine-Kept disk id raw c v (rw e (ap body_of f)))
            | inr (inl (inl f)) ↦ rw (drain_one, f) (Kept-same c v)
            | inr (inl (inr f)) ↦
                rw (drain_one, f) (quarantine-Kept disk id raw c v (rw e (ap body_of f)))
            | inr (inr (class, body, f)) ↦
                rw (drain_one, f) (upload-Kept disk id class body c v (rw e (ap body_of f)))
          ])
  ]

  -- A drain that can read the staging directory changes nothing that the cache holds, wherever an upload,
  -- a rename or a removal fails and however far it comes.
  pub drain-Kept :
      (disks : ℕ → FileSystem) (ids : List ℕ) (c : DiskCache S)
      → IsValid store sha256 c
      → ((id : ℕ) → (disks id).reads_staging ≡ true)
      → Same store sha256 sum_length tells limits c (drain store sha256 limits disks ids c).0
  unfolding drain
  drain-Kept disks [] c v reads = Kept-same c v
  drain-Kept disks (id ∷ ids) c v reads =
      let r = drain_one store sha256 limits (disks id) id c in
      let first = drain_one-Kept (disks id) id c v (reads id) in
      elim (Bool-cases (has_failed store sha256 limits r.1)) [
        | inl stops ↦ rw (drain, stops) first
        | inr goes ↦
            rw (drain, goes) (Kept-trans c r.0 _ first (drain-Kept disks ids r.0 first.still reads))
      ]
