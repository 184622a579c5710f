-- ===== src/Diskcache/Uploads.antt =====
-- What a drain without an error has done: every staged slice that it lists is in the backing store.
use memorylayer_storage.Prelude.{
  ℕ, ◌≡◌, refl, sym, ap, ◌∙◌, subst, Bool, true, false, none, some, List, [], ◌∷◌, length, take,
  ◌==◌, arith, any, Bool-cases, Option-cases, inl, inr,
}
use memorylayer_storage.Fileio.Chunks.{Store}
use memorylayer_storage.Diskcache.{Limits, read_staged}
use memorylayer_storage.Diskcache.Coherence.{body_of}
use memorylayer_storage.Diskcache.Serving.{
  DiskCache, FileSystem, Drained, quarantine, upload, drain_one, has_failed, drain,
}
use memorylayer_storage.Diskcache.Contract.{Checked-cases, CanHold-same, staged_body, IsValid}
use memorylayer_storage.Diskcache.Draining.{drain_one-Kept}

module _ {S : Type 0} (store : Store S) (sha256 : List ℕ → List ℕ)
    (sum_length : (body : List ℕ) → length (sha256 body) ≡ 32)
    (tells : (body : List ℕ) (k : ℕ) → sha256 (take k body) ≡ sha256 body → take k body ≡ body)
    (limits : Limits) where
  -- What one entry comes to for the backing store and the other entries.
  record Step (id : ℕ) (c : DiskCache S) (r : DiskCache S × Drained) : Type 0 where
    others : (j : ℕ) → (id == j) ≡ false → r.0.staging j ≡ c.staging j
    stays :
        (j : ℕ) (b : List ℕ)
        → has_failed store sha256 limits r.1 ≡ false
        → store.holds j c.backing ≡ some b
        → store.holds j r.0.backing ≡ some b
    uploads :
        (body : List ℕ)
        → has_failed store sha256 limits r.1 ≡ false
        → staged_body store sha256 (c.staging id) ≡ some body
        → store.holds id r.0.backing ≡ some body

  upload-Step :
      (disk : FileSystem) (id class : ℕ) (body : List ℕ) (c : DiskCache S)
      → IsValid store sha256 c
      → staged_body store sha256 (c.staging id) ≡ some body
      → Step id c (upload store sha256 limits disk id class body c)
  unfolding upload
  upload-Step disk id class body c v e = elim (Bool-cases r.1) [
    | inr fails ↦
        rw (upload, fails)
          (record {
            others = λ j o. refl;
            stays = λ j b f h. absurd (ground (arith, f));
            uploads = λ b f h. absurd (ground (arith, f));
          })
    | inl done ↦
        rw (upload, done)
          (record {
            others = λ j o. ground (arith, o);
            stays = λ j b f h. elim (Bool-cases (id == j)) [
              | inl mine ↦
                  let here : id ≡ j = ground (arith, mine) in
                  let old = subst (λ i. store.holds i c.backing ≡ some b) (sym here) h in
                  let same : b ≡ body =
                    CanHold-same store sha256 _ b body old (v.staging id body e) in
                  subst (λ i. store.holds i r.0 ≡ some b) here
                    (store.holds-write id body class c.backing v.backing (v.staging id body e) done
                      ∙ ap some (sym same))
              | inr other ↦
                  store.holds-write_other id body class c.backing j v.backing (v.staging id body e)
                    other
                  ∙ h
            ];
            uploads = λ b f h.
                store.holds-write id body class c.backing v.backing (v.staging id body e) done
                ∙ (sym e ∙ h);
          })
  ]
    where
      r : S × Bool
      r = store.write id body class c.backing

  quarantine-Step :
      (disk : FileSystem) (id : ℕ) (raw : List ℕ) (c : DiskCache S)
      → staged_body store sha256 (c.staging id) ≡ none
      → Step id c (quarantine store sha256 limits disk id raw c)
  unfolding quarantine
  quarantine-Step disk id raw c e = elim (Bool-cases disk.renames) [
    | inl moves ↦
        rw (quarantine, moves)
          (record {
            others = λ j o. ground (arith, o);
            stays = λ j b f h. h;
            uploads = λ b f h. absurd (ground (arith, e, h));
          })
    | inr stays ↦
        rw (quarantine, stays)
          (record {
            others = λ j o. refl;
            stays = λ j b f h. h;
            uploads = λ b f h. absurd (ground (arith, e, h));
          })
  ]

  drain_one-Step :
      (disk : FileSystem) (id : ℕ) (c : DiskCache S)
      → IsValid store sha256 c
      → disk.reads_staging ≡ true
      → Step id c (drain_one store sha256 limits disk id c)
  unfolding drain_one read_staged
  drain_one-Step disk id c v reads = elim (Option-cases (c.staging id)) [
    | inl none_eq ↦
        rw (drain_one, none_eq)
          (record {
            others = λ j o. refl;
            stays = λ j b f h. h;
            uploads = λ b f h. absurd (ground (arith, none_eq, h));
          })
    | inr (raw, e) ↦
        rw (drain_one, e, reads)
          (elim (Checked-cases (read_staged sha256 true (some raw))) [
            | inl f ↦ rw (drain_one, f) (quarantine-Step disk id raw c (rw e (ap body_of f)))
            | inr (inl (inl f)) ↦
                let empty : staged_body store sha256 (c.staging id) ≡ none = rw e (ap body_of f) in
                rw (drain_one, f)
                  (record {
                    others = λ j o. refl;
                    stays = λ j b g h. h;
                    uploads = λ b g h. absurd (ground (arith, empty, h));
                  })
            | inr (inl (inr f)) ↦
                rw (drain_one, f) (quarantine-Step disk id raw c (rw e (ap body_of f)))
            | inr (inr (class, body, f)) ↦
                rw (drain_one, f) (upload-Step disk id class body c v (rw e (ap body_of f)))
          ])
  ]

  drain-stays :
      (disks : ℕ → FileSystem) (ids : List ℕ) (c : DiskCache S) (j : ℕ) (b : List ℕ)
      → IsValid store sha256 c
      → ((id : ℕ) → (disks id).reads_staging ≡ true)
      → (drain store sha256 limits disks ids c).1 ≡ true
      → store.holds j c.backing ≡ some b
      → store.holds j (drain store sha256 limits disks ids c).0.backing ≡ some b
  unfolding drain
  drain-stays disks [] c j b v reads ok h = h
  drain-stays disks (id ∷ ids) c j b v reads ok h =
      let r = drain_one store sha256 limits (disks id) id c in
      elim (Bool-cases (has_failed store sha256 limits r.1)) [
        | inl stops ↦ absurd (ground (arith, ok, stops))
        | inr goes ↦
            rw (drain, goes)
              (drain-stays disks ids r.0 j b
                (drain_one-Kept store sha256 sum_length tells limits (disks id) id c v
                  (reads id)).still
                reads (ground (arith, ok, goes))
                ((drain_one-Step (disks id) id c v (reads id)).stays j b goes h))
      ]

  -- A drain that ends without an error has brought to the backing store every slice that was staged with
  -- a right checksum and that it listed.
  pub drain-uploads :
      (disks : ℕ → FileSystem) (ids : List ℕ) (c : DiskCache S) (id : ℕ) (body : List ℕ)
      → IsValid store sha256 c
      → ((id : ℕ) → (disks id).reads_staging ≡ true)
      → (drain store sha256 limits disks ids c).1 ≡ true
      → any (λ i. i == id) ids ≡ true
      → staged_body store sha256 (c.staging id) ≡ some body
      → store.holds id (drain store sha256 limits disks ids c).0.backing ≡ some body
  unfolding drain
  drain-uploads disks [] c id body v reads ok listed h = absurd (ground (arith, listed))
  drain-uploads disks (i ∷ ids) c id body v reads ok listed h =
      let r = drain_one store sha256 limits (disks i) i c in
      let step = drain_one-Step (disks i) i c v (reads i) in
      let still =
        (drain_one-Kept store sha256 sum_length tells limits (disks i) i c v (reads i)).still in
      elim (Bool-cases (has_failed store sha256 limits r.1)) [
        | inl stops ↦ absurd (ground (arith, ok, stops))
        | inr goes ↦
            rw (drain, goes)
              (elim (Bool-cases (i == id)) [
                | inl mine ↦
                    let here : i ≡ id = ground (arith, mine) in
                    let first = step.uploads body goes (
                      subst (λ k. staged_body store sha256 (c.staging k) ≡ some body) (sym here)
                        h) in
                    drain-stays disks ids r.0 id body still reads (ground (arith, ok, goes))
                      (subst (λ k. store.holds k r.0.backing ≡ some body) here first)
                | inr other ↦
                    drain-uploads disks ids r.0 id body still reads (ground (arith, ok, goes))
                      (ground (arith, listed, other))
                      (ap (staged_body store sha256) (step.others id other) ∙ h)
              ])
      ]
