-- ===== src/Diskcache/Contract.antt =====
-- The calls of the disk cache against what it holds: an acknowledged write is there at once, and no read,
-- eviction or drain takes it away.
use memorylayer_storage.Prelude.{
  ℕ, ◌≡◌, ◌⊎◌, refl, sym, ap, ◌∙◌, subst, Bool, true, false, ◌||◌, not, Option, some, List, length,
  ◌==◌, arith, Bool-cases, Option-cases, inl, inr,
}
use memorylayer_storage.Meta.Slices.Content.{or_else}
use memorylayer_storage.Fileio.Chunks.{Store, CanHold}
use memorylayer_storage.Diskcache.{
  Checked, missing, corrupt, unreadable, valid, is_synced, Limits, put_file, read_checksummed,
  read_staged, staged,
}
use memorylayer_storage.Diskcache.Framing.{read_staged-staged}
use memorylayer_storage.Diskcache.Coherence.{body_of}
use memorylayer_storage.Diskcache.Serving.{DiskCache, FileSystem, stage, write}

pub Checked-cases :
    (r : Checked)
    → (r ≡ unreadable)
      ⊎ (((r ≡ missing) ⊎ (r ≡ corrupt)) ⊎ ((class : ℕ) × (body : List ℕ) × (r ≡ valid class body)))
Checked-cases missing = inr (inl (inl refl))
Checked-cases corrupt = inr (inl (inr refl))
Checked-cases unreadable = inl refl
Checked-cases (valid class body) = inr (inr (class, body, refl))

module _ {S : Type 0} (store : Store S) (sha256 : List ℕ → List ℕ) where
  abbrev pub staged_body : Option (List ℕ) → Option (List ℕ)
  staged_body file = body_of (read_staged sha256 true file)

  -- What the cache holds: the staged bytes of a slice, or those of the backing store.
  unfoldable pub holds : ℕ → DiskCache S → Option (List ℕ)
  holds id c = or_else (staged_body (c.staging id)) (store.holds id c.backing)

  -- A staged slice may be uploaded, and a cache file that passes its checksum has what the cache holds.
  pub record IsValid (c : DiskCache S) : Type 0 where
    pub backing : store.IsValid c.backing
    pub staging :
        (id : ℕ) (body : List ℕ)
        → staged_body (c.staging id) ≡ some body
        → CanHold (store.holds id c.backing) body
    pub clean :
        (id : ℕ) (body : List ℕ)
        → body_of (read_checksummed sha256 true (c.clean.files id)) ≡ some body
        → holds id c ≡ some body

  pub CanHold-same :
      (o : Option (List ℕ)) (b body : List ℕ) → o ≡ some b → CanHold o body → b ≡ body
  CanHold-same o b body e (inl h) = absurd (ground (arith, e, h))
  CanHold-same o b body e (inr h) = ground (arith, e, h)

  pub CanHold-backing :
      (c : DiskCache S) (id : ℕ) (body : List ℕ)
      → IsValid c
      → CanHold (holds id c) body
      → CanHold (store.holds id c.backing) body
  unfolding holds
  CanHold-backing c id body v h = elim (Option-cases (staged_body (c.staging id))) [
    | inl none_eq ↦ subst (λ o. CanHold (or_else o (store.holds id c.backing)) body) none_eq h
    | inr (b, e) ↦
        let here : holds id c ≡ some b = rw (holds, e) refl in
        subst (CanHold (store.holds id c.backing)) (CanHold-same _ b body here h) (v.staging id b e)
  ]

  module _ (sum_length : (body : List ℕ) → length (sha256 body) ≡ 32) (id class : ℕ) (body : List ℕ)
      (c : DiskCache S) where
    abbrev with_staged : DiskCache S
    with_staged = record c { staging = put_file id (some (staged sha256 class body)) c.staging }

    holds-staged : holds id with_staged ≡ some body
    unfolding holds
    holds-staged =
        let mine : (id == id) ≡ true = ground arith in
        rw (mine, read_staged-staged sha256 sum_length class body) refl

    holds-staged_other : (j : ℕ) → (id == j) ≡ false → holds j with_staged ≡ holds j c
    unfolding holds
    holds-staged_other j other = rw other refl

    file_mine : (j : ℕ) → (id == j) ≡ true → staged_body (with_staged.staging j) ≡ some body
    file_mine j mine = rw mine (ap body_of (read_staged-staged sha256 sum_length class body))

    file_other : (j : ℕ) → (id == j) ≡ false → with_staged.staging j ≡ c.staging j
    file_other j other = rw other refl

    staged-IsValid : IsValid c → CanHold (holds id c) body → IsValid with_staged
    staged-IsValid v h = record {
      backing = v.backing;
      staging = λ j b e. elim (Bool-cases (id == j)) [
        | inl mine ↦
            let here : id ≡ j = ground (arith, mine) in
            let same : body ≡ b = ground (arith, file_mine j mine, e) in
            subst (λ i. CanHold (store.holds i c.backing) b) here
              (subst (CanHold (store.holds id c.backing)) same (CanHold-backing c id body v h))
        | inr other ↦ v.staging j b (sym (ap staged_body (file_other j other)) ∙ e)
      ];
      clean = λ j b e. elim (Bool-cases (id == j)) [
        | inl mine ↦
            let here : id ≡ j = ground (arith, mine) in
            let old : holds id c ≡ some b =
              subst (λ i. holds i c ≡ some b) (sym here) (v.clean j b e) in
            let same : b ≡ body = CanHold-same _ b body old h in
            subst (λ i. holds i with_staged ≡ some b) here (holds-staged ∙ ap some (sym same))
        | inr other ↦ holds-staged_other j other ∙ v.clean j b e
      ];
    }

  module _ (sum_length : (body : List ℕ) → length (sha256 body) ≡ 32) (limits : Limits) where
    -- What a write leaves: the slice as before or with the new bytes, and every other slice as before.
    pub record Wrote (id : ℕ) (body : List ℕ) (c : DiskCache S) (r : DiskCache S × Bool)
        : Type 0 where
      pub still : IsValid r.0
      pub done : r.1 ≡ true → holds id r.0 ≡ some body
      pub may : CanHold (holds id r.0) body
      pub others : (j : ℕ) → (id == j) ≡ false → holds j r.0 ≡ holds j c

    pub write-Wrote :
        (disk : FileSystem) (id class : ℕ) (body : List ℕ) (c : DiskCache S)
        → IsValid c
        → CanHold (holds id c) body
        → Wrote id body c (write store sha256 limits disk id body class c)
    unfolding write stage
    write-Wrote disk id class body c v h =
        elim (Bool-cases (not (is_synced disk.stages) || not disk.renames)) [
          | inl fails ↦
              rw (write, stage, fails)
                (record {
                  still = v;
                  done = λ e. absurd (ground (arith, e));
                  may = h;
                  others = λ j e. refl;
                })
          | inr stages ↦
              rw (write, stage, stages)
                (record {
                  still = staged-IsValid sum_length id class body c v h;
                  done = λ e. holds-staged sum_length id class body c;
                  may = inr (holds-staged sum_length id class body c);
                  others = holds-staged_other sum_length id class body c;
                })
        ]
