-- ===== src/Diskcache/Batches/Promoting.antt =====
-- The end of an upload of `drainBatched`: the backing store has the slices, and they leave staging.
use memorylayer_storage.Prelude.{
  ℕ, ◌≡◌, ◌⊎◌, refl, sym, ap, ◌∙◌, subst, Option, some, List, [], ◌∷◌, length, take, All,
  Bool-cases, Option-cases, inl, inr,
}
use memorylayer_storage.Fileio.Chunks.{Store, CanHold}
use memorylayer_storage.Diskcache.{Limits, Clean, populate}
use memorylayer_storage.Diskcache.Coherence.{populate_body}
use memorylayer_storage.Diskcache.Serving.{DiskCache, FileSystem}
use memorylayer_storage.Diskcache.Contract.{staged_body, holds, IsValid}
use memorylayer_storage.Diskcache.Reads.{clean_change}
use memorylayer_storage.Diskcache.Draining.{Kept, Kept-same, Kept-trans, unstaged}
use memorylayer_storage.Diskcache.Batches.{BatchItem, promote, promote_all}

module _ {S : Type 0} (store : Store S) (sha256 : List ℕ → List ℕ)
    (sum_length : (body : List ℕ) → length (sha256 body) ≡ 32)
    (tells : (body : List ℕ) (k : ℕ) → sha256 (take k body) ≡ sha256 body → take k body ≡ body)
    (limits : Limits) where
  pub promote-Kept :
      (disk : FileSystem) (it : BatchItem) (c : DiskCache S)
      → IsValid store sha256 c
      → store.holds it.id c.backing ≡ some it.body
      → holds store sha256 it.id c ≡ some it.body
      → Kept store sha256 sum_length tells limits c (promote store sha256 limits disk it c)
  unfolding promote holds
  promote-Kept disk it c v there has = elim (Bool-cases disk.removes) [
    | inr stays ↦ rw (promote, stays) filled
    | inl goes ↦
        rw (promote, goes)
          (Kept-trans store sha256 sum_length tells limits c g _ filled (
            unstaged store sha256 sum_length tells limits it.id g filled.still (λ b f.
              let here : holds store sha256 it.id c ≡ some b = rw (holds, f) refl in
              there ∙ (sym has ∙ here))))
  ]
    where
      p : Clean
      p = (populate sha256 limits disk.fills disk.free it.id it.body c.clean).0

      g : DiskCache S
      g = record c { clean = p }

      filled : Kept store sha256 sum_length tells limits c g
      filled = clean_change store sha256 sum_length tells limits c p v (λ j b f.
          elim (populate_body sha256 sum_length tells limits disk.fills disk.free it.id it.body
            c.clean j b f) [
              | inl old ↦ v.clean j b old
              | inr (here, same) ↦
                  subst (λ i. holds store sha256 i c ≡ some b) here (has ∙ ap some (sym same))
            ])

  module _ (want : ℕ → Option (List ℕ)) where
    abbrev pub IsWanted : BatchItem → Type 0
    IsWanted it = want it.id ≡ some it.body

    -- What is wanted is held.
    abbrev pub Carries : DiskCache S → Type 0
    Carries c = (j : ℕ) (b : List ℕ) → want j ≡ some b → holds store sha256 j c ≡ some b

    pub Carries-Kept :
        (c d : DiskCache S) → Kept store sha256 sum_length tells limits c d → Carries c → Carries d
    Carries-Kept c d k w j b e = k.same j ∙ w j b e

    pub promote_all-Kept :
        (disks : ℕ → FileSystem) (items : List BatchItem) (c : DiskCache S)
        → IsValid store sha256 c
        → Carries c
        → All (λ it. IsWanted it × (store.holds it.id c.backing ≡ some it.body)) items
        → Kept store sha256 sum_length tells limits c
            (promote_all store sha256 limits disks items c)
    unfolding promote_all promote
    promote_all-Kept disks [] c v w h = Kept-same store sha256 sum_length tells limits c v
    promote_all-Kept disks (it ∷ items) c v w h =
        let d = promote store sha256 limits (disks it.id) it c in
        let k = promote-Kept (disks it.id) it c v h.0.1 (w it.id it.body h.0.0) in
        Kept-trans store sha256 sum_length tells limits c d _ k
          (promote_all-Kept disks items d k.still (Carries-Kept c d k w) h.1)

    pub promote_all-backing :
        (disks : ℕ → FileSystem) (items : List BatchItem) (c : DiskCache S)
        → (promote_all store sha256 limits disks items c).backing ≡ c.backing
    unfolding promote_all promote
    promote_all-backing disks [] c = refl
    promote_all-backing disks (it ∷ items) c =
        promote_all-backing disks items (promote store sha256 limits (disks it.id) it c)

    -- The backing store changes to where each slice is as before or has the bytes that are wanted.
    pub backing_written :
        (c : DiskCache S) (s : S)
        → IsValid store sha256 c
        → Carries c
        → store.IsValid s
        → ((j : ℕ)
            → (store.holds j s ≡ store.holds j c.backing)
              ⊎ ((b : List ℕ) × (want j ≡ some b) × (store.holds j s ≡ some b)))
        → Kept store sha256 sum_length tells limits c (record c { backing = s })
    unfolding holds
    backing_written c s v w i each = record {
      still = record {
        backing = i;
        staging = λ j b f. elim (each j) [
          | inl same ↦ subst (λ o. CanHold o b) (sym same) (v.staging j b f)
          | inr (b', e, now) ↦ inr (now ∙ (sym (w j b' e) ∙ rw (holds, f) refl))
        ];
        clean = λ j b f. same j ∙ v.clean j b f;
      };
      same = same;
    }
      where
        same : (j : ℕ) → holds store sha256 j (record c { backing = s }) ≡ holds store sha256 j c
        same j = elim (Option-cases (staged_body store sha256 (c.staging j))) [
          | inr (b, e) ↦ rw (holds, e) refl
          | inl none_eq ↦
              let before : holds store sha256 j c ≡ store.holds j c.backing =
                rw (holds, none_eq) refl in
              rw (holds, none_eq)
                (elim (each j) [ inl old ↦ old | inr (b, e, now) ↦ now ∙ (sym (w j b e) ∙ before) ])
        ]
