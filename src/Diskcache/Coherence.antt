-- ===== src/Diskcache/Coherence.antt =====
-- What a disk cache holds, and how its clean cache changes.
use memorylayer_storage.Prelude.{
  ℕ, ◌+◌, ◌-◌, ◌≡◌, ◌⊎◌, refl, sym, ap, ◌∙◌, true, Option, none, some, List, [], ◌∷◌, length, take,
  ◌==◌, arith, Bool-cases, inl, inr,
}
use memorylayer_storage.Diskcache.{
  Checked, missing, corrupt, unreadable, valid, FileWrite, synced, unopened, torn, is_synced,
  after_write, Limits, Entry, Clean, put_file, add_lru, over, evict_from, evict, checksummed,
  read_checksummed, populate,
}
use memorylayer_storage.Diskcache.Framing.{check_bytes-torn, read_checksummed-checksummed}

abbrev pub body_of : Checked → Option (List ℕ)
body_of r = elim r [ valid class body ↦ some body | _ ↦ none ]

pub body_of-valid :
    (r : Checked) (b : List ℕ) → body_of r ≡ some b → (class : ℕ) × (r ≡ valid class b)
body_of-valid missing b h = absurd (ground (arith, h))
body_of-valid corrupt b h = absurd (ground (arith, h))
body_of-valid unreadable b h = absurd (ground (arith, h))
body_of-valid (valid class body) b h = (class, ground (arith, h))

-- Each file of the second directory is gone or that of the first.
abbrev pub IsFewer : (ℕ → Option (List ℕ)) → (ℕ → Option (List ℕ)) → Type 0
IsFewer files files' = (j : ℕ) → (files' j ≡ none) ⊎ (files' j ≡ files j)

IsFewer-trans : (f g h : ℕ → Option (List ℕ)) → IsFewer f g → IsFewer g h → IsFewer f h
IsFewer-trans f g h v w j = elim (w j) [
  | inl gone ↦ inl gone
  | inr same ↦ elim (v j) [ inl gone ↦ inl (same ∙ gone) | inr kept ↦ inr (same ∙ kept) ]
]

pub put_none-IsFewer :
    (id : ℕ) (files : ℕ → Option (List ℕ)) → IsFewer files (put_file id none files)
put_none-IsFewer id files j = elim (Bool-cases (id == j)) [
  | inl mine ↦ inl (rw mine refl)
  | inr other ↦ inr (rw other refl)
]

evict_from-IsFewer :
    (limits : Limits) (target freed : ℕ) (lru : List Entry) (c : Clean)
    → IsFewer c.files (evict_from limits target freed lru c).files
unfolding evict_from
evict_from-IsFewer limits target freed [] c j = inr refl
evict_from-IsFewer limits target freed (e ∷ lru) c j =
    elim (Bool-cases (over limits target freed (length (e ∷ lru)) c.cur_bytes)) [
      | inl goes ↦
          rw (evict_from, goes)
            (IsFewer-trans c.files (put_file e.id none c.files) _ (put_none-IsFewer e.id c.files)
              (evict_from-IsFewer limits target (freed + e.size) lru
                (record c { files = put_file e.id none c.files; cur_bytes = c.cur_bytes - e.size }))
              j)
      | inr stops ↦ rw (evict_from, stops) (inr refl)
    ]

pub evict-IsFewer :
    (limits : Limits) (free : Option (ℕ × ℕ)) (c : Clean)
    → IsFewer c.files (evict limits free c).files
unfolding evict
evict-IsFewer limits free c = evict_from-IsFewer limits _ 0 c.lru c

module _ (sha256 : List ℕ → List ℕ) (sum_length : (body : List ℕ) → length (sha256 body) ≡ 32)
    (tells : (body : List ℕ) (k : ℕ)
      → sha256 (take k body) ≡ sha256 body
      → take k body ≡ body) where
  -- The bytes that a cache file has, by its checksum.
  abbrev pub clean_body : Option (List ℕ) → Option (List ℕ)
  clean_body file = body_of (read_checksummed sha256 true file)

  -- A cache file after a write, whole or not, has the bytes that were written or those of before.
  after_write_body :
      (wrote : FileWrite) (body b : List ℕ) (old : Option (List ℕ))
      → clean_body (after_write wrote (checksummed sha256 body) old) ≡ some b
      → (b ≡ body) ⊎ (clean_body old ≡ some b)
  unfolding read_checksummed
  after_write_body synced body b old h =
      inl (ground (arith, h, read_checksummed-checksummed sha256 sum_length body))
  after_write_body unopened body b old h = inr h
  after_write_body (torn n) body b old h =
      let (class, e) = body_of-valid _ b h in
      inl (check_bytes-torn sha256 sum_length n body b class (tells body) e)

  populate-IsFewer :
      (limits : Limits) (wrote : FileWrite) (disk : Option (ℕ × ℕ)) (id : ℕ) (body : List ℕ)
      (c : Clean)
      → IsFewer
          (put_file id (after_write wrote (checksummed sha256 body) (c.files id)) c.files)
          (populate sha256 limits wrote disk id body c).0.files
  unfolding populate evict add_lru
  populate-IsFewer limits wrote disk id body c j = elim (Bool-cases (is_synced wrote)) [
    | inl done ↦ rw (populate, done) (evict_from-IsFewer limits _ 0 _ _ j)
    | inr failed ↦ rw (populate, failed) (inr refl)
  ]

  -- The bytes that a cache file has after `populate`: those of before, or the ones that it was given.
  pub populate_body :
      (limits : Limits) (wrote : FileWrite) (disk : Option (ℕ × ℕ)) (id : ℕ) (body : List ℕ)
      (c : Clean) (j : ℕ) (b : List ℕ)
      → clean_body ((populate sha256 limits wrote disk id body c).0.files j) ≡ some b
      → (clean_body (c.files j) ≡ some b) ⊎ ((id ≡ j) × (b ≡ body))
  unfolding read_checksummed
  populate_body limits wrote disk id body c j b h =
      elim (populate-IsFewer limits wrote disk id body c j) [
        | inl gone ↦ absurd (ground (arith, ap clean_body gone, h))
        | inr kept ↦ elim (Bool-cases (id == j)) [
          | inl mine ↦
              let here : id ≡ j = ground (arith, mine) in
              let file = kept ∙ rw mine refl in
              elim (after_write_body wrote body b (c.files id) (sym (ap clean_body file) ∙ h)) [
                | inl same ↦ inr (here, same)
                | inr old ↦ inl (rw (← here) old)
              ]
          | inr other ↦ inl (sym (ap clean_body (kept ∙ rw other refl)) ∙ h)
        ]
      ]
