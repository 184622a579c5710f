-- ===== src/Diskcache/Batches/Scanning.antt =====
-- The scan of `drainBatched`: what it puts into batches, and what it quarantines.
use memorylayer_storage.Prelude.{
  ℕ, ◌+◌, ◌≡◌, refl, sym, ap, ◌∙◌, subst, Bool, true, false, ◌&&◌, ◌||◌, Option, none, some, List,
  [], ◌∷◌, ◌++◌, length, take, any, leb, ◌==◌, arith, is_some, All, All-append, Bool-cases,
  Option-cases, inl, inr,
}
use memorylayer_storage.Meta.Slices.Content.{any-append}
use memorylayer_storage.Fileio.Chunks.{Store}
use memorylayer_storage.Diskcache.{Limits, read_staged}
use memorylayer_storage.Diskcache.Coherence.{body_of}
use memorylayer_storage.Diskcache.Serving.{DiskCache, FileSystem, has_failed, quarantine}
use memorylayer_storage.Diskcache.Contract.{Checked-cases, staged_body, IsValid}
use memorylayer_storage.Diskcache.Draining.{Kept, Kept-same, Kept-trans, quarantine-Kept}
use memorylayer_storage.Diskcache.Batches.{BatchItem, Gathered, hand_off, gather}

abbrev pub is_at : ℕ → BatchItem → Bool
is_at j it = it.id == j

module _ {S : Type 0} (store : Store S) (sha256 : List ℕ → List ℕ)
    (sum_length : (body : List ℕ) → length (sha256 body) ≡ 32)
    (tells : (body : List ℕ) (k : ℕ) → sha256 (take k body) ≡ sha256 body → take k body ≡ body)
    (limits : Limits) (want : ℕ → Option (List ℕ)) where
  abbrev pub IsWanted : BatchItem → Type 0
  IsWanted it = want it.id ≡ some it.body

  -- The slices that are staged with a right checksum are those that are wanted.
  abbrev pub IsStaged : DiskCache S → Type 0
  IsStaged c = (j : ℕ) → want j ≡ staged_body store sha256 (c.staging j)

  -- What a scan comes to, of the ids that are left and with the batch at hand.
  pub record Scan (ids : List ℕ) (batch : List BatchItem) (c : DiskCache S) (r : Gathered S)
      : Type 0 where
    pub kept : Kept store sha256 sum_length tells limits c r.cache
    pub wanted : All IsWanted batch → All (All IsWanted) r.batches
    pub listed :
        (j m : ℕ)
        → r.set_aside ≡ some m
        → ((any (λ i. i == j) ids && is_some (want j)) || any (is_at j) batch) ≡ true
        → any (any (is_at j)) r.batches ≡ true

  hand_off-IsWanted :
      (batch : List BatchItem) → All IsWanted batch → All (All IsWanted) (hand_off batch)
  hand_off-IsWanted [] w = tt
  hand_off-IsWanted (it ∷ its) w = (w, tt)

  hand_off-listed :
      (j : ℕ) (batch : List BatchItem)
      → any (is_at j) batch ≡ true
      → any (any (is_at j)) (hand_off batch) ≡ true
  hand_off-listed j [] h = h
  hand_off-listed j (it ∷ its) h = rw h refl

  -- An entry without a slice is passed over.
  passed :
      (id : ℕ) (ids : List ℕ) (batch : List BatchItem) (c d : DiskCache S) (r : Gathered S)
      → want id ≡ none
      → Kept store sha256 sum_length tells limits c d
      → Scan ids batch d r
      → Scan (id ∷ ids) batch c r
  passed id ids batch c d r e k v = record {
    kept = Kept-trans store sha256 sum_length tells limits c d r.cache k v.kept;
    wanted = v.wanted;
    listed = λ j m s h. v.listed j m s (elim (Bool-cases (id == j)) [
      | inl mine ↦
          let here : id ≡ j = ground (arith, mine) in
          let none_here : want j ≡ none = subst (λ i. want i ≡ none) here e in
          ground (arith, h, none_here)
      | inr other ↦ ground (arith, h, other)
    ]);
  }

  quarantine-IsStaged :
      (disk : FileSystem) (id : ℕ) (raw : List ℕ) (c : DiskCache S)
      → want id ≡ none
      → IsStaged c
      → IsStaged (quarantine store sha256 limits disk id raw c).0
  unfolding quarantine read_staged
  quarantine-IsStaged disk id raw c e w j = elim (Bool-cases disk.renames) [
    | inr stays ↦ rw (quarantine, stays) (w j)
    | inl moves ↦ elim (Bool-cases (id == j)) [
      | inl mine ↦
          let here : id ≡ j = ground (arith, mine) in
          rw (quarantine, moves, mine) (subst (λ i. want i ≡ none) here e)
      | inr other ↦ rw (quarantine, moves, other) (w j)
    ]
  ]

  -- An item more in the batch.
  taken :
      (id class : ℕ) (body : List ℕ) (batch : List BatchItem) (ids : List ℕ) (c : DiskCache S)
      (r : Gathered S)
      → want id ≡ some body
      → Scan ids (batch ++ record { id = id; body = body; class = class } ∷ []) c r
      → Scan (id ∷ ids) batch c r
  taken id class body batch ids c r e v = record {
    kept = v.kept;
    wanted = λ w. v.wanted (All-append IsWanted batch (it ∷ []) w (e, tt));
    listed = λ j m s h. v.listed j m s (
        rw (any-append (is_at j) batch (it ∷ [])) (elim (Bool-cases (id == j)) [
          | inl mine ↦ ground (arith, mine)
          | inr other ↦ ground (arith, h, other)
        ]));
  }
    where
      it : BatchItem
      it = record { id = id; body = body; class = class }

  -- The batch is handed off, and the scan goes on with a new one.
  handed :
      (ids : List ℕ) (batch : List BatchItem) (c : DiskCache S) (r : Gathered S)
      → Scan ids [] c r
      → Scan ids batch c (record r { batches = batch ∷ r.batches })
  handed ids batch c r v = record {
    kept = v.kept;
    wanted = λ w. (w, v.wanted tt);
    listed = λ j m s h. elim (Bool-cases (any (is_at j) batch)) [
      | inl mine ↦ rw mine refl
      | inr other ↦ rw other (v.listed j m s (ground (arith, h, other)))
    ];
  }

  -- An entry that is not a slice is quarantined, or ends the scan.
  aside :
      (disk : FileSystem) (id : ℕ) (raw : List ℕ) (ids : List ℕ) (batch : List BatchItem)
      (c : DiskCache S) (rest : Gathered S)
      → IsValid store sha256 c
      → IsStaged c
      → want id ≡ none
      → (Kept store sha256 sum_length tells limits c
            (quarantine store sha256 limits disk id raw c).0
          → IsStaged (quarantine store sha256 limits disk id raw c).0
          → Scan ids batch (quarantine store sha256 limits disk id raw c).0 rest)
      → Scan
          (id ∷ ids)
          batch
          c
          (elim (has_failed store sha256 limits (quarantine store sha256 limits disk id raw c).1) [
            | true ↦ record {
              cache = (quarantine store sha256 limits disk id raw c).0;
              batches = [];
              set_aside = none;
            }
            | false ↦ rest
          ])
  aside disk id raw ids batch c rest v w e more =
      let q = quarantine store sha256 limits disk id raw c in
      let k =
        quarantine-Kept store sha256 sum_length tells limits disk id raw c v (sym (w id) ∙ e) in
      elim (Bool-cases (has_failed store sha256 limits q.1)) [
        | inl stops ↦
            rw stops (record {
              kept = k;
              wanted = λ x. tt;
              listed = λ j m s h. absurd (ground (arith, s));
            })
        | inr goes ↦
            rw goes
              (passed id ids batch c q.0 rest e k (more k (quarantine-IsStaged disk id raw c e w)))
      ]

  pub gather-Scan :
      (disks : ℕ → FileSystem) (budget : ℕ) (ids : List ℕ) (batch : List BatchItem) (bytes n : ℕ)
      (c : DiskCache S)
      → IsValid store sha256 c
      → IsStaged c
      → ((id : ℕ) → (disks id).reads_staging ≡ true)
      → Scan ids batch c (gather store sha256 limits disks budget ids batch bytes n c)
  unfolding gather read_staged
  gather-Scan disks budget [] batch bytes n c v w reads = record {
    kept = Kept-same store sha256 sum_length tells limits c v;
    wanted = hand_off-IsWanted batch;
    listed = λ j m s h. hand_off-listed j batch h;
  }
  gather-Scan disks budget (id ∷ ids) batch bytes n c v w reads =
      elim (Option-cases (c.staging id)) [
        | inl none_eq ↦
            rw (gather, none_eq)
              (passed id ids batch c c _ (w id ∙ ap (staged_body store sha256) none_eq) same
                (gather-Scan disks budget ids batch bytes n c v w reads))
        | inr (raw, e) ↦
            rw (gather, e, reads id)
              (elim (Checked-cases (read_staged sha256 true (some raw))) [
                | inl f ↦
                    rw (gather, f)
                      (aside (disks id) id raw ids batch c _ v w (w id ∙ rw e (ap body_of f))
                        (λ k s.
                          gather-Scan disks budget ids batch bytes (n + 1)
                            (quarantine store sha256 limits (disks id) id raw c).0 k.still s reads))
                | inr (inl (inl f)) ↦
                    rw (gather, f)
                      (passed id ids batch c c _ (w id ∙ rw e (ap body_of f)) same
                        (gather-Scan disks budget ids batch bytes n c v w reads))
                | inr (inl (inr f)) ↦
                    rw (gather, f)
                      (aside (disks id) id raw ids batch c _ v w (w id ∙ rw e (ap body_of f))
                        (λ k s.
                          gather-Scan disks budget ids batch bytes (n + 1)
                            (quarantine store sha256 limits (disks id) id raw c).0 k.still s reads))
                | inr (inr (class, body, f)) ↦
                    let full = batch ++ record { id = id; body = body; class = class } ∷ [] in
                    let has : want id ≡ some body = w id ∙ rw e (ap body_of f) in
                    rw (gather, f)
                      (elim (Bool-cases (leb budget (bytes + length body))) [
                        | inr small ↦
                            rw (gather, small)
                              (taken id class body batch ids c _ has (
                                gather-Scan disks budget ids full (bytes + length body) n c v w
                                  reads))
                        | inl large ↦
                            rw (gather, large)
                              (taken id class body batch ids c _ has (
                                handed ids full c _
                                  (gather-Scan disks budget ids [] 0 n c v w reads)))
                      ])
              ])
      ]
    where
      same : Kept store sha256 sum_length tells limits c c
      same = Kept-same store sha256 sum_length tells limits c v
