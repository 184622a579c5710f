-- ===== src/Diskcache/Batches/Each.antt =====
-- A batch writer in memory, which writes one slice after the other, on which a drain can be run.
use memorylayer_storage.Prelude.{
  ℕ, ◌≡◌, ◌⊎◌, refl, sym, ◌∙◌, subst, true, Option, some, List, [], ◌∷◌, any, ◌==◌, arith, All,
  Bool-cases, inl, inr, if◌then◌else◌,
}
use memorylayer_storage.Fileio.Chunks.Memory.{Memory, memory}
use memorylayer_storage.Diskcache.Batches.{BatchItem, BatchWriter}

abbrev pub write_each : List BatchItem → Memory → Memory
write_each [] s = s
write_each (it ∷ items) s = write_each items (λ j. if it.id == j then some it.body else s j)

module _ (want : ℕ → Option (List ℕ)) where
  pub write_each_each :
      (items : List BatchItem) (s : Memory) (j : ℕ)
      → All (λ it. want it.id ≡ some it.body) items
      → (write_each items s j ≡ s j)
        ⊎ ((b : List ℕ) × (want j ≡ some b) × (write_each items s j ≡ some b))
  write_each_each [] s j w = inl refl
  write_each_each (it ∷ items) s j w =
      let s' : Memory = λ i. if it.id == i then some it.body else s i in
      elim (write_each_each items s' j w.1) [
        | inr v ↦ inr v
        | inl same ↦ elim (Bool-cases (it.id == j)) [
          | inl mine ↦
              let here : it.id ≡ j = ground (arith, mine) in
              inr (it.body, subst (λ i. want i ≡ some it.body) here w.0, same ∙ rw mine refl)
          | inr other ↦ inl (same ∙ rw other refl)
        ]
      ]

  pub write_each_done :
      (items : List BatchItem) (s : Memory) (j : ℕ)
      → All (λ it. want it.id ≡ some it.body) items
      → any (λ it. it.id == j) items ≡ true
      → write_each items s j ≡ want j
  write_each_done [] s j w e = absurd (ground (arith, e))
  write_each_done (it ∷ items) s j w e =
      let s' : Memory = λ i. if it.id == i then some it.body else s i in
      elim (Bool-cases (any (λ x. x.id == j) items)) [
        | inl later ↦ write_each_done items s' j w.1 later
        | inr last ↦
            let mine : (it.id == j) ≡ true = ground (arith, e, last) in
            let here : it.id ≡ j = ground (arith, mine) in
            let wanted = subst (λ i. want i ≡ some it.body) here w.0 in
            elim (write_each_each items s' j w.1) [
              | inl same ↦ same ∙ (rw mine refl ∙ sym wanted)
              | inr (b, f, now) ↦ now ∙ sym f
            ]
      ]

abbrev pub each : BatchWriter memory
each = record {
  write_batch = λ items s. (write_each items s, true);
  write_batch-IsValid = λ want items s v f. tt;
  write_batch_each = λ want items s j v f. write_each_each want items s j f.wanted;
  write_batch_done = λ want items s j v f ok e. write_each_done want items s j f.wanted e;
}
