-- ===== src/Gc/Judging.antt =====
-- The verdicts of a flush of the garbage collector on the candidates for a slice that is garbage.
use memorylayer_storage.Prelude.{
  ℕ, ◌+◌, ◌≡◌, refl, sym, ap, ◌∙◌, subst, Bool, true, false, ◌&&◌, ◌||◌, some, List, [], ◌∷◌, ◌++◌,
  any, ltb, ◌==◌, arith, Bool-cases, inl, inr,
}
use memorylayer_storage.Meta.Slices.Content.{any-append}
use memorylayer_storage.Gc.{
  Cand, Query, referenced, put_newest, newest, is_young, Counts, Pass, judge, flush_batch,
}
use memorylayer_storage.Gc.Batches.{any-newest, any-live_slice_ids_in, flush_batch_result}

module _ (safety id : ℕ) where
  abbrev pub is_for : Cand → Bool
  is_for c = c.id == id

  abbrev pub is_young_for : Query → Cand → Bool
  is_young_for q c = c.id == id && is_young safety q.now c

  -- A query does not find the slice referenced, and none of its candidates young.
  abbrev pub is_spared_by : Query → List Cand → Bool
  is_spared_by q cs = referenced id q.slices || any (is_young_for q) cs

  put_newest_for :
      (c : Cand) (m : List Cand) → any is_for (put_newest c m) ≡ (is_for c || any is_for m)
  unfolding put_newest
  put_newest_for c [] = refl
  put_newest_for c (d ∷ m) =
      let rest = put_newest_for c m in
      elim (Bool-cases (d.id == c.id)) [
        | inl same ↦
            let here : d.id ≡ c.id = ground (arith, same) in
            let alike : is_for d ≡ is_for c = ap (λ i. i == id) here in
            rw (put_newest, same)
              (elim (Bool-cases (ltb d.created c.created)) [
                | inl newer ↦ rw newer (ground (arith, alike))
                | inr older ↦ rw older (ground (arith, alike))
              ])
        | inr other ↦ rw (put_newest, other) (ground (arith, rest))
      ]

  newest_for : (cs m : List Cand) → any is_for (newest cs m) ≡ (any is_for cs || any is_for m)
  unfolding newest
  newest_for [] m = refl
  newest_for (c ∷ cs) m =
      let rest = newest_for cs (put_newest c m) in
      let first = put_newest_for c m in ground (arith, rest, first)

  judge_for :
      (q : Query) (live : List ℕ) (m : List Cand) (reclaim : List ℕ) (res : Counts)
      → (any (λ i. i == id) reclaim || any is_for m) ≡ true
      → (any (λ i. i == id) live || any (is_young_for q) m) ≡ false
      → any (λ i. i == id) (judge safety q.now live m reclaim res).0 ≡ true
  unfolding judge
  judge_for q live [] reclaim res h s = ground (arith, h)
  judge_for q live (c ∷ m) reclaim res h s = elim (Bool-cases (any (λ i. i == c.id) live)) [
    | inl found ↦
        rw (judge, found)
          (judge_for q live m reclaim res
            (elim (Bool-cases (c.id == id)) [
              | inl mine ↦
                  let here : c.id ≡ id = ground (arith, mine) in
                  let there : any (λ i. i == id) live ≡ true =
                    subst (λ k. any (λ i. i == k) live ≡ true) here found in
                  absurd (ground (arith, s, there))
              | inr other ↦ ground (arith, h, other)
            ])
            (ground (arith, s)))
    | inr lost ↦ elim (Bool-cases (is_young safety q.now c)) [
      | inl young ↦
          rw (judge, lost, young)
            (judge_for q live m reclaim
              (record res { slices_deferred_young = res.slices_deferred_young + 1 })
              (ground (arith, h, s, young)) (ground (arith, s)))
      | inr old ↦
          let more = any-append (λ i. i == id) reclaim (c.id ∷ []) in
          rw (judge, lost, old)
            (judge_for q live m (reclaim ++ c.id ∷ []) res (ground (arith, h, more))
              (ground (arith, s)))
    ]
  ]

  pub flush_batch_for :
      (q : Query) (cs : List Cand) (p p' : Pass)
      → p.batch ≡ cs
      → (any (λ i. i == id) p.reclaim || any is_for cs) ≡ true
      → is_spared_by q cs ≡ false
      → flush_batch safety q cs p ≡ some p'
      → (any (λ i. i == id) p'.reclaim ≡ true) × (p'.batch ≡ [])
  unfolding flush_batch
  flush_batch_for q [] p p' b h s e =
      let same : p ≡ p' = ground (arith, e) in
      (
        subst (λ x. any (λ i. i == id) x.reclaim ≡ true) same (ground (arith, h)),
        sym (ap (λ x. x.batch) same) ∙ b,
      )
  flush_batch_for q (c ∷ cs) p p' b h s e =
      let v = flush_batch_result safety q c cs p p' e in
      let m = newest (c ∷ cs) [] in
      let all = newest_for (c ∷ cs) [] in
      let old = any-newest (is_young_for q) (c ∷ cs) [] (ground (arith, s)) refl in
      let found = any-live_slice_ids_in q _ v.live id v.answer in
      let gone : any (λ i. i == id) v.live ≡ false = ground (arith, found, s) in
      (
        ap (any (λ i. i == id)) v.reclaim
            ∙ judge_for q v.live m p.reclaim _ (ground (arith, h, all)) (ground (arith, gone, old)),
        v.batch,
      )
