-- ===== src/Gc/Batches.antt =====
-- A batch of the garbage collector: its map `newest`, its query and its flush.
use memorylayer_storage.Prelude.{
  ℕ, ◌+◌, ◌≡◌, refl, sym, ap, ◌∙◌, subst, Bool, true, false, ◌&&◌, some, List, [], ◌∷◌, map, length,
  keep, any, ltb, ◌==◌, arith, Bool-cases, Option-cases, inl, inr,
}
use memorylayer_storage.Gc.{
  Cand, Query, referenced, live_slice_ids_in, put_newest, newest, Pass, judge, flush_batch,
}

pub any-put_newest :
    (p : Cand → Bool) (c : Cand) (m : List Cand)
    → p c ≡ false
    → any p m ≡ false
    → any p (put_newest c m) ≡ false
unfolding put_newest
any-put_newest p c [] h e = rw h refl
any-put_newest p c (d ∷ m) h e = elim (Bool-cases (d.id == c.id)) [
  | inl same ↦
      rw (put_newest, same)
        (elim (Bool-cases (ltb d.created c.created)) [
          | inl newer ↦ rw newer (ground (arith, h, e))
          | inr older ↦ rw older (ground (arith, e))
        ])
  | inr other ↦
      let rest = any-put_newest p c m h (ground (arith, e)) in
      rw (put_newest, other) (ground (arith, e, rest))
]

-- `newest` keeps some of the candidates, and adds none.
pub any-newest :
    (p : Cand → Bool) (cs m : List Cand)
    → any p cs ≡ false
    → any p m ≡ false
    → any p (newest cs m) ≡ false
unfolding newest
any-newest p [] m h e = e
any-newest p (c ∷ cs) m h e =
    any-newest p cs (put_newest c m) (ground (arith, h))
      (any-put_newest p c m (ground (arith, h)) e)

pub any-keep :
    (id : ℕ) (p : ℕ → Bool) (xs : List ℕ)
    → any (λ i. i == id) (keep p xs) ≡ (any (λ i. i == id) xs && p id)
any-keep id p [] = refl
any-keep id p (x ∷ xs) = elim (Bool-cases (x == id)) [
  | inl mine ↦
      let here : x ≡ id = ground (arith, mine) in
      elim (Bool-cases (p x)) [
        | inl hit ↦
            let at : p id ≡ true = subst (λ i. p i ≡ true) here hit in rw (hit, mine, at) refl
        | inr miss ↦
            let at : p id ≡ false = subst (λ i. p i ≡ false) here miss in
            let rest = any-keep id p xs in rw (miss, mine, at) (ground (arith, rest, at))
      ]
  | inr other ↦
      let rest = any-keep id p xs in
      elim (Bool-cases (p x)) [ inl hit ↦ rw (hit, other) rest | inr miss ↦ rw (miss, other) rest ]
]

-- The ids that a query finds referenced.
pub any-live_slice_ids_in :
    (q : Query) (ids live : List ℕ) (id : ℕ)
    → live_slice_ids_in q ids ≡ some live
    → any (λ i. i == id) live ≡ (any (λ i. i == id) ids && referenced id q.slices)
unfolding live_slice_ids_in
any-live_slice_ids_in q [] live id e = ap_any (ground (arith, e))
  where
    ap_any : live ≡ [] → any (λ i. i == id) live ≡ false
    ap_any h = rw h refl
any-live_slice_ids_in q (i ∷ ids) live id e = elim (Bool-cases q.answers) [
  | inl hit ↦
      let e' : live ≡ keep (λ j. referenced j q.slices) (i ∷ ids) = ground (arith, e, hit) in
      rw e' (any-keep id (λ j. referenced j q.slices) (i ∷ ids))
  | inr miss ↦ absurd (ground (arith, e, miss))
]

pub any-map : (p : ℕ → Bool) (cs : List Cand) → any p (map (λ d. d.id) cs) ≡ any (λ d. p d.id) cs
any-map p [] = refl
any-map p (c ∷ cs) = rw (any-map p cs) refl

-- A flush of a batch with candidates in it.
pub record FlushResult (safety : ℕ) (q : Query) (m : List Cand) (p p' : Pass) : Type 0 where
  pub live : List ℕ
  pub answer : live_slice_ids_in q (map (λ d. d.id) m) ≡ some live
  pub reclaim :
      p'.reclaim
      ≡ (judge safety q.now live m p.reclaim
          (record p.res { live_slices = p.res.live_slices + length live })).0
  pub batch : p'.batch ≡ []

pub flush_batch_result :
    (safety : ℕ) (q : Query) (c : Cand) (cs : List Cand) (p p' : Pass)
    → flush_batch safety q (c ∷ cs) p ≡ some p'
    → FlushResult safety q (newest (c ∷ cs) []) p p'
unfolding flush_batch
flush_batch_result safety q c cs p p' e =
    let m = newest (c ∷ cs) [] in
    elim (Option-cases (live_slice_ids_in q (map (λ d. d.id) m))) [
      | inl none_eq ↦ absurd (ground (arith, e, none_eq))
      | inr (live, f) ↦
          let r =
            judge safety q.now live m p.reclaim
              (record p.res { live_slices = p.res.live_slices + length live }) in
          let now : Pass = record { batch = []; reclaim = r.0; res = r.1 } in
          let here : flush_batch safety q (c ∷ cs) p ≡ some now = rw (flush_batch, f) refl in
          let same : p' ≡ now = ground (arith, e, here) in
          record {
            live = live;
            answer = f;
            reclaim = ap (λ x. x.reclaim) same;
            batch = ap (λ x. x.batch) same;
          }
    ]

pub flush_batch_empty :
    (safety : ℕ) (q : Query) (cs : List Cand) (p p' : Pass)
    → p.batch ≡ cs
    → flush_batch safety q cs p ≡ some p'
    → p'.batch ≡ []
unfolding flush_batch
flush_batch_empty safety q [] p p' b e =
    let same : p ≡ p' = ground (arith, e) in sym (ap (λ x. x.batch) same) ∙ b
flush_batch_empty safety q (c ∷ cs) p p' b e = (flush_batch_result safety q c cs p p' e).batch
