-- ===== src/Gc/Sparing.antt =====
-- What a pass of the garbage collector does not remove.
use memorylayer_storage.Prelude.{
  ℕ, ◌+◌, ◌≡◌, refl, sym, ap, ◌∙◌, subst, Bool, true, false, ◌&&◌, ◌||◌, not, none, some, List, [],
  ◌∷◌, ◌++◌, length, any, leb, ◌==◌, arith, Bool-cases, Option-cases, inl, inr,
}
use memorylayer_storage.Meta.Slices.Content.{any-append}
use memorylayer_storage.Fileio.Chunks.{Store}
use memorylayer_storage.Gc.{
  Cand, Query, referenced, newest, is_young, Counts, Pass, judge, flush_batch, flush, walk, start,
  mark, remove_all, run,
}
use memorylayer_storage.Gc.Batches.{any-newest, any-live_slice_ids_in, any-map, flush_batch_result}

module _ (safety id : ℕ) where
  -- A candidate for the slice that a query finds old enough.
  abbrev pub is_aged : Query → Cand → Bool
  is_aged q c = c.id == id && not (is_young safety q.now c)

  -- A query finds the slice referenced, or all candidates for it young.
  abbrev pub is_spared : Query → List Cand → Bool
  is_spared q cs = referenced id q.slices || not (any (is_aged q) cs)

  not_aged :
      (q : Query) (m : List Cand) → any (λ d. d.id == id) m ≡ false → any (is_aged q) m ≡ false
  not_aged q [] h = refl
  not_aged q (d ∷ m) h = ground (arith, h, not_aged q m (ground (arith, h)))

  judge_spared :
      (q : Query) (live : List ℕ) (m : List Cand) (reclaim : List ℕ) (res : Counts)
      → any (λ i. i == id) reclaim ≡ false
      → (any (λ i. i == id) live || not (any (is_aged q) m)) ≡ true
      → any (λ i. i == id) (judge safety q.now live m reclaim res).0 ≡ false
  unfolding judge
  judge_spared q live [] reclaim res h s = h
  judge_spared q live (c ∷ m) reclaim res h s = elim (Bool-cases (any (λ i. i == c.id) live)) [
    | inl found ↦ rw (judge, found) (judge_spared q live m reclaim res h (ground (arith, s)))
    | inr lost ↦ elim (Bool-cases (is_young safety q.now c)) [
      | inl young ↦
          rw (judge, lost, young)
            (judge_spared q live m reclaim
              (record res { slices_deferred_young = res.slices_deferred_young + 1 }) h
              (ground (arith, s)))
      | inr old ↦
          rw (judge, lost, old)
            (judge_spared q live m (reclaim ++ c.id ∷ []) res
              (any-append (λ i. i == id) reclaim (c.id ∷ []) ∙ (elim (Bool-cases (c.id == id)) [
                | inl mine ↦
                    let here : c.id ≡ id = ground (arith, mine) in
                    let gone : any (λ i. i == id) live ≡ false =
                      subst (λ k. any (λ i. i == k) live ≡ false) here lost in
                    absurd (ground (arith, s, gone, mine, old))
                | inr other ↦ ground (arith, h, other)
              ]))
              (ground (arith, s)))
    ]
  ]

  flush_batch_spared :
      (q : Query) (cs : List Cand) (p p' : Pass)
      → any (λ i. i == id) p.reclaim ≡ false
      → p.batch ≡ cs
      → is_spared q cs ≡ true
      → flush_batch safety q cs p ≡ some p'
      → (any (λ i. i == id) p'.reclaim ≡ false) × (p'.batch ≡ [])
  unfolding flush_batch
  flush_batch_spared q [] p p' h b s e =
      let same : p ≡ p' = ground (arith, e) in
      (subst (λ x. any (λ i. i == id) x.reclaim ≡ false) same h, sym (ap (λ x. x.batch) same) ∙ b)
  flush_batch_spared q (c ∷ cs) p p' h b s e =
      let v = flush_batch_result safety q c cs p p' e in
      (
        ap (any (λ i. i == id)) v.reclaim
            ∙ judge_spared q v.live (newest (c ∷ cs) []) p.reclaim _ h
                (elim (Bool-cases (any (is_aged q) (c ∷ cs))) [
                  | inr none_aged ↦
                      let old = any-newest (is_aged q) (c ∷ cs) [] none_aged refl in
                      ground (arith, old)
                  | inl aged ↦ elim (Bool-cases (any (λ d. d.id == id) (newest (c ∷ cs) []))) [
                    | inl there ↦
                        let found = any-live_slice_ids_in q _ v.live id v.answer in
                        let listed = any-map (λ i. i == id) (newest (c ∷ cs) []) in
                        ground (arith, found, listed, there, s, aged)
                    | inr gone ↦
                        let old = not_aged q (newest (c ∷ cs) []) gone in ground (arith, old)
                  ]
                ]),
        v.batch,
      )

  -- A query that finds the slice referenced, or all that the walk is to come to or has at hand young.
  abbrev is_spared_in : Query → List Cand → List Cand → Bool
  is_spared_in q batch cs =
      referenced id q.slices || not (any (is_aged q) batch || any (is_aged q) cs)

  -- Where the walk stands.
  record Sparing (last : Query) (p : Pass) : Type 0 where
    kept : any (λ i. i == id) p.reclaim ≡ false
    batch : is_spared last p.batch ≡ true

  walk-Sparing :
      (bs : ℕ) (queries : ℕ → Query) (last : Query) (cs : List Cand) (p p' : Pass)
      → any (λ i. i == id) p.reclaim ≡ false
      → ((k : ℕ) → is_spared_in (queries k) p.batch cs ≡ true)
      → is_spared_in last p.batch cs ≡ true
      → walk safety bs queries cs p ≡ some p'
      → Sparing last p'
  unfolding walk
  walk-Sparing bs queries last [] p p' h s l e =
      let same : p ≡ p' = ground (arith, e) in
      subst (Sparing last) same (record { kept = h; batch = ground (arith, l) })
  walk-Sparing bs queries last (c ∷ cs) p p' h s l e =
      let seen = record p.res { slices_scanned = p.res.slices_scanned + 1 } in
      let on : Pass = record p { batch = p.batch ++ c ∷ []; res = seen } in
      let more = λ (q : Query). any-append (is_aged q) p.batch (c ∷ []) in
      let s' : (k : ℕ) → is_spared_in (queries k) on.batch cs ≡ true =
        λ k. ground (arith, s k, more (queries k)) in
      let l' : is_spared_in last on.batch cs ≡ true = ground (arith, l, more last) in
      elim (Bool-cases (leb bs (length on.batch))) [
        | inr small ↦
            walk-Sparing bs queries last cs on p' h s' l' (sym (rw (walk, small) refl) ∙ e)
        | inl large ↦
            let q = queries seen.slices_scanned in
            elim (Option-cases (flush safety q on)) [
              | inl none_eq ↦
                  let dead : walk safety bs queries (c ∷ cs) p ≡ none =
                    rw (walk, large, none_eq) refl in
                  absurd (ground (arith, e, dead))
              | inr (p'', f) ↦
                  let v =
                    flush_batch_spared q on.batch on p'' h refl
                      (ground (arith, s' seen.slices_scanned)) f in
                  let fresh : (q : Query)
                      → is_spared_in q on.batch cs ≡ true
                      → is_spared_in q p''.batch cs ≡ true =
                    λ q t. subst (λ b. is_spared_in q b cs ≡ true) (sym v.1) (ground (arith, t)) in
                  walk-Sparing bs queries last cs p'' p' v.0 (λ k. fresh (queries k) (s' k))
                    (fresh last l') (sym (rw (walk, large, f) refl) ∙ e)
            ]
      ]

  mark_spared :
      (bs : ℕ) (queries : ℕ → Query) (last : Query) (walks : Bool) (stored : List Cand) (p : Pass)
      → ((k : ℕ) → is_spared (queries k) stored ≡ true)
      → is_spared last stored ≡ true
      → mark safety bs queries last walks stored ≡ some p
      → any (λ i. i == id) p.reclaim ≡ false
  unfolding mark
  mark_spared bs queries last walks stored p s l e =
      elim (Option-cases (walk safety bs queries stored start)) [
        | inl none_eq ↦ absurd (ground (arith, e, none_eq))
        | inr (p', f) ↦ elim (Bool-cases walks) [
          | inr breaks ↦
              let dead : mark safety bs queries last walks stored ≡ none =
                rw (mark, f, breaks) refl in
              absurd (ground (arith, e, dead))
          | inl goes ↦
              let v = walk-Sparing bs queries last stored start p' refl s l f in
              (flush_batch_spared last p'.batch p' p v.kept refl v.batch
                (sym (rw (mark, f, goes) refl) ∙ e)).0
        ]
      ]

  module _ {S : Type 0} (store : Store S) where
    remove_all-holds :
        (ids : List ℕ) (s : S)
        → store.IsValid s
        → any (λ i. i == id) ids ≡ false
        → store.holds id (remove_all store ids s).0 ≡ store.holds id s
    unfolding remove_all
    remove_all-holds [] s v h = refl
    remove_all-holds (i ∷ ids) s v h =
        let r = store.remove i s in
        let one : store.holds id r.0 ≡ store.holds id s =
          store.holds-remove_other i s id v (ground (arith, h)) in
        elim (Bool-cases r.1) [
          | inr fails ↦ rw (remove_all, fails) one
          | inl done ↦
              rw (remove_all, done)
                (remove_all-holds ids r.0 (store.remove-IsValid i s v) (ground (arith, h)) ∙ one)
        ]

    -- A pass leaves alone each slice that every query of it finds referenced, or finds too young in all
    -- of the candidates that the walk comes to, also where files are written and deleted beside it, and
    -- whether or not it ends with an error.
    pub run-holds :
        (bs : ℕ) (queries : ℕ → Query) (last : Query) (walks : Bool) (stored : List Cand) (s : S)
        → store.IsValid s
        → ((k : ℕ) → is_spared (queries k) stored ≡ true)
        → is_spared last stored ≡ true
        → store.holds id (run store safety bs queries last walks stored s).0 ≡ store.holds id s
    unfolding run
    run-holds bs queries last walks stored s v h l =
        elim (Option-cases (mark safety bs queries last walks stored)) [
          | inl none_eq ↦ rw (run, none_eq) refl
          | inr (p, e) ↦
              rw (run, e)
                (remove_all-holds p.reclaim s v (mark_spared bs queries last walks stored p h l e))
        ]
