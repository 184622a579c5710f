-- ===== src/Gc/Reclaiming.antt =====
-- What a pass of the garbage collector removes.
use memorylayer_storage.Prelude.{
  ℕ, ◌+◌, ◌≡◌, refl, sym, ◌∙◌, subst, Bool, true, false, ◌||◌, none, some, List, [], ◌∷◌, ◌++◌,
  length, any, leb, ◌==◌, arith, Bool-cases, Option-cases, inl, inr,
}
use memorylayer_storage.Meta.Slices.Content.{any-append}
use memorylayer_storage.Fileio.Chunks.{Store}
use memorylayer_storage.Gc.{
  Cand, Query, referenced, Pass, flush, walk, start, mark, remove_all, run,
}
use memorylayer_storage.Gc.Batches.{flush_batch_empty}
use memorylayer_storage.Gc.Judging.{is_for, is_young_for, is_spared_by, flush_batch_for}

module _ (safety id : ℕ) where
  abbrev is_spared_in : Query → List Cand → List Cand → Bool
  is_spared_in q batch cs =
      referenced id q.slices
      || (any (is_young_for safety id q) batch || any (is_young_for safety id q) cs)

  -- Where the walk stands.
  record Seen (last : Query) (p : Pass) : Type 0 where
    known : (any (λ i. i == id) p.reclaim || any (is_for safety id) p.batch) ≡ true
    batch : is_spared_by safety id last p.batch ≡ false

  walk-Seen :
      (bs : ℕ) (queries : ℕ → Query) (last : Query) (cs : List Cand) (p p' : Pass)
      → (any (λ i. i == id) p.reclaim
          || (any (is_for safety id) p.batch || any (is_for safety id) cs))
        ≡ true
      → ((k : ℕ) → is_spared_in (queries k) p.batch cs ≡ false)
      → is_spared_in last p.batch cs ≡ false
      → walk safety bs queries cs p ≡ some p'
      → Seen last p'
  unfolding walk
  walk-Seen bs queries last [] p p' h s l e =
      let same : p ≡ p' = ground (arith, e) in
      subst (Seen last) same (record { known = ground (arith, h); batch = ground (arith, l) })
  walk-Seen bs queries last (c ∷ cs) p p' h s l e =
      let seen = record p.res { slices_scanned = p.res.slices_scanned + 1 } in
      let on : Pass = record p { batch = p.batch ++ c ∷ []; res = seen } in
      let more = λ (q : Query). any-append (is_young_for safety id q) p.batch (c ∷ []) in
      let here = any-append (is_for safety id) p.batch (c ∷ []) in
      let s' : (k : ℕ) → is_spared_in (queries k) on.batch cs ≡ false =
        λ k. ground (arith, s k, more (queries k)) in
      let l' : is_spared_in last on.batch cs ≡ false = ground (arith, l, more last) in
      let h' : (any (λ i. i == id) on.reclaim
            || (any (is_for safety id) on.batch || any (is_for safety id) cs))
          ≡ true =
        ground (arith, h, here) in
      elim (Bool-cases (leb bs (length on.batch))) [
        | inr small ↦ walk-Seen bs queries last cs on p' h' s' l' (sym (rw (walk, small) refl) ∙ e)
        | inl large ↦
            let q = queries seen.slices_scanned in
            elim (Option-cases (flush safety q on)) [
              | inl none_eq ↦
                  let dead : walk safety bs queries (c ∷ cs) p ≡ none =
                    rw (walk, large, none_eq) refl in
                  absurd (ground (arith, e, dead))
              | inr (p'', f) ↦
                  let empty = flush_batch_empty safety q on.batch on p'' refl f in
                  let fresh : (x : Query)
                      → is_spared_in x on.batch cs ≡ false
                      → is_spared_in x p''.batch cs ≡ false =
                    λ x t.
                      subst (λ b. is_spared_in x b cs ≡ false) (sym empty) (ground (arith, t)) in
                  let there : (any (λ i. i == id) p''.reclaim
                        || (any (is_for safety id) p''.batch || any (is_for safety id) cs))
                      ≡ true =
                    elim (Bool-cases
                      (any (λ i. i == id) on.reclaim || any (is_for safety id) on.batch)) [
                        | inl now ↦
                            let v =
                              flush_batch_for safety id q on.batch on p'' refl now
                                (ground (arith, s' seen.slices_scanned)) f in
                            ground (arith, v.0)
                        | inr later ↦ ground (arith, h', later)
                      ] in
                  walk-Seen bs queries last cs p'' p' there (λ k. fresh (queries k) (s' k))
                    (fresh last l') (sym (rw (walk, large, f) refl) ∙ e)
            ]
      ]

  mark_for :
      (bs : ℕ) (queries : ℕ → Query) (last : Query) (walks : Bool) (stored : List Cand) (p : Pass)
      → any (is_for safety id) stored ≡ true
      → ((k : ℕ) → is_spared_by safety id (queries k) stored ≡ false)
      → is_spared_by safety id last stored ≡ false
      → mark safety bs queries last walks stored ≡ some p
      → any (λ i. i == id) p.reclaim ≡ true
  unfolding mark
  mark_for bs queries last walks stored p h s l e =
      elim (Option-cases (walk safety bs queries stored start)) [
        | inl none_eq ↦ absurd (ground (arith, e, none_eq))
        | inr (p', f) ↦ elim (Bool-cases walks) [
          | inr breaks ↦
              let dead : mark safety bs queries last walks stored ≡ none =
                rw (mark, f, breaks) refl in
              absurd (ground (arith, e, dead))
          | inl goes ↦
              let v = walk-Seen bs queries last stored start p' h s l f in
              (flush_batch_for safety id last p'.batch p' p refl v.known v.batch
                (sym (rw (mark, f, goes) refl) ∙ e)).0
        ]
      ]

  module _ {S : Type 0} (store : Store S) where
    remove-none :
        (i : ℕ) (s : S)
        → store.IsValid s
        → (store.remove i s).1 ≡ true
        → store.holds id s ≡ none
        → store.holds id (store.remove i s).0 ≡ none
    remove-none i s v done h = elim (Bool-cases (i == id)) [
      | inl mine ↦
          let here : i ≡ id = ground (arith, mine) in
          subst (λ k. store.holds k (store.remove i s).0 ≡ none) here
            (store.holds-remove i s v done)
      | inr other ↦ store.holds-remove_other i s id v other ∙ h
    ]

    remove_all-none :
        (ids : List ℕ) (s : S)
        → store.IsValid s
        → (remove_all store ids s).2 ≡ true
        → store.holds id s ≡ none
        → store.holds id (remove_all store ids s).0 ≡ none
    unfolding remove_all
    remove_all-none [] s v e h = h
    remove_all-none (i ∷ ids) s v e h =
        let r = store.remove i s in
        elim (Bool-cases r.1) [
          | inr fails ↦ absurd (ground (arith, e, fails))
          | inl done ↦
              rw (remove_all, done)
                (remove_all-none ids r.0 (store.remove-IsValid i s v) (ground (arith, e, done))
                  (remove-none i s v done h))
        ]

    remove_all_removes :
        (ids : List ℕ) (s : S)
        → store.IsValid s
        → (remove_all store ids s).2 ≡ true
        → any (λ i. i == id) ids ≡ true
        → store.holds id (remove_all store ids s).0 ≡ none
    unfolding remove_all
    remove_all_removes [] s v e h = absurd (ground (arith, h))
    remove_all_removes (i ∷ ids) s v e h =
        let r = store.remove i s in
        let w = store.remove-IsValid i s v in
        elim (Bool-cases r.1) [
          | inr fails ↦ absurd (ground (arith, e, fails))
          | inl done ↦
              let on : (remove_all store ids r.0).2 ≡ true = ground (arith, e, done) in
              rw (remove_all, done)
                (elim (Bool-cases (i == id)) [
                  | inl mine ↦
                      let here : i ≡ id = ground (arith, mine) in
                      remove_all-none ids r.0 w on
                        (subst (λ k. store.holds k r.0 ≡ none) here (store.holds-remove i s v done))
                  | inr other ↦ remove_all_removes ids r.0 w on (ground (arith, h, other))
                ])
        ]

    -- A pass that ends without an error has removed each slice that its walk comes to, if no query of it
    -- finds the slice referenced or one of its candidates too young, for any size of the batches.
    pub run_removes :
        (bs : ℕ) (queries : ℕ → Query) (last : Query) (walks : Bool) (stored : List Cand) (s : S)
        → store.IsValid s
        → (run store safety bs queries last walks stored s).2 ≡ true
        → any (is_for safety id) stored ≡ true
        → ((k : ℕ) → is_spared_by safety id (queries k) stored ≡ false)
        → is_spared_by safety id last stored ≡ false
        → store.holds id (run store safety bs queries last walks stored s).0 ≡ none
    unfolding run
    run_removes bs queries last walks stored s v ok h g l =
        elim (Option-cases (mark safety bs queries last walks stored)) [
          | inl none_eq ↦ absurd (ground (arith, ok, none_eq))
          | inr (p, e) ↦
              rw (run, e)
                (remove_all_removes p.reclaim s v (ground (arith, ok, e))
                  (mark_for bs queries last walks stored p h g l e))
        ]
