-- ===== src/Fileio/Files/Segments.antt =====
-- The loop of `Files.Read` over the segments of a chunk, against a chunk store.
use memorylayer_storage.Prelude.{
  ℕ, ◌+◌, ◌-◌, ◌≤◌, ◌<◌, ◌≡◌, refl, sym, ap, ◌∙◌, true, Option, none, some, List, [], ◌∷◌, arith,
  ◌==◌, length, take, drop, get_elem?, All, Bool-cases, Option-cases, inl, inr,
}
use memorylayer_storage.Fileio.Chunks.{Store}
use memorylayer_storage.Fileio.Resolve.{Seg}
use memorylayer_storage.Fileio.Resolve.Overlay.{hits}
use memorylayer_storage.Fileio.Resolve.Windows.{source}
use memorylayer_storage.Fileio.Files.{splice, read_segs}
use memorylayer_storage.Fileio.Files.View.{byte_in, byte_of, or_zero}
use memorylayer_storage.Fileio.Files.Buffers.{
  IsInside, Filled, Filled-cons, clear_cons, length_cons, read_bytes,
}

pub byte_of_same :
    (h k : ℕ → Option (List ℕ)) (p : Option (ℕ × ℕ))
    → ((j : ℕ) → h j ≡ k j)
    → byte_of h p ≡ byte_of k p
byte_of_same h k none e = refl
byte_of_same h k (some p) e = ap (λ o. byte_in o p.1) (e p.0)

Filled-same :
    (h k : ℕ → Option (List ℕ)) (base offset : ℕ) (segs : List Seg) (buf buf' : List ℕ)
    → ((j : ℕ) → h j ≡ k j)
    → Filled h base offset segs buf buf'
    → Filled k base offset segs buf buf'
Filled-same h k base offset segs buf buf' e v = record {
  same_length = v.same_length;
  chunk = λ i p l. rw (← byte_of_same h k (source p segs) e) (v.chunk i p l);
  below = v.below;
}

-- Segments that lie in the buffer, are disjoint, and have zeros where they are to go.
pub record IsWindow (base offset : ℕ) (segs : List Seg) (buf : List ℕ) : Type 0 where
  pub inside : All (IsInside base offset (length buf)) segs
  pub once : (p : ℕ) → hits p segs ≤ 1
  pub clear : (i p : ℕ) → base + p ≡ offset + i → 0 < hits p segs → or_zero (get_elem? buf i) ≡ 0

Filled-hole :
    (holds : ℕ → Option (List ℕ)) (base offset : ℕ) (g : Seg) (segs : List Seg) (buf buf' : List ℕ)
    → (g.id == 0) ≡ true
    → IsWindow base offset (g ∷ segs) buf
    → Filled holds base offset segs buf buf'
    → Filled holds base offset (g ∷ segs) buf buf'
unfolding hits source
Filled-hole holds base offset g segs buf buf' hole w v = record {
  same_length = v.same_length;
  chunk = λ i p e. ground (arith, v.chunk i p e, hole, w.once p, w.clear i p e);
  below = v.below;
}

IsWindow-tail :
    (base offset : ℕ) (g : Seg) (segs : List Seg) (buf : List ℕ)
    → IsWindow base offset (g ∷ segs) buf
    → IsWindow base offset segs buf
unfolding hits
IsWindow-tail base offset g segs buf w = record {
  inside = w.inside.1;
  once = λ p. ground (arith, w.once p);
  clear = λ i p e h. w.clear i p e (omega (arith, h));
}

inside_same :
    (base offset m n : ℕ) (segs : List Seg)
    → m ≡ n
    → All (IsInside base offset m) segs
    → All (IsInside base offset n) segs
inside_same base offset m n segs e v = rw (← e) v

-- `none` is a read that fails.
abbrev pub IsFilled : (ℕ → Option (List ℕ)) → ℕ → ℕ → List Seg → List ℕ → Option (List ℕ) → Type 0
IsFilled holds base offset segs buf none = Unit
IsFilled holds base offset segs buf (some buf') = Filled holds base offset segs buf buf'

IsFilled-map :
    {h k : ℕ → Option (List ℕ)} {base offset : ℕ} {segs xs : List Seg} {buf b : List ℕ}
    → ((buf' : List ℕ) → Filled h base offset segs buf buf' → Filled k base offset xs b buf')
    → (o : Option (List ℕ)) → IsFilled h base offset segs buf o
    → IsFilled k base offset xs b o
IsFilled-map f none v = tt
IsFilled-map f (some buf') v = f buf' v

module _ {S : Type 0} (store : Store S) where
  -- The store holds what it held.
  pub record Kept (s s' : S) : Type 0 where
    pub valid : store.IsValid s'
    pub same : (j : ℕ) → store.holds j s' ≡ store.holds j s

  read_at-Kept : (id off n : ℕ) (s : S) → store.IsValid s → Kept s (store.read_at id off n s).0
  read_at-Kept id off n s v = record {
    valid = store.read_at-IsValid id off n s v;
    same = λ j. store.holds-read_at id off n s j v;
  }

  pub Kept-trans : (s t u : S) → Kept s t → Kept t u → Kept s u
  Kept-trans s t u v w = record { valid = w.valid; same = λ j. w.same j ∙ v.same j }

  pub read_segs-Kept :
      (base offset : ℕ) (segs : List Seg) (buf : List ℕ) (s : S)
      → store.IsValid s
      → Kept s (read_segs store base offset segs buf s).0
  unfolding read_segs
  read_segs-Kept base offset [] buf s v = record { valid = v; same = λ j. refl }
  read_segs-Kept base offset (g ∷ segs) buf s v = elim (Bool-cases (g.id == 0)) [
    | inl hole ↦ rw (read_segs, hole) (read_segs-Kept base offset segs buf s v)
    | inr real ↦
        rw (read_segs, real)
          (elim (Option-cases r.1) [
            | inl none_eq ↦ rw (read_segs, none_eq) kept
            | inr (bytes, e) ↦
                rw (read_segs, e)
                  (Kept-trans s r.0 _ kept (
                    read_segs-Kept base offset segs (splice buf (base + g.start - offset) bytes) r.0
                      kept.valid))
          ])
  ]
    where
      r : S × Option (List ℕ)
      r = store.read_at g.id g.src_off (g.end - g.start) s

      kept : Kept s r.0
      kept = read_at-Kept g.id g.src_off (g.end - g.start) s v

  -- What the loop leaves in the buffer, if no read fails.
  pub read_segs-IsFilled :
      (base offset : ℕ) (segs : List Seg) (buf : List ℕ) (s : S)
      → store.IsValid s
      → IsWindow base offset segs buf
      → IsFilled
          (λ id. store.holds id s)
          base
          offset
          segs
          buf
          (read_segs store base offset segs buf s).1
  unfolding read_segs hits source
  read_segs-IsFilled base offset [] buf s v w = record {
    same_length = refl;
    chunk = λ i p e. refl;
    below = λ i e. refl;
  }
  read_segs-IsFilled base offset (g ∷ segs) buf s v w = elim (Bool-cases (g.id == 0)) [
    | inl hole ↦
        rw (read_segs, hole)
          (IsFilled-map (λ buf' f. Filled-hole _ base offset g segs buf buf' hole w f) _
            (read_segs-IsFilled base offset segs buf s v (IsWindow-tail base offset g segs buf w)))
    | inr real ↦
        rw (read_segs, real)
          (elim (Option-cases r.1) [
            | inl none_eq ↦ rw (read_segs, none_eq) tt
            | inr (bytes, e) ↦
                let (body, held, part) =
                  store.read_at-holds g.id g.src_off (g.end - g.start) s bytes v e in
                let kept = read_at-Kept g.id g.src_off (g.end - g.start) s v in
                let got = λ (k : ℕ). read_bytes (g.end - g.start) g.src_off k bytes body part in
                let first =
                  Filled-cons (λ id. store.holds id s) base offset g segs buf bytes w.inside.0
                    (got 0).0 w.once w.clear in
                rw (read_segs, e)
                  (IsFilled-map
                    (λ buf' f.
                      first buf' real (λ k l. rw held ((got k).1 l))
                        (Filled-same _ _ base offset segs _ buf' kept.same f))
                    _
                    (read_segs-IsFilled base offset segs
                      (splice buf (base + g.start - offset) bytes) r.0 kept.valid
                      (window bytes body part)))
          ])
  ]
    where
      r : S × Option (List ℕ)
      r = store.read_at g.id g.src_off (g.end - g.start) s

      window :
          (bytes body : List ℕ)
          → bytes ≡ take (g.end - g.start) (drop g.src_off body)
          → IsWindow base offset segs (splice buf (base + g.start - offset) bytes)
      window bytes body part =
          let short : length bytes ≤ g.end - g.start =
            (read_bytes (g.end - g.start) g.src_off 0 bytes body part).0 in
          record {
            inside =
                inside_same base offset (length buf) _ segs
                  (sym (
                    length_cons (λ id. store.holds id s) base offset g segs buf bytes w.inside.0
                      short w.once w.clear))
                  w.inside.1;
            once = (IsWindow-tail base offset g segs buf w).once;
            clear =
                clear_cons (λ id. store.holds id s) base offset g segs buf bytes w.inside.0 short
                  w.once w.clear;
          }
