-- ===== src/Fileio/Files/Buffers.antt =====
-- The buffer of `Files.Read`, and its loop over the segments of a chunk.
use memorylayer_storage.Prelude.{
  ℕ, zero, suc, ◌+◌, ◌-◌, ◌≤◌, ◌<◌, ◌≡◌, refl, sym, ap, ◌∙◌, false, ◌&&◌, Option, List, [], ◌∷◌,
  ◌++◌, arith, ltb, leb, ◌==◌, if◌then◌else◌, length, take, drop, length-append, length-take,
  length-drop, take-append-drop, get_elem?, get_elem?-take, get_elem?-drop, get_elem?-append,
  get_elem?-append_past, get_elem?_past, Bool-cases, inl, inr,
}
use memorylayer_storage.Fileio.Resolve.{Seg}
use memorylayer_storage.Fileio.Resolve.Overlay.{in_seg, hits}
use memorylayer_storage.Fileio.Resolve.Windows.{source}
use memorylayer_storage.Fileio.Files.{splice, zeros}
use memorylayer_storage.Fileio.Files.View.{byte_in, byte_of, or_zero}

pub length-zeros : (n : ℕ) → length (zeros n) ≡ n
length-zeros zero = refl
length-zeros (suc n) = omega (arith, length-zeros n)

pub zeros_zero : (n i : ℕ) → or_zero (get_elem? (zeros n) i) ≡ 0
zeros_zero zero i = refl
zeros_zero (suc n) zero = refl
zeros_zero (suc n) (suc i) = zeros_zero n i

length-splice :
    (buf bytes : List ℕ) (at : ℕ)
    → at + length bytes ≤ length buf
    → length (splice buf at bytes) ≡ length buf
unfolding splice
length-splice buf bytes at h =
    rw
      (
        length-append (take at buf) (bytes ++ drop (at + length bytes) buf),
        length-append bytes (drop (at + length bytes) buf),
        length-take at buf,
        length-drop (at + length bytes) buf,
      )
      (omega (arith, h))

get_elem?-splice :
    (buf bytes : List ℕ) (at i : ℕ)
    → at + length bytes ≤ length buf
    → get_elem? (splice buf at bytes) i ≡ (
        if leb at i && ltb i (at + length bytes) then get_elem? bytes (i - at) else get_elem? buf i)
unfolding splice
get_elem?-splice buf bytes at i h = elim (Bool-cases (ltb i at)) [
  | inl before ↦
      get_elem?-append (take at buf) _ i (ground (arith, before, h, length-take at buf))
      ∙ ground (arith, before, get_elem?-take at buf i)
  | inr past ↦
      get_elem?-append_past (take at buf) _ (i - at) i (ground (arith, past, h, length-take at buf))
      ∙ elim (Bool-cases (ltb i (at + length bytes))) [
        | inl in_it ↦
            get_elem?-append bytes _ (i - at) (ground (arith, past, in_it))
            ∙ ground (arith, past, in_it)
        | inr after ↦
            get_elem?-append_past bytes _ (i - (at + length bytes)) (i - at)
              (ground (arith, past, after))
            ∙ get_elem?-drop (at + length bytes) buf (i - (at + length bytes)) i
                (ground (arith, past, after))
            ∙ ground (arith, past, after)
      ]
]

-- The bytes of a slice from `off` on, as many as `m` at most.
pub read_bytes :
    (m off k : ℕ) (bytes body : List ℕ)
    → bytes ≡ take m (drop off body)
    → (length bytes ≤ m)
      × (k < m → or_zero (get_elem? bytes k) ≡ or_zero (get_elem? body (off + k)))
read_bytes m off k bytes body e = rw e (
  omega (arith, length-take m (drop off body)),
  λ h. ap or_zero (get_elem?-take m (drop off body) k h ∙ get_elem?-drop off body k (off + k) refl),
)

-- What `splice` does to a byte; a part without bytes changes nothing, wherever it is spliced.
splice_zero :
    (buf bytes : List ℕ) (at i : ℕ)
    → (0 < length bytes → at + length bytes ≤ length buf)
    → (length (splice buf at bytes) ≡ length buf)
      × (or_zero (get_elem? (splice buf at bytes) i) ≡ (
          if leb at i && ltb i (at + length bytes)
          then or_zero (get_elem? bytes (i - at))
          else or_zero (get_elem? buf i)))
unfolding splice
splice_zero buf [] at i h =
    let none_more : at + 0 ≡ at = omega arith in
    let same : splice buf at [] ≡ buf = rw none_more (take-append-drop at buf) in
    rw same (refl, ground arith)
splice_zero buf (b ∷ bytes) at i h = (
  length-splice buf (b ∷ bytes) at (h (omega arith)),
  ground (arith, get_elem?-splice buf (b ∷ bytes) at i (h (omega arith))),
)

-- A segment lies in the window of `n` bytes at `offset`.
abbrev pub IsInside : ℕ → ℕ → ℕ → Seg → Type 0
IsInside base offset n g = g.start < g.end → (offset ≤ base + g.start) × (base + g.end ≤ offset + n)

-- The bytes of the segments are in the buffer, and the others are as they were.
pub record Filled (holds : ℕ → Option (List ℕ)) (base offset : ℕ) (segs : List Seg)
    (buf buf' : List ℕ) : Type 0 where
  pub same_length : length buf' ≡ length buf
  pub chunk :
      (i p : ℕ)
      → base + p ≡ offset + i
      → or_zero (get_elem? buf' i)
        ≡ (if ltb 0 (hits p segs) then byte_of holds (source p segs) else or_zero (get_elem? buf i))
  pub below : (i : ℕ) → offset + i < base → or_zero (get_elem? buf' i) ≡ or_zero (get_elem? buf i)

-- One segment that is read, then the others.
module _ (holds : ℕ → Option (List ℕ)) (base offset : ℕ) (g : Seg) (segs : List Seg)
    (buf bytes : List ℕ) (inside : IsInside base offset (length buf) g)
    (short : length bytes ≤ g.end - g.start) (once : (p : ℕ) → hits p (g ∷ segs) ≤ 1)
    (clear : (i p : ℕ)
      → base + p ≡ offset + i
      → 0 < hits p (g ∷ segs)
      → or_zero (get_elem? buf i) ≡ 0) where
  abbrev at : ℕ
  at = base + g.start - offset

  spliced :
      (i : ℕ)
      → (length (splice buf at bytes) ≡ length buf)
        × (or_zero (get_elem? (splice buf at bytes) i) ≡ (
            if leb at i && ltb i (at + length bytes)
            then or_zero (get_elem? bytes (i - at))
            else or_zero (get_elem? buf i)))
  spliced i = splice_zero buf bytes at i (λ l. ground (arith, l, short, inside))

  pub length_cons : length (splice buf at bytes) ≡ length buf
  length_cons = (spliced 0).0

  pub clear_cons :
      (i p : ℕ)
      → base + p ≡ offset + i
      → 0 < hits p segs
      → or_zero (get_elem? (splice buf at bytes) i) ≡ 0
  unfolding hits
  clear_cons i p e h = ground (arith, (spliced i).1, once p, clear i p e, e, h, inside, short)

  pub Filled-cons :
      (buf' : List ℕ)
      → (g.id == 0) ≡ false
      → ((k : ℕ)
          → k < g.end - g.start
          → or_zero (get_elem? bytes k) ≡ byte_in (holds g.id) (g.src_off + k))
      → Filled holds base offset segs (splice buf at bytes) buf'
      → Filled holds base offset (g ∷ segs) buf buf'
  unfolding hits source
  Filled-cons buf' real read v = record {
    same_length = v.same_length ∙ (spliced 0).0;
    chunk = λ i p e. elim (Bool-cases (in_seg p g)) [
      | inl hit ↦
          let k : i - at ≡ p - g.start = ground (arith, e, hit, inside) in
          let from : or_zero (get_elem? bytes (i - at))
              ≡ byte_in (holds g.id) (g.src_off + (p - g.start)) =
            rw k (read (p - g.start) (ground (arith, hit))) in
          let first : or_zero (get_elem? (splice buf at bytes) i)
              ≡ byte_in (holds g.id) (g.src_off + (p - g.start)) =
            elim (Bool-cases (ltb i (at + length bytes))) [
              | inl within ↦ ground (arith, (spliced i).1, within, e, hit, inside) ∙ from
              | inr past ↦
                  ground (arith, (spliced i).1, past, clear i p e (ground (arith, hit)))
                  ∙ sym (
                      ap or_zero
                        (get_elem?_past bytes (i - at) (ground (arith, past, e, hit, inside))))
                  ∙ from
            ] in
          rw hit (ground (arith, v.chunk i p e, first, once p, real, hit))
      | inr miss ↦ rw miss (ground (arith, v.chunk i p e, (spliced i).1, e, miss, short, inside))
    ];
    below = λ i e. ground (arith, v.below i e, (spliced i).1, e, short, inside);
  }
