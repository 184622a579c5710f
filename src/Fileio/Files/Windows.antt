-- ===== src/Fileio/Files/Windows.antt =====
-- One chunk of `Files.Read`: its part of the window, resolved and read into the buffer.
use memorylayer_storage.Prelude.{
  ℕ, ◌+◌, ◌-◌, ◌*◌, ◌/◌, ◌≤◌, ◌<◌, ◌^◌, ◌≡◌, ap, ◌∙◌, ◌&&◌, Option, List, [], ◌∷◌, arith, ltb, leb,
  ◌==◌, if◌then◌else◌, length, get_elem?, All, Bool-cases, inl, inr, u32,
}
use memorylayer_storage.Meta.Slices.{SliceRow, chunk_size}
use memorylayer_storage.Meta.Slices.Content.{InChunk, chunk_refs, newest-found}
use memorylayer_storage.Fileio.Resolve.{Seg, resolve}
use memorylayer_storage.Fileio.Resolve.Overlay.{hits}
use memorylayer_storage.Fileio.Resolve.Windows.{source, hits-resolve, source-resolve}
use memorylayer_storage.Fileio.Files.View.{byte_of, or_zero, view}
use memorylayer_storage.Fileio.Files.Buffers.{IsInside, Filled}
use memorylayer_storage.Fileio.Files.Segments.{IsWindow}

hits_inside :
    (lo hi base offset n : ℕ) (segs : List Seg)
    → ((x : ℕ) → 0 < hits x segs → (lo ≤ x) × (x < hi))
    → offset ≤ base + lo
    → base + hi ≤ offset + n
    → All (IsInside base offset n) segs
unfolding hits
hits_inside lo hi base offset n [] h l u = tt
hits_inside lo hi base offset n (g ∷ segs) h l u = (
  λ e.
      let first = h g.start (ground (arith, e)) in
      let last = h (g.end - 1) (ground (arith, e)) in
      (omega (arith, first.0, l), omega (arith, last.1, u, e)),
  hits_inside lo hi base offset n segs (λ x e. h x (omega (arith, e))) l u,
)

refs_fit :
    (inode indx : ℕ) (rows : List SliceRow)
    → All (λ r. InChunk r.ref) rows
    → All InChunk (chunk_refs inode indx rows)
refs_fit inode indx [] v = tt
refs_fit inode indx (r ∷ rows) v = elim (Bool-cases (r.inode == inode && r.indx == indx)) [
  | inl mine ↦ rw mine (v.0, refs_fit inode indx rows v.1)
  | inr other ↦ rw other (refs_fit inode indx rows v.1)
]

-- The buffer has the bytes up to `cur`, and zeros from there on.
pub record IsDone (want : ℕ → ℕ) (offset end cur : ℕ) (buf : List ℕ) : Type 0 where
  pub size : length buf ≡ end - offset
  pub done : (i : ℕ) → offset + i < cur → or_zero (get_elem? buf i) ≡ want (offset + i)
  pub clear : (i : ℕ) → cur ≤ offset + i → or_zero (get_elem? buf i) ≡ 0

module _ (holds : ℕ → Option (List ℕ)) (rows : List SliceRow) (ino offset end cur : ℕ)
    (want : ℕ → ℕ) (fits : All (λ r. InChunk r.ref) rows) (from : offset ≤ cur) (to : cur < end)
    (small : end ≤ 2 ^ 58) (same : (x : ℕ) → view holds rows ino x ≡ want x) where
  abbrev indx : ℕ
  indx = u32 (cur / chunk_size)

  abbrev base : ℕ
  base = indx * chunk_size

  abbrev lo : ℕ
  lo = u32 (cur - base)

  abbrev pub hi_byte : ℕ
  hi_byte = if ltb end (base + chunk_size) then end else base + chunk_size

  abbrev hi : ℕ
  hi = u32 (hi_byte - base)

  abbrev segs : List Seg
  segs = resolve (chunk_refs ino indx rows) lo hi

  record Sizes : Type 0 where
    start : base + lo ≡ cur
    stop : base + hi ≡ hi_byte
    more : cur < hi_byte
    most : hi_byte ≤ end
    in_chunk : hi ≤ chunk_size

  sizes : Sizes
  sizes = record {
    start = omega (arith, to, small);
    stop = ground (arith, to, small);
    more = ground (arith, to, small);
    most = ground (arith, to, small);
    in_chunk = ground (arith, to, small);
  }

  hit_iff : (x : ℕ) → hits x segs ≡ (if leb lo x && ltb x hi then 1 else 0)
  hit_iff = hits-resolve (chunk_refs ino indx rows) lo hi (refs_fit ino indx rows fits)

  pub chunk-IsWindow :
      (buf : List ℕ) → IsDone want offset end cur buf → IsWindow base offset segs buf
  chunk-IsWindow buf v = record {
    inside =
        hits_inside lo hi base offset (length buf) segs (λ x h. ground (arith, h, hit_iff x))
          (omega (arith, sizes.start, from))
          (omega (arith, sizes.stop, sizes.most, v.size, from, to));
    once = λ p. ground (arith, hit_iff p);
    clear = λ i p e h. v.clear i (ground (arith, h, hit_iff p, e, sizes.start));
  }

  read_here : (p : ℕ) → lo ≤ p → p < hi → byte_of holds (source p segs) ≡ want (base + p)
  unfolding view
  read_here p l h =
      ap (byte_of holds) (
        source-resolve (chunk_refs ino indx rows) lo hi (refs_fit ino indx rows fits) p l h
        ∙ newest-found ino indx p rows fits (omega (arith, h, sizes.in_chunk)))
      ∙ same (base + p)

  -- After the chunk the buffer has its bytes too.
  pub chunk-IsDone :
      (buf buf' : List ℕ)
      → IsDone want offset end cur buf
      → Filled holds base offset segs buf buf'
      → IsDone want offset end hi_byte buf'
  chunk-IsDone buf buf' v f = record {
    size = f.same_length ∙ v.size;
    done = λ i h. elim (Bool-cases (ltb (offset + i) base)) [
      | inl under ↦
          f.below i (ground (arith, under)) ∙ v.done i (ground (arith, under, sizes.start))
      | inr over ↦
          let p : ℕ = offset + i - base in
          let e : base + p ≡ offset + i = ground (arith, over) in
          elim (Bool-cases (ltb (offset + i) cur)) [
            | inl old ↦
                ground (arith, f.chunk i p e, hit_iff p, e, old, sizes.start)
                ∙ v.done i (ground (arith, old))
            | inr new ↦
                let l : lo ≤ p = ground (arith, e, new, sizes.start) in
                let u : p < hi = ground (arith, e, h, sizes.stop) in
                ground (arith, f.chunk i p e, hit_iff p, l, u) ∙ read_here p l u ∙ ap want e
          ]
    ];
    clear = λ i h.
        let p : ℕ = offset + i - base in
        let e : base + p ≡ offset + i = ground (arith, h, sizes.start, sizes.more) in
        ground (arith, f.chunk i p e, hit_iff p, e, h, sizes.stop, sizes.start)
        ∙ v.clear i (ground (arith, h, sizes.more));
  }
