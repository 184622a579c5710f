-- ===== src/Fileio/Files/Effects.antt =====
-- What the files of a daemon hold, and what a round of `Files.Write` does to that.
use memorylayer_storage.Prelude.{
  ℕ, ◌+◌, ◌-◌, ◌≤◌, ◌≡◌, refl, Bool, true, false, ◌&&◌, Option, none, some, List, arith, ltb, leb,
  ◌==◌, if◌then◌else◌, All, length, Option-cases, inl, inr,
}
use Prim.Native.Nat.{max}
use memorylayer_storage.Meta.Slices.Content.{length_of, found, InChunk}
use memorylayer_storage.Wal.Log.{Log}
use memorylayer_storage.Fileio.Chunks.{Store}
use memorylayer_storage.Fileio.Files.{Files, WriteError}
use memorylayer_storage.Fileio.Files.Ids.{next_id, IsReady, IsOld, found_old}
use memorylayer_storage.Fileio.Files.View.{view, byte_in}

-- Which bytes a round is about.
abbrev pub in_span : ℕ → ℕ → ℕ → Bool
in_span base n x = leb base x && ltb x (base + n)

abbrev pub is_none : Option WriteError → Bool
is_none none = true
is_none (some e) = false

module _ {S : Type 0} (store : Store S) where
  -- What the files of a daemon hold: the byte `x` of the file `j`.
  unfoldable pub contents : Files S → ℕ → ℕ → ℕ
  contents f j x = view (λ id. store.holds id f.chunks) f.db.slices j x

  unfoldable pub file_length : Files S → ℕ → ℕ
  file_length f j = length_of (f.db.nodes j)

  -- The ids that are still to come are in no row and in no slice, and each row lies in its chunk.
  pub record IsSound (f : Files S) : Type 0 where
    pub ready : IsReady f.ids
    pub old : All (IsOld (next_id f.ids)) f.db.slices
    pub fits : All (λ r. InChunk r.ref) f.db.slices
    pub chunks : store.IsValid f.chunks
    pub unused : (id : ℕ) → next_id f.ids ≤ id → store.holds id f.chunks ≡ none

  -- After a round: `bytes` are at `base` of the file, if it has no error, and nothing else is changed.
  pub record Effect (ino base : ℕ) (bytes : List ℕ) (f : Files S) (r : Files S × Option WriteError)
      : Type 0 where
    pub sound : IsSound r.0
    pub shows :
        (j x : ℕ)
        → contents r.0 j x ≡ (
            if is_none r.1 && (ino == j && in_span base (length bytes) x)
            then byte_in (some bytes) (x - base)
            else contents f j x)
    pub grown :
        (j : ℕ)
        → file_length r.0 j ≡ (
            if is_none r.1 && ino == j
            then max (file_length f j) (base + length bytes)
            else file_length f j)

  pub log_IsSound : (w : Option Log) (f : Files S) → IsSound f → IsSound (record f { wal = w })
  log_IsSound w f v = record {
    ready = v.ready;
    old = v.old;
    fits = v.fits;
    chunks = v.chunks;
    unused = v.unused;
  }

  -- A round that fails before the metadata write, with contents as they were.
  pub failed_Effect :
      (ino base : ℕ) (bytes : List ℕ) (f f' : Files S) (e : WriteError)
      → IsSound f'
      → ((j x : ℕ) → contents f' j x ≡ contents f j x)
      → ((j : ℕ) → file_length f' j ≡ file_length f j)
      → Effect ino base bytes f (f', some e)
  failed_Effect ino base bytes f f' e v h l = record { sound = v; shows = h; grown = l }

  -- The contents before the round, by another name.
  pub Effect-from :
      (ino base : ℕ) (bytes : List ℕ) (f g : Files S) (r : Files S × Option WriteError)
      → ((j x : ℕ) → contents g j x ≡ contents f j x)
      → ((j : ℕ) → file_length g j ≡ file_length f j)
      → Effect ino base bytes g r
      → Effect ino base bytes f r
  Effect-from ino base bytes f g r same long v = record {
    sound = v.sound;
    shows = λ j x. rw (← same j x) (v.shows j x);
    grown = λ j. rw (← long j) (v.grown j);
  }

  -- What a store holds under an id that no row has does not show.
  pub contents_chunks :
      (f : Files S) (s : S) (id : ℕ)
      → All (IsOld id) f.db.slices
      → ((j : ℕ) → (id == j) ≡ false → store.holds j s ≡ store.holds j f.chunks)
      → (j x : ℕ) → contents (record f { chunks = s }) j x ≡ contents f j x
  unfolding contents view
  contents_chunks f s id old h j x = elim (Option-cases (found j x f.db.slices)) [
    | inl none_eq ↦ rw none_eq refl
    | inr (p, e) ↦
        rw e (ground (arith, h p.0 (ground (arith, found_old j x id f.db.slices p old e))))
  ]
