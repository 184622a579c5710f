-- ===== src/Fileio/Files/Looping.antt =====
-- The loop of `Files.Read` over the chunks of its window.
use memorylayer_storage.Prelude.{
  ℕ, zero, suc, ◌+◌, ◌-◌, ◌*◌, ◌/◌, ◌≤◌, ◌^◌, ◌≡◌, ◌≢◌, refl, ◌∙◌, subst, false, Option, none, some,
  List, arith, ltb, if◌then◌else◌, Bool-cases, Option-cases, inl, inr, u32,
}
use memorylayer_storage.Meta.Errno.{Server, first_select}
use memorylayer_storage.Meta.Slices.{chunk_size, read_slices}
use memorylayer_storage.Meta.Slices.Content.{chunk_refs}
use memorylayer_storage.Fileio.Chunks.{Store}
use memorylayer_storage.Fileio.Resolve.{resolve}
use memorylayer_storage.Fileio.Files.{
  Files, ReadError, out_of_fuel, slices_failed, chunk_unread, read_segs, read_loop,
}
use memorylayer_storage.Fileio.Files.View.{view}
use memorylayer_storage.Fileio.Files.Effects.{IsSound}
use memorylayer_storage.Fileio.Files.Segments.{
  byte_of_same, Kept, Kept-trans, read_segs-Kept, read_segs-IsFilled, IsFilled,
}
use memorylayer_storage.Fileio.Files.Windows.{IsDone, chunk-IsWindow, chunk-IsDone}

module _ {S : Type 0} (store : Store S) where
  -- A read changes no file: the store may move data about, and holds what it held.
  pub record SameFiles (f g : Files S) : Type 0 where
    pub same_ids : g.ids ≡ f.ids
    pub same_wal : g.wal ≡ f.wal
    pub same_db : g.db ≡ f.db
    pub kept : Kept store f.chunks g.chunks

  pub SameFiles-chunks :
      (f : Files S) (s : S) → Kept store f.chunks s → SameFiles f (record f { chunks = s })
  SameFiles-chunks f s k = record { same_ids = refl; same_wal = refl; same_db = refl; kept = k }

  SameFiles-trans : (f g h : Files S) → SameFiles f g → SameFiles g h → SameFiles f h
  SameFiles-trans f g h v w = record {
    same_ids = w.same_ids ∙ v.same_ids;
    same_wal = w.same_wal ∙ v.same_wal;
    same_db = w.same_db ∙ v.same_db;
    kept = Kept-trans store f.chunks g.chunks h.chunks v.kept w.kept;
  }

  pub view-Kept :
      (f : Files S) (s : S) (j x : ℕ)
      → Kept store f.chunks s
      → view (λ id. store.holds id s) f.db.slices j x
        ≡ view (λ id. store.holds id f.chunks) f.db.slices j x
  unfolding view
  view-Kept f s j x k = byte_of_same _ _ _ k.same

  pub record Outcome (want : ℕ → ℕ) (offset end : ℕ) (f : Files S)
      (r : Files S × Option ReadError × List ℕ) : Type 0 where
    pub files : SameFiles f r.0
    pub fuel : r.1 ≢ some out_of_fuel
    pub bytes : r.1 ≡ none → IsDone want offset end end r.2

  Outcome-from :
      (want : ℕ → ℕ) (offset end : ℕ) (f g : Files S) (r : Files S × Option ReadError × List ℕ)
      → SameFiles f g
      → Outcome want offset end g r
      → Outcome want offset end f r
  Outcome-from want offset end f g r same v = record {
    files = SameFiles-trans f g r.0 same v.files;
    fuel = v.fuel;
    bytes = v.bytes;
  }

  Outcome-end :
      (want : ℕ → ℕ) (offset end cur : ℕ) (buf : List ℕ) (f : Files S)
      → store.IsValid f.chunks
      → cur ≡ end
      → IsDone want offset end cur buf
      → Outcome want offset end f (f, none, buf)
  Outcome-end want offset end cur buf f v e d = record {
    files = record {
      same_ids = refl;
      same_wal = refl;
      same_db = refl;
      kept = record { valid = v; same = λ j. refl };
    };
    fuel = λ h. ground (arith, h);
    bytes = λ h. subst (λ c. IsDone want offset end c buf) e d;
  }

  Outcome-failed :
      (want : ℕ → ℕ) (offset end : ℕ) (buf : List ℕ) (f g : Files S) (e : ReadError)
      → SameFiles f g
      → e ≢ out_of_fuel
      → Outcome want offset end f (g, some e, buf)
  Outcome-failed want offset end buf f g e same other = record {
    files = same;
    fuel = λ h. ground (arith, h, other);
    bytes = λ h. absurd (ground (arith, h));
  }

  pub read_IsSound :
      (f : Files S) (s : S)
      → Kept store f.chunks s
      → IsSound store f
      → IsSound store (record f { chunks = s })
  read_IsSound f s k v = record {
    ready = v.ready;
    old = v.old;
    fits = v.fits;
    chunks = k.valid;
    unused = λ id l. k.same id ∙ v.unused id l;
  }

  pub read_loop-Outcome :
      (fuel : ℕ) (servers : ℕ → Server) (ino offset end cur : ℕ) (buf : List ℕ) (f : Files S)
      (want : ℕ → ℕ)
      → IsSound store f
      → offset ≤ cur
      → cur ≤ end
      → end ≤ 2 ^ 58
      → end ≤ cur + fuel
      → ((x : ℕ) → view (λ id. store.holds id f.chunks) f.db.slices ino x ≡ want x)
      → IsDone want offset end cur buf
      → Outcome want offset end f (read_loop store fuel servers ino offset end cur buf f)
  unfolding read_loop read_slices
  read_loop-Outcome zero servers ino offset end cur buf f want v l u small enough same d =
      let e : cur ≡ end = omega (arith, u, enough) in
      let stop : ltb cur end ≡ false = ground (arith, e) in
      rw (read_loop, stop) (Outcome-end want offset end cur buf f v.chunks e d)
  read_loop-Outcome (suc fuel) servers ino offset end cur buf f want v l u small enough same d =
      elim (Bool-cases (ltb cur end)) [
        | inr ended ↦
            let e : cur ≡ end = ground (arith, u, ended) in
            rw (read_loop, ended) (Outcome-end want offset end cur buf f v.chunks e d)
        | inl more ↦
            rw (read_loop, more)
              (elim (Bool-cases (servers indx first_select)) [
                | inr refused ↦
                    rw (read_loop, read_slices, refused)
                      (Outcome-failed want offset end buf f f slices_failed
                        (SameFiles-chunks f f.chunks
                          (record { valid = v.chunks; same = λ j. refl }))
                        (λ h. ground (arith, h)))
                | inl answers ↦
                    rw (read_loop, read_slices, answers)
                      (elim (Option-cases r.1) [
                        | inl none_eq ↦
                            rw (read_loop, none_eq)
                              (Outcome-failed want offset end buf f (record f { chunks = r.0 })
                                chunk_unread (SameFiles-chunks f r.0 kept) (λ h. ground (arith, h)))
                        | inr (buf', e) ↦
                            rw (read_loop, e)
                              (Outcome-from want offset end f (record f { chunks = r.0 }) _
                                (SameFiles-chunks f r.0 kept)
                                (read_loop-Outcome fuel servers ino offset end stop buf'
                                  (record f { chunks = r.0 }) want (read_IsSound f r.0 kept v)
                                  (ground (arith, l, more, small)) (ground (arith, more)) small
                                  (ground (arith, more, enough, small))
                                  (λ x. view-Kept f r.0 ino x kept ∙ same x)
                                  (chunk-IsDone holds f.db.slices ino offset end cur want v.fits l
                                    (ground (arith, more)) small same buf buf' d
                                    (subst (IsFilled holds base offset _ buf) e (
                                      read_segs-IsFilled store base offset _ buf f.chunks v.chunks (
                                        chunk-IsWindow holds f.db.slices ino offset end cur want
                                          v.fits l (ground (arith, more)) small same buf d))))))
                      ])
              ])
      ]
    where
      holds : ℕ → Option (List ℕ)
      holds id = store.holds id f.chunks

      indx : ℕ
      indx = u32 (cur / chunk_size)

      base : ℕ
      base = indx * chunk_size

      stop : ℕ
      stop = if ltb end (base + chunk_size) then end else base + chunk_size

      r : S × Option (List ℕ)
      r =
          read_segs store base offset
            (resolve (chunk_refs ino indx f.db.slices) (u32 (cur - base)) (u32 (stop - base))) buf
            f.chunks

      kept : Kept store f.chunks r.0
      kept =
          read_segs-Kept store base offset
            (resolve (chunk_refs ino indx f.db.slices) (u32 (cur - base)) (u32 (stop - base))) buf
            f.chunks v.chunks
