-- ===== src/Diskcache/Stack.antt =====
-- The whole data path: files over the disk cache over a slice store.
mod Examples
use memorylayer_storage.Prelude.{
  ℕ, ◌+◌, ◌-◌, ◌≤◌, ◌^◌, ◌≡◌, ◌≢◌, ◌⊎◌, ◌∙◌, ◌==◌, ◌&&◌, Bool, true, Option, none, some, List,
  length, take, arith, if◌then◌else◌, Option-cases, inl, inr,
}
use memorylayer_storage.Meta.Errno.{Server}
use memorylayer_storage.Fileio.Chunks.{Store}
use memorylayer_storage.Fileio.Files
use memorylayer_storage.Fileio.Files.{Round}
use memorylayer_storage.Fileio.Files.Effects.{IsSound, contents, file_length, in_span}
use memorylayer_storage.Fileio.Files.View.{byte_in}
use memorylayer_storage.Fileio.Files.Looping.{view-Kept}
use memorylayer_storage.Fileio.Files.Segments.{Kept}
use memorylayer_storage.Fileio.Files.Writing.{contents-write}
use memorylayer_storage.Fileio.Files.Roundtrip.{read-write}
use memorylayer_storage.Diskcache.{Limits}
use memorylayer_storage.Diskcache.Serving.{FileSystem, drain}
use memorylayer_storage.Diskcache.Draining.{drain-Kept}
use memorylayer_storage.Diskcache.Layer.{Running, layered}

module _ {S : Type 0} (store : Store S) (sha256 : List ℕ → List ℕ)
    (sum_length : (body : List ℕ) → length (sha256 body) ≡ 32)
    (tells : (body : List ℕ) (k : ℕ) → sha256 (take k body) ≡ sha256 body → take k body ≡ body)
    (limits : Limits) (crc : List ℕ → ℕ) where
  abbrev pub on_disk : Store (Running S)
  on_disk = layered store sha256 sum_length tells limits

  -- A drain of the write-back, by the upload loop.
  abbrev pub drained : (ℕ → FileSystem) → List ℕ → Running S → Running S
  drained disks ids s = record s { cache = (drain store sha256 limits disks ids s.cache).0 }

  -- A file that `Write` has taken whole, over the disk cache, holds what was written, and every other byte
  -- of every file is as before, after any drain of the cache that can read its staging files, whichever
  -- uploads fail; and a `Read` of the place that returns no error returns what was written. Buffer and
  -- file end below 2 ^ 58, and the slice store below is any that keeps its contract.
  pub read-drain-write :
      (rounds : ℕ → Round) (server : Server) (servers : ℕ → Server) (ino offset : ℕ) (body : List ℕ)
      (class : ℕ) (disks : ℕ → FileSystem) (ids : List ℕ) (f : Files.Files (Running S)) (j x : ℕ)
      → offset + length body ≤ 2 ^ 58
      → file_length on_disk f ino ≤ 2 ^ 58
      → IsSound on_disk f
      → ((id : ℕ) → (disks id).reads_staging ≡ true)
      → (Files.write on_disk crc rounds ino offset body class f).2 ≡ none
      → let w = (Files.write on_disk crc rounds ino offset body class f).0 in
        let now : Files.Files (Running S) = record w { chunks = drained disks ids w.chunks } in
        let r = Files.read on_disk server servers ino offset (length body) now in
        (contents on_disk now j x ≡ (
          if ino == j && in_span offset (length body) x
          then byte_in (some body) (x - offset)
          else contents on_disk f j x))
        × ((r.1 ≢ none) ⊎ (r.2 ≡ body))
  unfolding layered contents
  read-drain-write rounds server servers ino offset body class disks ids f j x fits small v reads
        whole =
      let (sound, most, all, shows, grown) =
        contents-write on_disk crc rounds ino offset body class f fits v in
      let w = (Files.write on_disk crc rounds ino offset body class f).0 in
      let d =
        drain-Kept store sha256 sum_length tells limits disks ids w.chunks.cache sound.chunks
          reads in
      let kept : Kept on_disk w.chunks (drained disks ids w.chunks) = record {
        valid = d.still;
        same = d.same;
      } in
      let count : (Files.write on_disk crc rounds ino offset body class f).1 ≡ length body =
        ground (arith, all, whole) in
      let r =
        Files.read on_disk server servers ino offset (length body)
          (record w { chunks = drained disks ids w.chunks }) in
      (
        view-Kept on_disk w (drained disks ids w.chunks) j x kept
            ∙ ground (arith, shows j x, count),
        elim (Option-cases r.1) [
          | inr (e, f') ↦ inl (λ h. absurd (ground (arith, h, f')))
          | inl ok ↦ inr (
              read-write on_disk crc rounds server servers ino offset body class f
                (drained disks ids w.chunks) fits small v whole kept ok)
        ],
      )
