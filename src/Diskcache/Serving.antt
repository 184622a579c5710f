-- ===== src/Diskcache/Serving.antt =====
-- The calls of the disk cache: `Write` with its staging, `Read` and `ReadAt`, `Remove`, and the drain of
-- one staging entry and of them all (`stage`, `drainOne` and `drainStaging` of
-- mlfs/internal/cache/cache.go, with one upload at a time).
use memorylayer_storage.Prelude.{
  ℕ, ◌-◌, Bool, true, false, ◌||◌, not, Option, none, some, List, [], ◌∷◌, ◌++◌, take, drop, length,
  if◌then◌else◌,
}
use memorylayer_storage.Fileio.Chunks.{Store}
use memorylayer_storage.Diskcache.{
  missing, corrupt, unreadable, valid, FileWrite, is_synced, Limits, Clean, put_file, size_of,
  without, add_lru, evict, touch, populate, read_checksummed, read_staged, staged,
}

-- `quarantined` is the directory `corrupt`: the bytes that were moved there, by slice id.
pub record DiskCache (S : Type 0) : Type 0 where
  pub staging : ℕ → Option (List ℕ)
  pub clean : Clean
  pub quarantined : List (ℕ × List ℕ)
  pub backing : S

-- What the file system does in a call: whether the cache file and the staging file can be read, how the
-- cache file is written, and the free space; whether the staging file is written, renamed and removed,
-- and whether directories are synced.
pub record FileSystem : Type 0 where
  pub reads_clean : Bool
  pub reads_staging : Bool
  pub fills : FileWrite
  pub free : Option (ℕ × ℕ)
  pub stages : FileWrite
  pub renames : Bool
  pub syncs : Bool
  pub removes : Bool

pub data Drained : Type 0 where
  skipped quarantined uploaded failed : Drained

module _ {S : Type 0} (store : Store S) (sha256 : List ℕ → List ℕ) (limits : Limits) where
  -- `stage`
  unfoldable pub stage : FileSystem → ℕ → List ℕ → ℕ → DiskCache S → DiskCache S × Bool
  stage disk id body class c =
      if not (is_synced disk.stages) || not disk.renames then (c, false) else (
        record c { staging = put_file id (some (staged sha256 class body)) c.staging },
        disk.syncs,
      )

  -- `Write`; the nudge of the upload loop asks for a drain later.
  unfoldable pub write : FileSystem → ℕ → List ℕ → ℕ → DiskCache S → DiskCache S × Bool
  write disk id body class c = stage disk id body class c

  -- `Read` from the backing store.
  unfoldable pub fetch : FileSystem → ℕ → DiskCache S → DiskCache S × Option (List ℕ)
  fetch disk id c =
      let r = store.read id c.backing in
      elim r.1 [
        | none ↦ (record c { backing = r.0 }, none)
        | some body ↦
            let p = populate sha256 limits disk.fills disk.free id body c.clean in
            (record c { backing = r.0; clean = p.0 }, if p.1 then some body else none)
      ]

  -- `Read` past the clean cache: a corrupt staging file is left for the drain.
  unfoldable pub read_past : FileSystem → ℕ → DiskCache S → DiskCache S × Option (List ℕ)
  read_past disk id c = elim (read_staged sha256 disk.reads_staging (c.staging id)) [
    | valid class body ↦ (c, some body)
    | unreadable ↦ (c, none)
    | missing ↦ fetch disk id c
    | corrupt ↦ fetch disk id c
  ]

  abbrev pub drop_clean : ℕ → DiskCache S → DiskCache S
  drop_clean id c = record c { clean = record c.clean { files = put_file id none c.clean.files } }

  -- `Read`; `readLocal` drops a cache file that is corrupt.
  unfoldable pub read : FileSystem → ℕ → DiskCache S → DiskCache S × Option (List ℕ)
  read disk id c = elim (read_checksummed sha256 disk.reads_clean (c.clean.files id)) [
    | valid class body ↦ (record c { clean = touch id c.clean }, some body)
    | unreadable ↦ (c, none)
    | missing ↦ read_past disk id c
    | corrupt ↦ read_past disk id (drop_clean id c)
  ]

  abbrev pub cut : ℕ → ℕ → Option (List ℕ) → Option (List ℕ)
  cut off n none = none
  cut off n (some body) = some (take n (drop off body))

  -- `ReadAt`
  unfoldable pub read_at : FileSystem → ℕ → ℕ → ℕ → DiskCache S → DiskCache S × Option (List ℕ)
  read_at disk id off n c = let r = read disk id c in (r.0, cut off n r.1)

  -- `Remove`; the two files are removed where they are there.
  unfoldable pub remove : ℕ → DiskCache S → DiskCache S × Bool
  remove id c =
      let r = store.remove id c.backing in
      (
        record c {
          staging = put_file id none c.staging;
          clean = record {
            files = put_file id none c.clean.files;
            lru = without id c.clean.lru;
            cur_bytes = c.clean.cur_bytes - size_of id c.clean.lru;
          };
          backing = r.0;
        },
        r.1,
      )

  -- `quarantine`, of a file with the bytes `raw`.
  unfoldable pub quarantine : FileSystem → ℕ → List ℕ → DiskCache S → DiskCache S × Drained
  quarantine disk id raw c =
      if disk.renames
      then (
        record c {
          staging = put_file id none c.staging;
          quarantined = c.quarantined ++ (id, raw) ∷ [];
        },
        if disk.syncs then quarantined else failed,
      )
      else (c, failed)

  -- The upload of `drainOne`, and the promotion of the entry.
  unfoldable pub upload : FileSystem → ℕ → ℕ → List ℕ → DiskCache S → DiskCache S × Drained
  upload disk id class body c =
      let r = store.write id body class c.backing in
      if r.1
      then (
        record c {
          backing = r.0;
          clean = (populate sha256 limits disk.fills disk.free id body c.clean).0;
          staging = if disk.removes then put_file id none c.staging else c.staging;
        },
        uploaded,
      )
      else (record c { backing = r.0 }, failed)

  -- `drainOne`, on an entry whose name is a slice id.
  unfoldable pub drain_one : FileSystem → ℕ → DiskCache S → DiskCache S × Drained
  drain_one disk id c = elim (c.staging id) [
    | none ↦ (c, skipped)
    | some raw ↦ elim (read_staged sha256 disk.reads_staging (some raw)) [
      | valid class body ↦ upload disk id class body c
      | missing ↦ (c, skipped)
      | corrupt ↦ quarantine disk id raw c
      | unreadable ↦ quarantine disk id raw c
    ]
  ]

  abbrev pub has_failed : Drained → Bool
  has_failed d = elim d [ failed ↦ true | _ ↦ false ]

  -- The serial loop of `drainStaging`, over the ids that the directory lists; it stops at an error, which
  -- the Boolean tells. That an entry was quarantined is no error of the loop, nor of `New`.
  unfoldable pub drain : (ℕ → FileSystem) → List ℕ → DiskCache S → DiskCache S × Bool
  drain disks [] c = (c, true)
  drain disks (id ∷ ids) c =
      let r = drain_one (disks id) id c in
      if has_failed r.1 then (r.0, false) else drain disks ids r.0

  -- `scanCache`, over the ids that the directory lists; an entry without a file is passed over.
  unfoldable pub scan_cache : List ℕ → Clean → Clean
  scan_cache [] c = c
  scan_cache (id ∷ ids) c = elim (c.files id) [
    | none ↦ scan_cache ids c
    | some raw ↦ scan_cache ids (add_lru id (length raw) c)
  ]

  -- `New`, on the directories that an earlier run left: the LRU list is made anew, and staging is
  -- drained. The Boolean is false for an error.
  unfoldable pub open_cache :
      Option (ℕ × ℕ) → (ℕ → FileSystem) → List ℕ → List ℕ → DiskCache S → DiskCache S × Bool
  open_cache free disks cached staged_ids c =
      let bare : Clean = record { files = c.clean.files; lru = []; cur_bytes = 0 } in
      drain disks staged_ids (record c { clean = evict limits free (scan_cache cached bare) })
