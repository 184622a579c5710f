-- ===== src/Diskcache.antt =====
-- The disk cache of mlfs/internal/cache/cache.go: durable staging of writes and a bounded cache of
-- reads in front of a slice store. Files are lists of bytes by slice id; `sha256` is sha256.Sum256. The
-- temporary files of a staging that is cut short have other names, which every scan passes over.
pub mod Framing
pub mod Eviction
pub mod Serving
pub mod Coherence
pub mod Contract
pub mod Reads
pub mod Draining
pub mod Uploads
pub mod Layer
pub mod Recovery
pub mod Batches
pub mod Stack
mod Fixtures
mod Examples
use memorylayer_storage.Prelude.{
  ℕ, ◌+◌, ◌-◌, Bool, true, false, ◌&&◌, ◌||◌, not, Option, none, some, List, [], ◌∷◌, ◌++◌, length,
  take, drop, keep, any, ltb, leb, ◌==◌, if◌then◌else◌, is_some,
}
use Prim.Native.Nat.{min}
use memorylayer_storage.Fileio.Chunks.{Store}

abbrev pub checksum_len : ℕ
checksum_len = 32

-- "mlfs-staged-v1\x00"
abbrev pub staged_hash_prefix : List ℕ
staged_hash_prefix =
    109 ∷ 108 ∷ 102 ∷ 115 ∷ 45 ∷ 115 ∷ 116 ∷ 97 ∷ 103 ∷ 101 ∷ 100 ∷ 45 ∷ 118 ∷ 49 ∷ 0 ∷ []

abbrev pub class_default : ℕ
class_default = 0

-- bytes.Equal
unfoldable pub equal : List ℕ → List ℕ → Bool
equal [] [] = true
equal [] (y ∷ ys) = false
equal (x ∷ xs) [] = false
equal (x ∷ xs) (y ∷ ys) = let rest = equal xs ys in x == y && rest

-- What a read of a file comes to: no such file, a checksum that fails, an error of the file system, or
-- the class and the bytes.
pub data Checked : Type 0 where
  missing corrupt unreadable : Checked
  valid : ℕ → List ℕ → Checked

-- How a write of a file ends: synced, not opened, or failed with that many bytes in the file.
pub data FileWrite : Type 0 where
  synced unopened : FileWrite
  torn : ℕ → FileWrite

abbrev pub is_synced : FileWrite → Bool
is_synced w = elim w [ synced ↦ true | _ ↦ false ]

-- The file after a write of `bytes`.
abbrev pub after_write : FileWrite → List ℕ → Option (List ℕ) → Option (List ℕ)
after_write w bytes old = elim w [
  | synced ↦ some bytes
  | unopened ↦ old
  | torn n ↦ some (take n bytes)
]

-- `MaxBytes` and `MaxItems`; 0 is no limit.
pub record Limits : Type 0 where
  pub max_bytes : ℕ
  pub max_items : ℕ

pub record Entry : Type 0 where
  pub id : ℕ
  pub size : ℕ

abbrev pub put_file : ℕ → Option (List ℕ) → (ℕ → Option (List ℕ)) → ℕ → Option (List ℕ)
put_file id file files j = if id == j then file else files j

-- The clean cache: its files, the LRU list from its back (the next to go) to its front, and its size.
pub record Clean : Type 0 where
  pub files : ℕ → Option (List ℕ)
  pub lru : List Entry
  pub cur_bytes : ℕ

abbrev pub size_of : ℕ → List Entry → ℕ
size_of id [] = 0
size_of id (e ∷ lru) = let rest = size_of id lru in if e.id == id then e.size else rest

unfoldable pub without : ℕ → List Entry → List Entry
without id lru = keep (λ e. not (e.id == id)) lru

-- `addLRU`
unfoldable pub add_lru : ℕ → ℕ → Clean → Clean
add_lru id size c = record c {
  lru = without id c.lru ++ record { id = id; size = size } ∷ [];
  cur_bytes = c.cur_bytes - size_of id c.lru + size;
}

-- `touch`
unfoldable pub touch : ℕ → Clean → Clean
touch id c = record c {
  lru =
      if any (λ e. e.id == id) c.lru
      then without id c.lru ++ record { id = id; size = size_of id c.lru } ∷ []
      else c.lru;
}

-- `freeSpaceEvictBytes`, by the bytes that are available and those wanted free; `none` where the floor is
-- off or statfs fails.
unfoldable pub free_space_evict_bytes : Option (ℕ × ℕ) → ℕ → ℕ
free_space_evict_bytes none cur_bytes = 0
free_space_evict_bytes (some disk) cur_bytes =
    if leb disk.1 disk.0 then 0 else min (disk.1 - disk.0) cur_bytes

-- Whether the loop of `evict` goes on, with `n` entries left.
abbrev pub over : Limits → ℕ → ℕ → ℕ → ℕ → Bool
over limits target freed n cur_bytes =
    (ltb 0 limits.max_bytes && ltb limits.max_bytes cur_bytes)
    || ((ltb 0 limits.max_items && ltb limits.max_items n) || (ltb 0 target && ltb freed target))

-- The loop of `evict`, over the entries from the back.
unfoldable pub evict_from : Limits → ℕ → ℕ → List Entry → Clean → Clean
evict_from limits target freed [] c = record c { lru = [] }
evict_from limits target freed (e ∷ lru) c =
    let rest =
      evict_from limits target (freed + e.size) lru
        (record c { files = put_file e.id none c.files; cur_bytes = c.cur_bytes - e.size }) in
    if over limits target freed (length (e ∷ lru)) c.cur_bytes
    then rest
    else record c { lru = e ∷ lru }

unfoldable pub evict : Limits → Option (ℕ × ℕ) → Clean → Clean
evict limits disk c = evict_from limits (free_space_evict_bytes disk c.cur_bytes) 0 c.lru c

module _ (sha256 : List ℕ → List ℕ) where
  -- The bytes of `writeChecksummed`.
  abbrev pub checksummed : List ℕ → List ℕ
  checksummed body = sha256 body ++ body

  unfoldable pub check_bytes : List ℕ → Checked
  check_bytes raw =
      if ltb (length raw) checksum_len
      then corrupt
      else if equal (sha256 (drop checksum_len raw)) (take checksum_len raw)
      then valid class_default (drop checksum_len raw)
      else corrupt

  -- `readChecksummed`; the Boolean is whether the file system can read the file.
  unfoldable pub read_checksummed : Bool → Option (List ℕ) → Checked
  read_checksummed works none = missing
  read_checksummed works (some raw) = if works then check_bytes raw else unreadable

  abbrev pub staged_sum : ℕ → List ℕ → List ℕ
  staged_sum class body = sha256 (staged_hash_prefix ++ class ∷ body)

  -- The bytes of `writeStaged`.
  abbrev pub staged : ℕ → List ℕ → List ℕ
  staged class body = staged_sum class body ++ class ∷ body

  -- The legacy format of a staging file.
  abbrev pub legacy : Checked → Checked
  legacy r = elim r [ valid class body ↦ valid class_default body | _ ↦ corrupt ]

  unfoldable pub check_staged : List ℕ → List ℕ → Checked
  check_staged raw [] = legacy (check_bytes raw)
  check_staged raw (class ∷ body) =
      if equal (staged_sum class body) (take checksum_len raw)
      then valid class body
      else legacy (check_bytes raw)

  -- `readStaged`
  unfoldable pub read_staged : Bool → Option (List ℕ) → Checked
  read_staged works none = missing
  read_staged works (some raw) =
      if works then check_staged raw (drop checksum_len raw) else unreadable

  -- `populate`; the Boolean is whether it returned without an error.
  unfoldable pub populate : Limits → FileWrite → Option (ℕ × ℕ) → ℕ → List ℕ → Clean → Clean × Bool
  populate limits wrote disk id body c =
      let c' = record c {
        files = put_file id (after_write wrote (checksummed body) (c.files id)) c.files;
      } in
      if is_synced wrote
      then (evict limits disk (add_lru id (length body + checksum_len) c'), true)
      else (c', false)
