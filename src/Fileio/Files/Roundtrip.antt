-- ===== src/Fileio/Files/Roundtrip.antt =====
-- What is written is read back.
use memorylayer_storage.Prelude.{
  ℕ, zero, suc, ◌+◌, ◌≤◌, ◌<◌, ◌^◌, ◌≡◌, refl, ap, ◌∙◌, Option, none, some, List, [], ◌∷◌, arith,
  ltb, if◌then◌else◌, length, get_elem?,
}
use Prim.Native.Nat.{max}
use memorylayer_storage.Meta.Errno.{Server}
use memorylayer_storage.Fileio.Chunks.{Store}
use memorylayer_storage.Fileio.Files.{Files, Round, WriteError, write, read}
use memorylayer_storage.Fileio.Files.View.{byte_in}
use memorylayer_storage.Fileio.Files.Effects.{contents, file_length, IsSound}
use memorylayer_storage.Fileio.Files.Writing.{contents-write}
use memorylayer_storage.Fileio.Files.Looping.{view-Kept, read_IsSound}
use memorylayer_storage.Fileio.Files.Reading.{contents-read}
use memorylayer_storage.Fileio.Files.Segments.{Kept}

same_list {ℓ} :
    {A : Type ℓ} (xs ys : List A)
    → length xs ≡ length ys
    → ((i : ℕ) → i < length ys → get_elem? xs i ≡ get_elem? ys i)
    → xs ≡ ys
same_list [] [] e h = refl
same_list [] (y ∷ ys) e h = absurd (omega (arith, e))
same_list (x ∷ xs) [] e h = absurd (omega (arith, e))
same_list (x ∷ xs) (y ∷ ys) e h =
    let head : x ≡ y = ground (arith, h 0 (omega arith)) in
    let tail : xs ≡ ys = same_list xs ys (omega (arith, e)) (λ i l. h (suc i) (omega (arith, l))) in
    rw (head, tail) refl

some_byte : (xs : List ℕ) (i : ℕ) → i < length xs → some (byte_in (some xs) i) ≡ get_elem? xs i
some_byte [] i h = absurd (omega (arith, h))
some_byte (x ∷ xs) zero h = refl
some_byte (x ∷ xs) (suc i) h = some_byte xs i (omega (arith, h))

module _ {S : Type 0} (store : Store S) (crc : List ℕ → ℕ) where
  -- The store moves on by itself, and holds what it held.
  abbrev pub moved : Files S → S → Files S
  moved f s = record f { chunks = s }

  -- A buffer that `Write` has taken whole is what `Read` of the same place returns, over any chunk store
  -- with the contract of `Store`, as long as file and buffer end below 2 ^ 58, and whatever the store
  -- does by itself in between, if it holds what it held.
  pub read-write :
      (rounds : ℕ → Round) (server : Server) (servers : ℕ → Server) (ino offset : ℕ) (body : List ℕ)
      (class : ℕ) (f : Files S) (s : S)
      → offset + length body ≤ 2 ^ 58
      → file_length store f ino ≤ 2 ^ 58
      → IsSound store f
      → (write store crc rounds ino offset body class f).2 ≡ none
      → Kept store (write store crc rounds ino offset body class f).0.chunks s
      → (read store server servers ino offset
          (length body)
          (moved (write store crc rounds ino offset body class f).0 s)).1
        ≡ none
      → (read store server servers ino offset
          (length body)
          (moved (write store crc rounds ino offset body class f).0 s)).2
        ≡ body
  unfolding contents file_length
  read-write rounds server servers ino offset body class f s fits small v whole kept ok =
      let (sound, most, all, shows, grown) =
        contents-write store crc rounds ino offset body class f fits v in
      let count : w.1 ≡ length body = ground (arith, all, whole) in
      let long : file_length store (moved w.0 s) ino ≡ (
          if ltb 0 (length body)
          then max (file_length store f ino) (offset + length body)
          else file_length store f ino) =
        ground (arith, grown ino, count) in
      let back =
        contents-read store server servers ino offset (length body) (moved w.0 s)
          (read_IsSound store w.0 s kept sound) (ground (arith, long, small, fits)) ok in
      same_list _ body (ground (arith, back.size, long)) (λ i l.
        back.at i (ground (arith, l, long))
        ∙ ap some (
            view-Kept store w.0 s ino (offset + i) kept
            ∙ ground (arith, shows ino (offset + i), count, l))
        ∙ some_byte body i l)
    where
      w : Files S × ℕ × Option WriteError
      w = write store crc rounds ino offset body class f
