-- ===== src/Fileio/Files/Reading.antt =====
-- `Files.Read` as a whole.
use memorylayer_storage.Prelude.{
  ℕ, zero, suc, ◌+◌, ◌-◌, ◌≤◌, ◌<◌, ◌^◌, ◌≡◌, ◌≢◌, refl, sym, ap, ◌∙◌, Option, none, some, List, [],
  ◌∷◌, arith, ltb, leb, ◌==◌, if◌then◌else◌, length, get_elem?, Bool-cases, Option-cases, inl, inr,
}
use Prim.Native.Nat.{min}
use memorylayer_storage.Meta.Errno.{Server, first_select}
use memorylayer_storage.Meta.Slices.Content.{length_of}
use memorylayer_storage.Fileio.Chunks.{Store}
use memorylayer_storage.Fileio.Files.{
  Files, ReadError, out_of_fuel, getattr_failed, zeros, read_loop, read,
}
use memorylayer_storage.Fileio.Files.View.{or_zero}
use memorylayer_storage.Fileio.Files.Buffers.{length-zeros, zeros_zero}
use memorylayer_storage.Fileio.Files.Effects.{contents, file_length, IsSound}
use memorylayer_storage.Fileio.Files.Looping.{SameFiles, SameFiles-chunks, read_loop-Outcome}

module _ {S : Type 0} (store : Store S) where
  elem_or_zero :
      (xs : List ℕ) (i : ℕ) → i < length xs → get_elem? xs i ≡ some (or_zero (get_elem? xs i))
  elem_or_zero [] i h = absurd (omega (arith, h))
  elem_or_zero (x ∷ xs) zero h = refl
  elem_or_zero (x ∷ xs) (suc i) h = elem_or_zero xs i (omega (arith, h))

  -- The bytes of a window of the file.
  pub record IsRead (ino offset n : ℕ) (f : Files S) (bytes : List ℕ) : Type 0 where
    pub size : length bytes ≡ n
    pub at : (i : ℕ) → i < n → get_elem? bytes i ≡ some (contents store f ino (offset + i))

  -- What a call of `Read` comes to: it ends, changes no file, and has, if there is no error, `n` bytes.
  pub record ReadResult (ino offset n : ℕ) (f : Files S) (r : Files S × Option ReadError × List ℕ)
      : Type 0 where
    pub files : SameFiles store f r.0
    pub fuel : r.1 ≢ some out_of_fuel
    pub bytes : r.1 ≡ none → IsRead ino offset n f r.2

  read_window :
      (servers : ℕ → Server) (ino offset end n : ℕ) (f : Files S)
      → IsSound store f
      → end ≤ 2 ^ 58
      → offset ≤ end
      → end - offset ≡ n
      → ReadResult ino offset n f
          (read_loop store (end - offset) servers ino offset end offset (zeros (end - offset)) f)
  unfolding contents
  read_window servers ino offset end n f v small l e =
      let o =
        read_loop-Outcome store (end - offset) servers ino offset end offset (zeros (end - offset))
          f (contents store f ino) v (omega arith) l small (omega (arith, l)) (λ x. refl)
          (record {
            size = length-zeros (end - offset);
            done = λ i h. absurd (omega (arith, h));
            clear = λ i h. zeros_zero (end - offset) i;
          }) in
      record {
        files = o.files;
        fuel = o.fuel;
        bytes = λ h. record {
          size = (o.bytes h).size ∙ e;
          at = λ i k.
              elem_or_zero _ i (omega (arith, k, e, (o.bytes h).size))
              ∙ ap some ((o.bytes h).done i (omega (arith, k, e, l)));
        };
      }

  read_nothing :
      (ino offset n : ℕ) (f : Files S)
      → store.IsValid f.chunks
      → n ≡ 0
      → ReadResult ino offset n f (f, none, [])
  read_nothing ino offset n f v e = record {
    files = SameFiles-chunks store f f.chunks (record { valid = v; same = λ j. refl });
    fuel = λ h. ground (arith, h);
    bytes = λ h. record { size = sym e; at = λ i k. absurd (omega (arith, k, e)) };
  }

  read_failed :
      (ino offset n : ℕ) (f : Files S)
      → store.IsValid f.chunks
      → ReadResult ino offset n f (f, some getattr_failed, [])
  read_failed ino offset n f v = record {
    files = SameFiles-chunks store f f.chunks (record { valid = v; same = λ j. refl });
    fuel = λ h. ground (arith, h);
    bytes = λ h. absurd (ground (arith, h));
  }

  read-ReadResult :
      (server : Server) (servers : ℕ → Server) (ino offset len : ℕ) (f : Files S)
      → IsSound store f
      → file_length store f ino ≤ 2 ^ 58
      → ReadResult ino offset
          (min len (file_length store f ino - offset))
          f
          (read store server servers ino offset len f)
  unfolding read file_length
  read-ReadResult server servers ino offset len f v small =
      elim (Bool-cases (server first_select)) [
        | inr refused ↦ rw (read, refused) (read_failed ino offset _ f v.chunks)
        | inl answers ↦
            rw (read, answers)
              (elim (Option-cases (f.db.nodes ino)) [
                | inl none_eq ↦ rw (read, none_eq) (read_failed ino offset _ f v.chunks)
                | inr (attr, e) ↦
                    let size : length_of (f.db.nodes ino) ≡ attr.length = rw e refl in
                    let small : attr.length ≤ 2 ^ 58 = rw (← size) small in
                    rw (read, e)
                      (elim (Bool-cases (leb attr.length offset)) [
                        | inl past ↦
                            rw (read, past)
                              (read_nothing ino offset _ f v.chunks (ground (arith, past)))
                        | inr inside ↦
                            rw (read, inside)
                              (elim (Bool-cases (len == 0)) [
                                | inl empty ↦
                                    rw (read, empty)
                                      (read_nothing ino offset _ f v.chunks (ground (arith, empty)))
                                | inr some_len ↦
                                    rw (read, some_len)
                                      (read_window servers ino offset (stop attr.length) _ f v
                                        (ground (arith, small, inside)) (ground (arith, inside))
                                        (ground (arith, inside)))
                              ])
                      ])
              ])
      ]
    where
      stop : ℕ → ℕ
      stop size = if ltb size (offset + len) then size else offset + len

  -- `Read` in a file of at most 2 ^ 58 bytes comes to an end, and changes no file, error or not.
  pub read_ends :
      (server : Server) (servers : ℕ → Server) (ino offset len : ℕ) (f : Files S)
      → IsSound store f
      → file_length store f ino ≤ 2 ^ 58
      → ((read store server servers ino offset len f).1 ≢ some out_of_fuel)
        × SameFiles store f (read store server servers ino offset len f).0
  read_ends server servers ino offset len f v small =
      let r = read-ReadResult server servers ino offset len f v small in (r.fuel, r.files)

  -- `Read` without an error in a file of at most 2 ^ 58 bytes fills the buffer, as far as the file goes,
  -- with the bytes that the file holds, zeros in its holes, whatever chunks the window touches.
  pub contents-read :
      (server : Server) (servers : ℕ → Server) (ino offset len : ℕ) (f : Files S)
      → IsSound store f
      → file_length store f ino ≤ 2 ^ 58
      → (read store server servers ino offset len f).1 ≡ none
      → IsRead ino offset
          (min len (file_length store f ino - offset))
          f
          (read store server servers ino offset len f).2
  contents-read server servers ino offset len f v small ok =
      (read-ReadResult server servers ino offset len f v small).bytes ok
