-- ===== src/Fileio/Files/Writing.antt =====
-- `Files.Write` as a whole: how far it comes, and what the files hold then.
use memorylayer_storage.Prelude.{
  ℕ, zero, suc, ◌+◌, ◌-◌, ◌*◌, ◌/◌, ◌%◌, ◌≤◌, ◌<◌, ◌^◌, ◌≡◌, ◌&&◌, Option, none, some, List, [],
  ◌∷◌, arith, ltb, ◌==◌, if◌then◌else◌, length, take, drop, length-take, length-drop,
  get_elem?-take, get_elem?-drop, Option-cases, inl, inr, u32,
}
use Prim.Native.Nat.{max}
use memorylayer_storage.Meta.Slices.{chunk_size}
use memorylayer_storage.Fileio.Chunks.{Store}
use memorylayer_storage.Fileio.Files.{Files, Round, WriteError, write_round, write_loop, write}
use memorylayer_storage.Fileio.Files.View.{byte_in}
use memorylayer_storage.Fileio.Files.Effects.{
  in_span, is_none, contents, file_length, IsSound, Effect,
}
use memorylayer_storage.Fileio.Files.Rounds.{write_round-Effect}

module _ {S : Type 0} (store : Store S) (crc : List ℕ → ℕ) where
  -- How far a call has come, by its count, and what the files hold then.
  record Progress (ino offset written : ℕ) (body : List ℕ) (f : Files S)
      (r : Files S × ℕ × Option WriteError) : Type 0 where
    sound : IsSound store r.0
    from : written ≤ r.1
    upto : r.1 ≤ written + length body
    whole : is_none r.2 ≡ (r.1 == written + length body)
    shows :
        (j x : ℕ)
        → contents store r.0 j x ≡ (
            if ino == j && in_span offset (r.1 - written) x
            then byte_in (some body) (x - offset)
            else contents store f j x)
    grown :
        (j : ℕ)
        → file_length store r.0 j ≡ (
            if ino == j && ltb written r.1
            then max (file_length store f j) (offset + (r.1 - written))
            else file_length store f j)

  -- A round that fails adds nothing.
  stopped :
      (ino offset written base : ℕ) (body bytes : List ℕ) (f : Files S)
      (r : Files S × Option WriteError) (e : WriteError)
      → 0 < length body
      → Effect store ino base bytes f r
      → r.1 ≡ some e
      → Progress ino offset written body f (r.0, written, some e)
  stopped ino offset written base body bytes f r e some_bytes v h = record {
    sound = v.sound;
    from = omega arith;
    upto = omega arith;
    whole = ground (arith, some_bytes);
    shows = λ j x. ground (arith, v.shows j x, h);
    grown = λ j. ground (arith, v.grown j, h);
  }

  went :
      (ino offset base n : ℕ) (bytes : List ℕ) (f : Files S) (r : Files S × Option WriteError)
      → base ≡ offset
      → length bytes ≡ n
      → r.1 ≡ none
      → Effect store ino base bytes f r
      → (j x : ℕ)
      → contents store r.0 j x ≡ (
          if ino == j && in_span offset n x
          then byte_in (some bytes) (x - offset)
          else contents store f j x)
  went ino offset base n bytes f r there count none_eq v j x =
      rw (← there, ← count) (ground (arith, v.shows j x, none_eq))

  longer :
      (ino offset base n : ℕ) (bytes : List ℕ) (f : Files S) (r : Files S × Option WriteError)
      → base ≡ offset
      → length bytes ≡ n
      → r.1 ≡ none
      → Effect store ino base bytes f r
      → (j : ℕ)
      → file_length store r.0 j
        ≡ (if ino == j then max (file_length store f j) (offset + n) else file_length store f j)
  longer ino offset base n bytes f r there count none_eq v j =
      rw (← there, ← count) (ground (arith, v.grown j, none_eq))

  next_round :
      (ino offset written n : ℕ) (body : List ℕ) (f g : Files S)
      (r : Files S × ℕ × Option WriteError)
      → 0 < n
      → n ≤ length body
      → ((j : ℕ)
          → file_length store g j ≡ (
              if ino == j then max (file_length store f j) (offset + n) else file_length store f j))
      → ((j x : ℕ)
          → contents store g j x ≡ (
              if ino == j && in_span offset n x
              then byte_in (some (take n body)) (x - offset)
              else contents store f j x))
      → Progress ino (offset + n) (written + n) (drop n body) g r
      → Progress ino offset written body f r
  next_round ino offset written n body f g r some_n h long shows v = record {
    sound = v.sound;
    from = omega (arith, v.from);
    upto = omega (arith, v.from, v.upto, length-drop n body);
    whole = ground (arith, v.whole, h, length-drop n body);
    shows = λ j x. ground (
      arith,
      v.from,
      v.shows j x,
      shows j x,
      h,
      get_elem?-take n body (x - offset),
      get_elem?-drop n body (x - (offset + n)) (x - offset),
    );
    grown = λ j. ground (arith, v.from, v.grown j, long j, some_n);
  }

  write_loop-Progress :
      (fuel : ℕ) (rounds : ℕ → Round) (ino offset : ℕ) (body : List ℕ) (class written : ℕ)
      (f : Files S)
      → length body ≤ fuel
      → offset + length body ≤ 2 ^ 58
      → IsSound store f
      → Progress ino offset written body f
          (write_loop store crc fuel rounds ino offset body class written f)
  unfolding write_loop
  write_loop-Progress zero rounds ino offset [] class written f e h v = record {
    sound = v;
    from = omega arith;
    upto = omega arith;
    whole = ground arith;
    shows = λ j x. ground arith;
    grown = λ j. ground arith;
  }
  write_loop-Progress zero rounds ino offset (b ∷ body) class written f e h v =
      absurd (omega (arith, e))
  write_loop-Progress (suc fuel) rounds ino offset [] class written f e h v = record {
    sound = v;
    from = omega arith;
    upto = omega arith;
    whole = ground arith;
    shows = λ j x. ground arith;
    grown = λ j. ground arith;
  }
  write_loop-Progress (suc fuel) rounds ino offset (b ∷ body) class written f e h v =
      elim (Option-cases r.1) [
        | inl none_eq ↦
            rw (write_loop, none_eq)
              (next_round ino offset written n (b ∷ body) f r.0 _ some_n most_n
                (longer ino offset _ n (take n (b ∷ body)) f r there count none_eq done)
                (went ino offset _ n (take n (b ∷ body)) f r there count none_eq done)
                (write_loop-Progress fuel rounds ino (offset + n) (drop n (b ∷ body)) class
                  (written + n) r.0 (omega (arith, e, some_n, length-drop n (b ∷ body)))
                  (omega (arith, h, most_n, length-drop n (b ∷ body))) done.sound))
        | inr (w, some_eq) ↦
            rw (write_loop, some_eq)
              (stopped ino offset written _ (b ∷ body) _ f r w (omega arith) done some_eq)
      ]
    where
      indx : ℕ
      indx = u32 (offset / chunk_size)

      pos : ℕ
      pos = u32 (offset % chunk_size)

      n : ℕ
      n = if ltb (chunk_size - pos) (length (b ∷ body)) then chunk_size - pos else length (b ∷ body)

      r : Files S × Option WriteError
      r = write_round store crc (rounds indx) ino indx pos (take n (b ∷ body)) class f

      some_n : 0 < n
      some_n = ground arith

      most_n : n ≤ length (b ∷ body)
      most_n = ground arith

      count : length (take n (b ∷ body)) ≡ n
      count = omega (arith, length-take n (b ∷ body), most_n)

      there : indx * chunk_size + pos ≡ offset
      there = omega (arith, h)

      done : Effect store ino (indx * chunk_size + pos) (take n (b ∷ body)) f r
      done =
          write_round-Effect store crc (rounds indx) ino indx pos class (take n (b ∷ body)) f v
            (ground (arith, length-take n (b ∷ body)))

  -- `Write` of bytes below 2 ^ 58 ends with a count, that of all bytes exactly if there is no error.
  -- Error or not, from then on the file holds the first bytes of the buffer, as many as the count, at
  -- the offset, and is as long as to hold them at least, and every other byte and length is as before;
  -- the daemon goes on from a state of
  -- the same kind.
  pub contents-write :
      (rounds : ℕ → Round) (ino offset : ℕ) (body : List ℕ) (class : ℕ) (f : Files S)
      → offset + length body ≤ 2 ^ 58
      → IsSound store f
      → let r = write store crc rounds ino offset body class f in
        IsSound store r.0
        × (r.1 ≤ length body)
        × (is_none r.2 ≡ (r.1 == length body))
        × ((j x : ℕ)
            → contents store r.0 j x ≡ (
                if ino == j && in_span offset r.1 x
                then byte_in (some body) (x - offset)
                else contents store f j x))
        × ((j : ℕ)
            → file_length store r.0 j ≡ (
                if ino == j && ltb 0 r.1
                then max (file_length store f j) (offset + r.1)
                else file_length store f j))
  unfolding write
  contents-write rounds ino offset body class f h v =
      let p =
        write_loop-Progress (length body) rounds ino offset body class 0 f (omega arith) h v in
      (
        p.sound,
        omega (arith, p.upto),
        ground (arith, p.whole),
        λ j x. ground (arith, p.shows j x),
        λ j. ground (arith, p.grown j),
      )
