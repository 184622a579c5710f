-- ===== src/Diskcache/Framing.antt =====
-- The checksummed formats of the staging and cache files, for a checksum of 32 bytes.
use memorylayer_storage.Prelude.{
  ℕ, ◌-◌, ◌≤◌, ◌≡◌, ◌≢◌, refl, sym, ap, ◌∙◌, true, false, some, List, [], ◌∷◌, ◌++◌, length, take,
  drop, length-append, length-take, take-append_past, take-append-drop, take-append, drop-append,
  ltb, arith, Bool-cases, inl, inr,
}
use memorylayer_storage.Diskcache.{
  equal, valid, class_default, checksummed, check_bytes, read_checksummed, staged_sum, staged,
  check_staged, read_staged, staged_hash_prefix,
}

equal_same : (xs : List ℕ) → equal xs xs ≡ true
unfolding equal
equal_same [] = refl
equal_same (x ∷ xs) = ground (arith, equal_same xs)

equal→same : (xs ys : List ℕ) → equal xs ys ≡ true → xs ≡ ys
unfolding equal
equal→same [] [] h = refl
equal→same [] (y ∷ ys) h = absurd (ground (arith, h))
equal→same (x ∷ xs) [] h = absurd (ground (arith, h))
equal→same (x ∷ xs) (y ∷ ys) h =
    let head : x ≡ y = ground (arith, h) in
    let tail : xs ≡ ys = equal→same xs ys (ground (arith, h)) in rw (head, tail) refl

module _ (sha256 : List ℕ → List ℕ) (sum_length : (body : List ℕ) → length (sha256 body) ≡ 32) where
  pub check_bytes-checksummed :
      (body : List ℕ) → check_bytes sha256 (checksummed sha256 body) ≡ valid class_default body
  unfolding check_bytes
  check_bytes-checksummed body =
      let rest : drop 32 (sha256 body ++ body) ≡ body =
        drop-append 32 (sha256 body) body (sum_length body) in
      let front : take 32 (sha256 body ++ body) ≡ sha256 body =
        take-append 32 (sha256 body) body (sum_length body) in
      let long : ltb (length (sha256 body ++ body)) 32 ≡ false =
        ground (arith, length-append (sha256 body) body, sum_length body) in
      rw (check_bytes, long, rest, front, equal_same (sha256 body)) refl

  -- A staging file is read back with its class and its bytes.
  pub read_staged-staged :
      (class : ℕ) (body : List ℕ)
      → read_staged sha256 true (some (staged sha256 class body)) ≡ valid class body
  unfolding read_staged check_staged
  read_staged-staged class body =
      let sum = staged_sum sha256 class body in
      let size : length sum ≡ 32 = sum_length (staged_hash_prefix ++ class ∷ body) in
      let rest : drop 32 (sum ++ class ∷ body) ≡ class ∷ body =
        drop-append 32 sum (class ∷ body) size in
      let front : take 32 (sum ++ class ∷ body) ≡ sum = take-append 32 sum (class ∷ body) size in
      rw (read_staged, rest, check_staged, front, equal_same sum) refl

  -- A cache file that passes its checksum is, byte by byte, the file that was written for those bytes.
  pub check_bytes-valid :
      (raw body : List ℕ) (class : ℕ)
      → check_bytes sha256 raw ≡ valid class body
      → raw ≡ checksummed sha256 body
  unfolding check_bytes
  check_bytes-valid raw body class h = elim (Bool-cases (ltb (length raw) 32)) [
    | inl short ↦ absurd (ground (arith, h, short))
    | inr long ↦ elim (Bool-cases (equal (sha256 (drop 32 raw)) (take 32 raw))) [
      | inl same ↦
          let rest : drop 32 raw ≡ body = ground (arith, h, long, same) in
          let front : sha256 (drop 32 raw) ≡ take 32 raw = equal→same _ _ same in
          rw (← rest) (rw front (sym (take-append-drop 32 raw)))
      | inr other ↦ absurd (ground (arith, h, long, other))
    ]
  ]

  -- A file of the cache is read back.
  pub read_checksummed-checksummed :
      (body : List ℕ)
      → read_checksummed sha256 true (some (checksummed sha256 body)) ≡ valid class_default body
  unfolding read_checksummed
  read_checksummed-checksummed body = check_bytes-checksummed body

  -- A staging file in the format without a class is read as one of the default class, where the checksum
  -- keeps the two formats apart.
  pub read_staged-legacy :
      (body : List ℕ)
      → ((bytes : List ℕ) → sha256 (staged_hash_prefix ++ bytes) ≢ sha256 bytes)
      → read_staged sha256 true (some (checksummed sha256 body)) ≡ valid class_default body
  unfolding read_staged check_staged
  read_staged-legacy [] apart =
      let rest : drop 32 (sha256 [] ++ []) ≡ [] = drop-append 32 (sha256 []) [] (sum_length []) in
      rw (read_staged, rest, check_staged, check_bytes-checksummed []) refl
  read_staged-legacy (b ∷ body) apart =
      let sum = sha256 (b ∷ body) in
      let size : length sum ≡ 32 = sum_length (b ∷ body) in
      let rest : drop 32 (sum ++ b ∷ body) ≡ b ∷ body = drop-append 32 sum (b ∷ body) size in
      let front : take 32 (sum ++ b ∷ body) ≡ sum = take-append 32 sum (b ∷ body) size in
      elim (Bool-cases (equal (staged_sum sha256 b body) sum)) [
        | inl same ↦ absurd (apart (b ∷ body) (equal→same _ _ same))
        | inr other ↦
            rw (read_staged, rest, check_staged, front, other, check_bytes-checksummed (b ∷ body))
              refl
      ]

  -- A cache file that was cut short passes its checksum with the right bytes only, where the checksum
  -- tells a slice from its beginnings.
  pub check_bytes-torn :
      (n : ℕ) (body b : List ℕ) (class : ℕ)
      → ((k : ℕ) → sha256 (take k body) ≡ sha256 body → take k body ≡ body)
      → check_bytes sha256 (take n (checksummed sha256 body)) ≡ valid class b
      → b ≡ body
  check_bytes-torn n body b class tells h =
      let whole : take n (sha256 body ++ body) ≡ sha256 b ++ b = check_bytes-valid _ b class h in
      let long : 32 ≤ n = omega (
        arith,
        ap length whole,
        length-append (sha256 b) b,
        sum_length b,
        length-take n (sha256 body ++ body),
      ) in
      let k : ℕ = n - 32 in
      let cut : sha256 body ++ take k body ≡ sha256 b ++ b =
        sym (take-append_past 32 k n (sha256 body) body (sum_length body) (omega (arith, long)))
        ∙ whole in
      let rest : take k body ≡ b =
        sym (drop-append 32 (sha256 body) (take k body) (sum_length body))
        ∙ ap (drop 32) cut
        ∙ drop-append 32 (sha256 b) b (sum_length b) in
      let sum : sha256 body ≡ sha256 b =
        sym (take-append 32 (sha256 body) (take k body) (sum_length body))
        ∙ ap (take 32) cut
        ∙ take-append 32 (sha256 b) b (sum_length b) in
      sym rest ∙ tells k (ap sha256 rest ∙ sym sum)
