-- ===== src/S3/Range/Headers.antt =====
-- Headers of the three forms, and the ranges that they name.
use memorylayer_storage.Prelude.{
  ℕ, ◌+◌, ◌-◌, ◌*◌, ◌<◌, ◌^◌, ◌≡◌, refl, true, false, some, [], ◌∷◌, ◌++◌, ◌==◌, any, arith, All,
  All-append, ◌∙◌,
}
use mathlib.Core.List.{reverse, reverse-cons, reverse-reverse}
use memorylayer_storage.S3.Text.{
  Str, is_empty, is_digit, is_space, trim_left, trim_space, cut_prefix, cut_byte, digits,
  digits_from, parse_int, parse_signed,
}
use memorylayer_storage.S3.Range.{
  bytes_prefix, dash, comma, natural, suffix_range, open_range, closed_range, spec_range,
  parse_range,
}

abbrev IsVisible : ℕ → Type 0
IsVisible c = is_space c ≡ false

abbrev IsDigit : ℕ → Type 0
IsDigit c = is_digit c ≡ true

-- A string of decimal digits for the number `n` of 63 bits.
pub record Decimal (s : Str) (n : ℕ) : Type 0 where
  pub digits : digits s ≡ some n
  pub fits : n < 2 ^ 63

All-reverse {κ} : (P : ℕ → Type κ) (s : Str) → All P s → All P (reverse s)
All-reverse P [] v = tt
All-reverse P (c ∷ s) v =
    rw (reverse-cons c s) (All-append P (reverse s) (c ∷ []) (All-reverse P s v.1) (v.0, tt))

trim_left-visible : (s : Str) → All IsVisible s → trim_left s ≡ s
unfolding trim_left
trim_left-visible [] v = refl
trim_left-visible (c ∷ s) v = ground (arith, v.0)

trim_space-visible : (s : Str) → All IsVisible s → trim_space s ≡ s
unfolding trim_space
trim_space-visible s v =
    rw (trim_left-visible s v, trim_left-visible (reverse s) (All-reverse IsVisible s v))
      (reverse-reverse s)

digits_from-IsDigit : (m n : ℕ) (s : Str) → digits_from m s ≡ some n → All IsDigit s
unfolding digits_from
digits_from-IsDigit m n [] h = tt
digits_from-IsDigit m n (c ∷ s) h = ground (arith, h, digits_from-IsDigit (m * 10 + (c - 48)) n s)

digits-IsDigit : (s : Str) (n : ℕ) → Decimal s n → All IsDigit s
unfolding digits
digits-IsDigit [] n v = tt
digits-IsDigit (c ∷ s) n v = digits_from-IsDigit 0 n (c ∷ s) v.digits

parse_int-Decimal : (s : Str) (n : ℕ) → Decimal s n → natural (parse_int s) ≡ some n
unfolding parse_int parse_signed digits
parse_int-Decimal [] n v = ground (arith, v.digits)
parse_int-Decimal (c ∷ s) n v = ground (arith, v.digits, v.fits, (digits-IsDigit (c ∷ s) n v).0)

nonempty : (s : Str) (n : ℕ) → Decimal s n → is_empty s ≡ false
unfolding digits
nonempty [] n v = ground (arith, v.digits)
nonempty (c ∷ s) n v = refl

cut_byte-digits : (s t : Str) → All IsDigit s → cut_byte dash (s ++ dash ∷ t) ≡ some (s, t)
unfolding cut_byte
cut_byte-digits [] t v = ground arith
cut_byte-digits (c ∷ s) t v = rw (cut_byte-digits s t v.1) (ground (arith, v.0))

no_comma :
    (s t : Str) → All IsDigit s → All IsDigit t → any (λ c. c == comma) (s ++ dash ∷ t) ≡ false
no_comma [] [] v w = refl
no_comma [] (c ∷ t) v w = ground (arith, w.0, no_comma [] t v w.1)
no_comma (c ∷ s) t v w = ground (arith, v.0, no_comma s t v.1 w)

digits-IsVisible : (s : Str) → All IsDigit s → All IsVisible s
digits-IsVisible [] v = tt
digits-IsVisible (c ∷ s) v = (ground (arith, v.0), digits-IsVisible s v.1)

-- A header "bytes=" with digits on the two sides of the dash, or on one, comes to its case.
parse_range-sides :
    (s t : Str) (size : ℕ)
    → All IsDigit s
    → All IsDigit t
    → parse_range (bytes_prefix ++ (s ++ dash ∷ t)) size ≡ spec_range s t size
unfolding parse_range cut_prefix
parse_range-sides s t size v w =
    let seen : All IsVisible (bytes_prefix ++ (s ++ dash ∷ t)) =
      All-append IsVisible bytes_prefix (s ++ dash ∷ t)
        (refl, (refl, (refl, (refl, (refl, (refl, tt))))))
        (All-append IsVisible s (dash ∷ t) (digits-IsVisible s v) (refl, digits-IsVisible t w)) in
    rw
      (
        parse_range,
        trim_space-visible (bytes_prefix ++ (s ++ dash ∷ t)) seen,
        no_comma s t v w,
        cut_byte-digits s t v,
      )
      refl

-- "bytes=N-M" with N not above M names the bytes N to M, cut to the object, and nothing where the
-- object ends at or before N; a header with N above M is ignored.
pub parse_range-closed :
    (s t : Str) (start end size : ℕ)
    → Decimal s start
    → Decimal t end
    → parse_range (bytes_prefix ++ (s ++ dash ∷ t)) size ≡ closed_range start end size
unfolding spec_range
parse_range-closed s t start end size v w =
    parse_range-sides s t size (digits-IsDigit s start v) (digits-IsDigit t end w)
    ∙ ground (
      arith,
      nonempty s start v,
      nonempty t end w,
      parse_int-Decimal s start v,
      parse_int-Decimal t end w,
    )

-- "bytes=N-" names the bytes from N on, and "bytes=-N" the last N bytes.
pub parse_range-one_sided :
    (s : Str) (n size : ℕ)
    → Decimal s n
    → (parse_range (bytes_prefix ++ (s ++ dash ∷ [])) size ≡ open_range n size)
      × (parse_range (bytes_prefix ++ ([] ++ dash ∷ s)) size ≡ suffix_range n size)
unfolding spec_range
parse_range-one_sided s n size v = (
  parse_range-sides s [] size (digits-IsDigit s n v) tt
      ∙ ground (arith, nonempty s n v, parse_int-Decimal s n v),
  parse_range-sides [] s size tt (digits-IsDigit s n v)
      ∙ ground (arith, nonempty s n v, parse_int-Decimal s n v),
)
