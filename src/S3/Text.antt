-- ===== src/S3/Text.antt =====
-- Strings as lists of bytes, with the functions of the packages strings and strconv that
-- blobgw-s3/s3 calls.
use memorylayer_storage.Prelude.{
  ℕ, ◌+◌, ◌-◌, ◌*◌, ◌^◌, Bool, true, false, ◌&&◌, ◌||◌, not, Option, none, some, List, [], ◌∷◌, ltb,
  leb, ◌==◌, if◌then◌else◌,
}
use mathlib.Core.List.{reverse}

abbrev pub Str : Type 0
Str = List ℕ

abbrev pub is_empty : Str → Bool
is_empty [] = true
is_empty (c ∷ s) = false

-- The ASCII white space of strings.TrimSpace
abbrev pub is_space : ℕ → Bool
is_space c = c == 32 || (leb 9 c && leb c 13)

unfoldable pub trim_left : Str → Str
trim_left [] = []
trim_left (c ∷ s) = let rest = trim_left s in if is_space c then rest else c ∷ s

unfoldable pub trim_space : Str → Str
trim_space s = reverse (trim_left (reverse (trim_left s)))

-- strings.CutPrefix(s, prefix), `none` where s does not begin with the prefix
unfoldable pub cut_prefix : Str → Str → Option Str
cut_prefix s [] = some s
cut_prefix [] (p ∷ prefix) = none
cut_prefix (c ∷ s) (p ∷ prefix) = let rest = cut_prefix s prefix in if c == p then rest else none

-- What stands before and after the first `c`, by strings.IndexByte.
unfoldable pub cut_byte : ℕ → Str → Option (Str × Str)
cut_byte c [] = none
cut_byte c (d ∷ s) = elim (cut_byte c s) [
  | none ↦ if d == c then some ([], s) else none
  | some p ↦ if d == c then some ([], s) else some (d ∷ p.0, p.1)
]

abbrev pub is_digit : ℕ → Bool
is_digit c = leb 48 c && leb c 57

-- The number of decimal digits read after `n`.
unfoldable pub digits_from : ℕ → Str → Option ℕ
digits_from n [] = some n
digits_from n (c ∷ s) =
    let rest = digits_from (n * 10 + (c - 48)) s in if is_digit c then rest else none

unfoldable pub digits : Str → Option ℕ
digits s = if is_empty s then none else digits_from 0 s

-- A 64-bit signed integer: the flag is that of a number below zero.
pub record Int64 : Type 0 where
  pub negative : Bool
  pub magnitude : ℕ

-- strconv.ParseInt(s, 10, 64): a sign, then digits, and an error out of range
unfoldable pub parse_signed : Bool → Str → Option Int64
parse_signed minus s = elim (digits s) [
  | none ↦ none
  | some n ↦
      if minus
      then if ltb (2 ^ 63) n then none else some (record { negative = not (n == 0); magnitude = n })
      else if ltb n (2 ^ 63)
      then some (record { negative = false; magnitude = n })
      else none
]

unfoldable pub parse_int : Str → Option Int64
parse_int [] = none
parse_int (c ∷ s) =
    if c == 43
    then parse_signed false s
    else if c == 45
    then parse_signed true s
    else parse_signed false (c ∷ s)

-- Strings are ordered byte by byte.
unfoldable pub str_le : Str → Str → Bool
str_le [] t = true
str_le (c ∷ s) [] = false
str_le (c ∷ s) (d ∷ t) = let rest = str_le s t in if c == d then rest else ltb c d

unfoldable pub str_eq : Str → Str → Bool
str_eq [] [] = true
str_eq [] (d ∷ t) = false
str_eq (c ∷ s) [] = false
str_eq (c ∷ s) (d ∷ t) = let rest = str_eq s t in c == d && rest

unfoldable pub has_prefix : Str → Str → Bool
has_prefix s [] = true
has_prefix [] (p ∷ prefix) = false
has_prefix (c ∷ s) (p ∷ prefix) = let rest = has_prefix s prefix in c == p && rest

-- strings.TrimPrefix
unfoldable pub trim_prefix : Str → Str → Str
trim_prefix s prefix = elim (cut_prefix s prefix) [ none ↦ s | some rest ↦ rest ]

-- What a string has up to the end of the first `sub` in it: s[:strings.Index(s, sub)+len(sub)].
unfoldable pub through : Str → Str → Option Str
through sub [] = if is_empty sub then some [] else none
through sub (c ∷ s) = elim (through sub s) [
  | none ↦ if has_prefix (c ∷ s) sub then some sub else none
  | some t ↦ if has_prefix (c ∷ s) sub then some sub else some (c ∷ t)
]
