-- ===== src/S3/Range.antt =====
-- The Range header, `parseRange` of blobgw-s3/s3/range.go.
pub mod Headers
use memorylayer_storage.Prelude.{
  ℕ, ◌+◌, ◌-◌, ◌*◌, ◌<◌, ◌≤◌, ◌^◌, ◌≡◌, refl, Bool, true, false, ◌&&◌, ◌||◌, not, Option, none,
  some, List, [], ◌∷◌, ◌++◌, ltb, leb, ◌==◌, if◌then◌else◌, any, arith, All, Option-cases, inl, inr,
  ap, sym, ◌∙◌,
}
use memorylayer_storage.S3.Text.{
  Str, is_empty, is_digit, trim_space, cut_prefix, cut_byte, digits, digits_from, Int64, parse_int,
  parse_signed,
}

-- A byte range of an object, with its last byte.
pub record ByteRange : Type 0 where
  pub start : ℕ
  pub end : ℕ

-- int64 subtraction is not below zero in any call: a range has `start <= end`.
unfoldable pub length : ByteRange → ℕ
length r = r.end - r.start + 1

-- The results (rng, ok, satisfiable): (zero, false, true), (zero, true, false), (rng, true, true).
pub data Ranged : Type 0 where
  ignored : Ranged
  unsatisfiable : Ranged
  resolved : ByteRange → Ranged

abbrev pub bytes_prefix : Str
bytes_prefix = 98 ∷ 121 ∷ 116 ∷ 101 ∷ 115 ∷ 61 ∷ []

abbrev pub dash : ℕ
dash = 45

abbrev pub comma : ℕ
comma = 44

-- A number that is read and not below zero.
abbrev pub natural : Option Int64 → Option ℕ
natural none = none
natural (some n) = if n.negative then none else some n.magnitude

unfoldable pub suffix_range : ℕ → ℕ → Ranged
suffix_range n size =
    if n == 0
    then unsatisfiable
    else if size == 0
    then unsatisfiable
    else let m = if leb size n then size else n in
      resolved (record { start = size - m; end = size - 1 })

unfoldable pub open_range : ℕ → ℕ → Ranged
open_range start size =
    if leb size start then unsatisfiable else resolved (record { start = start; end = size - 1 })

unfoldable pub closed_range : ℕ → ℕ → ℕ → Ranged
closed_range start end size =
    if ltb end start
    then ignored
    else if leb size start
    then unsatisfiable
    else resolved (record { start = start; end = if leb size end then size - 1 else end })

-- The cases of the switch, by what stands on the two sides of the dash.
pub spec_range : Str → Str → ℕ → Ranged
spec_range start_str end_str size =
    if is_empty start_str && is_empty end_str
    then ignored
    else if is_empty start_str
    then elim (natural (parse_int end_str)) [ none ↦ ignored | some n ↦ suffix_range n size ]
    else if is_empty end_str
    then elim (natural (parse_int start_str)) [
      | none ↦ ignored
      | some start ↦ open_range start size
    ]
    else elim (natural (parse_int start_str)) [
      | none ↦ ignored
      | some start ↦ elim (natural (parse_int end_str)) [
        | none ↦ ignored
        | some end ↦ closed_range start end size
      ]
    ]

pub parse_range : Str → ℕ → Ranged
parse_range header size = elim (cut_prefix (trim_space header) bytes_prefix) [
  | none ↦ ignored
  | some spec ↦ if any (λ c. c == comma) spec then ignored else elim (cut_byte dash spec) [
    | none ↦ ignored
    | some sides ↦ spec_range sides.0 sides.1 size
  ]
]

-- A range lies within an object of `size` bytes.
abbrev pub Within : ℕ → Ranged → Type 0
Within size ignored = Unit
Within size unsatisfiable = Unit
Within size (resolved r) = (r.start ≤ r.end) × (r.end < size)

-- Whatever the header, the range that `parseRange` resolves is not empty and lies in the object.
pub parse_range-Within : (header : Str) (size : ℕ) → Within size (parse_range header size)
unfolding parse_range spec_range suffix_range open_range closed_range
parse_range-Within header size = ground arith
