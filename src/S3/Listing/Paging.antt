-- ===== src/S3/Listing/Paging.antt =====
-- Paging through keys in ascending order without a delimiter.
use memorylayer_storage.Prelude.{
  ℕ, zero, suc, ◌-◌, ◌<◌, ◌≡◌, refl, true, false, ◌&&◌, not, List, [], ◌∷◌, arith, take, drop,
  length, ltb, Bool-cases, inl, inr, ap, sym, ◌∙◌, subst,
}
use memorylayer_storage.S3.Text.{Str, is_empty, str_le}
use memorylayer_storage.S3.Listing.{ListParams, empty_page, skips, list_keys, list_page}
use memorylayer_storage.S3.Listing.Pages.{listable, last_or, list_keys_lem, list_page-contents}

-- Strings in strictly ascending order, each above `low`.
abbrev pub IsSorted : Str → List Str → Type 0
IsSorted low [] = Unit
IsSorted low (key ∷ keys) = (str_le key low ≡ false) × IsSorted key keys

str_le_trans : (s t u : Str) → str_le t s ≡ false → str_le u t ≡ false → str_le u s ≡ false
unfolding str_le
str_le_trans s [] u h k = ground (arith, h)
str_le_trans s (b ∷ t) [] h k = ground (arith, k)
str_le_trans [] (b ∷ t) (c ∷ u) h k = refl
str_le_trans (a ∷ s) (b ∷ t) (c ∷ u) h k = ground (arith, h, k, str_le_trans s t u)

str_le_refl : (s : Str) → str_le s s ≡ true
unfolding str_le
str_le_refl [] = refl
str_le_refl (c ∷ s) = ground (arith, str_le_refl s)

IsSorted-mono :
    (low key : Str) (keys : List Str)
    → str_le key low ≡ false
    → IsSorted key keys
    → IsSorted low keys
IsSorted-mono low key [] h v = tt
IsSorted-mono low key (k ∷ keys) h v = (str_le_trans low key k h v.0, v.1)

str_le-total : (s t : Str) → str_le t s ≡ false → str_le s t ≡ true
unfolding str_le
str_le-total [] t h = refl
str_le-total (a ∷ s) [] h = ground (arith, h)
str_le-total (a ∷ s) (b ∷ t) h = ground (arith, h, str_le-total s t)

above_nonempty : (low s : Str) → str_le s low ≡ false → is_empty s ≡ false
unfolding str_le
above_nonempty low [] h = ground (arith, h)
above_nonempty low (c ∷ s) h = refl

last_or-above :
    (reserved cursor low d : Str) (keys : List Str) (n : ℕ)
    → IsSorted low keys
    → n < length (listable reserved cursor keys)
    → str_le (last_or d (take (suc n) (listable reserved cursor keys))) low ≡ false
last_or-above reserved cursor low d [] n v = λ h. absurd (omega (arith, h))
last_or-above reserved cursor low d (key ∷ keys) n v =
    elim (Bool-cases (skips reserved cursor key))
      as (λ e.
        n < length (listable reserved cursor (key ∷ keys))
        → str_le (last_or d (take (suc n) (listable reserved cursor (key ∷ keys)))) low ≡ false) [
          | inl skip ↦ rw skip (λ h.
              last_or-above reserved cursor low d keys n (IsSorted-mono low key keys v.0 v.1) h)
          | inr shown ↦
              rw shown (shown_case (λ m. last_or-above reserved cursor key key keys m v.1) n)
        ]
  where
    shown_case :
        ((m : ℕ)
          → m < length (listable reserved cursor keys)
          → str_le (last_or key (take (suc m) (listable reserved cursor keys))) key ≡ false)
        → (n : ℕ) → n < suc (length (listable reserved cursor keys))
        → str_le (last_or d (take (suc n) (key ∷ listable reserved cursor keys))) low ≡ false
    shown_case later zero h = v.0
    shown_case later (suc m) h =
        str_le_trans low key (last_or key (take (suc m) (listable reserved cursor keys))) v.0
          (later m (omega (arith, h)))

-- Above `low`, a cursor that does not pass `low` lists what `low` itself does as the cursor.
listable-above :
    (reserved cursor low : Str) (keys : List Str)
    → IsSorted low keys
    → (not (is_empty cursor) && str_le low cursor) ≡ false
    → listable reserved low keys ≡ listable reserved cursor keys
listable-above reserved cursor low [] v h = refl
listable-above reserved cursor low (key ∷ keys) v h = ground (
  arith,
  v.0,
  h,
  str_le_trans cursor low key,
  listable-above reserved cursor low keys (IsSorted-mono low key keys v.0 v.1) h,
)

next_rows :
    (reserved cursor low d : Str) (keys : List Str) (n : ℕ)
    → IsSorted low keys
    → n < length (listable reserved cursor keys)
    → listable reserved (last_or d (take (suc n) (listable reserved cursor keys))) keys
      ≡ drop (suc n) (listable reserved cursor keys)
next_rows reserved cursor low d [] n v = λ h. absurd (omega (arith, h))
next_rows reserved cursor low d (key ∷ keys) n v = elim (Bool-cases (skips reserved cursor key)) [
  | inl skip ↦
      let less : listable reserved cursor (key ∷ keys) ≡ listable reserved cursor keys =
        ground (arith, skip) in
      subst Next (sym less) (λ h.
        let last = last_or d (take (suc n) (listable reserved cursor keys)) in
        let above = last_or-above reserved cursor key d keys n v.1 h in
        let passed : skips reserved last key ≡ true =
          ground (arith, above_nonempty key last above, str_le-total key last above) in
        rw passed (next_rows reserved cursor low d keys n (IsSorted-mono low key keys v.0 v.1) h))
  | inr shown ↦
      let more : listable reserved cursor (key ∷ keys) ≡ key ∷ listable reserved cursor keys =
        ground (arith, shown) in
      subst Next (sym more) (shown_case (λ m. next_rows reserved cursor key key keys m v.1) n shown)
]
  where
    Next : List Str → Type 0
    Next rows =
        n < length rows
        → listable reserved (last_or d (take (suc n) rows)) (key ∷ keys) ≡ drop (suc n) rows

    shown_case :
        ((m : ℕ)
          → m < length (listable reserved cursor keys)
          → listable reserved (last_or key (take (suc m) (listable reserved cursor keys))) keys
            ≡ drop (suc m) (listable reserved cursor keys))
        → (n : ℕ) → skips reserved cursor key ≡ false
        → n < suc (length (listable reserved cursor keys))
        → listable reserved
            (last_or d (take (suc n) (key ∷ listable reserved cursor keys)))
            (key ∷ keys)
          ≡ drop (suc n) (key ∷ listable reserved cursor keys)
    shown_case later zero shown h =
        let passed : skips reserved key key ≡ true =
          ground (arith, above_nonempty low key v.0, str_le_refl key) in
        rw passed (listable-above reserved cursor key keys v.1 (ground (arith, shown)))
    shown_case later (suc m) shown h =
        let last = last_or key (take (suc m) (listable reserved cursor keys)) in
        let above = last_or-above reserved cursor key key keys m v.1 (omega (arith, h)) in
        let passed : skips reserved last key ≡ true =
          ground (arith, above_nonempty key last above, str_le-total key last above) in
        rw passed (later m (omega (arith, h)))

-- What the next page may list, by the cursor of a truncated page, is what this page has left out.
rows_left :
    (reserved : Str) (p : ListParams) (keys : List Str)
    → is_empty p.delimiter ≡ true
    → 0 < p.max_keys
    → IsSorted [] keys
    → (list_page reserved p keys).is_truncated ≡ true
    → listable reserved (list_page reserved p keys).last_key keys
      ≡ drop p.max_keys (listable reserved p.cursor keys)
unfolding list_page
rows_left reserved p keys d l v t =
    let on = list_keys_lem reserved p keys empty_page d refl in
    let rows = listable reserved p.cursor keys in
    let size : p.max_keys - 0 ≡ suc (p.max_keys - 1) = omega (arith, l) in
    let same : suc (p.max_keys - 1) ≡ p.max_keys = omega (arith, l) in
    let last : (list_keys reserved p keys empty_page).last_key
        ≡ last_or [] (take (suc (p.max_keys - 1)) rows) =
      on.last ∙ ap (λ n. last_or [] (take n rows)) size in
    let some_more : p.max_keys - 1 < length rows = ground (arith, on.more, t, l) in
    rw last (
      next_rows reserved p.cursor [] [] keys (p.max_keys - 1) v some_more
      ∙ ap (λ n. drop n rows) same)

-- Without a delimiter, and with keys in strictly ascending order, a client that pages with a positive
-- page size misses no key and sees none twice: a truncated page has the first `max_keys` of the keys that
-- are to be listed, and the page that its cursor asks for has the next `max_keys` of them and is truncated
-- if and only if there are more.
pub list_page-next :
    (reserved : Str) (p : ListParams) (keys : List Str)
    → is_empty p.delimiter ≡ true
    → 0 < p.max_keys
    → IsSorted [] keys
    → (list_page reserved p keys).is_truncated ≡ true
    → let rows = listable reserved p.cursor keys in
      let page = list_page reserved p keys in
      let next = list_page reserved (record p { cursor = page.last_key }) keys in
      (page.contents ≡ take p.max_keys rows)
      × (next.contents ≡ take p.max_keys (drop p.max_keys rows))
      × (next.is_truncated ≡ ltb p.max_keys (length (drop p.max_keys rows)))
list_page-next reserved p keys d l v t =
    let page = list_page reserved p keys in
    let left = rows_left reserved p keys d l v t in
    let more = list_page-contents reserved (record p { cursor = page.last_key }) keys d in
    (
      (list_page-contents reserved p keys d).0,
      more.0 ∙ ap (λ rows. take p.max_keys rows) left,
      more.1 ∙ ap (λ rows. ltb p.max_keys (length rows)) left,
    )
