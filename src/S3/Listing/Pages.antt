-- ===== src/S3/Listing/Pages.antt =====
-- One page of keys without a delimiter.
use memorylayer_storage.Prelude.{
  ℕ, zero, suc, ◌-◌, ◌≡◌, refl, true, false, not, List, [], ◌∷◌, ◌++◌, ltb, leb, arith, keep, take,
  length, Bool-cases, inl, inr, ap, sym, ◌∙◌,
}
use mathlib.Core.List.{append_assoc, append-nil}
use memorylayer_storage.S3.Text.{Str, is_empty}
use memorylayer_storage.S3.Listing.{
  ListParams, Page, empty_page, rollup, skips, truncated, add_key, list_keys, list_page,
}

-- The keys that a page may list.
abbrev pub listable : Str → Str → List Str → List Str
listable reserved cursor keys = keep (λ key. not (skips reserved cursor key)) keys

abbrev pub last_or : Str → List Str → Str
last_or d [] = d
last_or d (key ∷ keys) = last_or key keys

-- The loop adds the first of these rows to a page, as many as there is room for.
pub record Listed (p : ListParams) (rows : List Str) (page after : Page) : Type 0 where
  pub contents : after.contents ≡ page.contents ++ take (p.max_keys - page.count) rows
  pub more : after.is_truncated ≡ ltb (p.max_keys - page.count) (length rows)
  pub last : after.last_key ≡ last_or page.last_key (take (p.max_keys - page.count) rows)

take-nil : (n : ℕ) → take {A = Str} n [] ≡ []
take-nil zero = refl
take-nil (suc n) = refl

page_full :
    (p : ListParams) (rows : List Str) (key : Str) (page : Page)
    → leb p.max_keys page.count ≡ true
    → Listed p (key ∷ rows) page (truncated page)
page_full p rows key page full =
    let room : p.max_keys - page.count ≡ 0 = ground (arith, full) in
    record {
      contents = rw room (sym (append-nil page.contents));
      more = rw room (ground arith);
      last = rw room refl;
    }

page_room :
    (p : ListParams) (rows : List Str) (key : Str) (page after : Page)
    → leb p.max_keys page.count ≡ false
    → Listed p rows (add_key key page) after
    → Listed p (key ∷ rows) page after
page_room p rows key page after some_room on =
    let room : p.max_keys - page.count ≡ suc (p.max_keys - suc page.count) =
      ground (arith, some_room) in
    record {
      contents = rw room (
          on.contents
          ∙ append_assoc page.contents (key ∷ []) (take (p.max_keys - suc page.count) rows));
      more = rw room (on.more ∙ ground arith);
      last = rw room on.last;
    }

pub list_keys_lem :
    (reserved : Str) (p : ListParams) (keys : List Str) (page : Page)
    → is_empty p.delimiter ≡ true
    → page.is_truncated ≡ false
    → Listed p (listable reserved p.cursor keys) page (list_keys reserved p keys page)
unfolding list_keys rollup
list_keys_lem reserved p [] page d t =
    let none_left : take {A = Str} (p.max_keys - page.count) [] ≡ [] =
      take-nil (p.max_keys - page.count) in
    record {
      contents = rw none_left (sym (append-nil page.contents));
      more = ground (arith, t);
      last = rw none_left refl;
    }
list_keys_lem reserved p (key ∷ keys) page d t = elim (Bool-cases (skips reserved p.cursor key)) [
  | inl skip ↦ rw skip (list_keys_lem reserved p keys page d t)
  | inr shown ↦ elim (Bool-cases (leb p.max_keys page.count)) [
    | inl full ↦ rw (shown, d, full) (page_full p (listable reserved p.cursor keys) key page full)
    | inr some_room ↦
        rw (shown, d, some_room)
          (page_room p (listable reserved p.cursor keys) key page _ some_room
            (list_keys_lem reserved p keys (add_key key page) d t))
  ]
]

-- Without a delimiter a page lists the first `max_keys` of the keys that the cursor has not passed
-- and that are not reserved, and is truncated exactly when there are more of them.
pub list_page-contents :
    (reserved : Str) (p : ListParams) (keys : List Str)
    → is_empty p.delimiter ≡ true
    → ((list_page reserved p keys).contents ≡ take p.max_keys (listable reserved p.cursor keys))
      × ((list_page reserved p keys).is_truncated
          ≡ ltb p.max_keys (length (listable reserved p.cursor keys)))
unfolding list_page
list_page-contents reserved p keys d =
    let on = list_keys_lem reserved p keys empty_page d refl in
    let all : p.max_keys - 0 ≡ p.max_keys = omega arith in
    let rows = listable reserved p.cursor keys in
    (on.contents ∙ ap (λ n. take n rows) all, on.more ∙ ap (λ n. ltb n (length rows)) all)
