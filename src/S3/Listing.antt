-- ===== src/S3/Listing.antt =====
-- One page of a listing: the loop of `buildListResult` in blobgw-s3/s3/list.go, over the keys of a
-- bucket in order. The rows are kept as keys; how they are printed is not part of the model.
pub mod Pages
pub mod Paging
use memorylayer_storage.Prelude.{
  ℕ, suc, ◌+◌, ◌≤◌, ◌<◌, ◌≡◌, refl, Bool, true, false, ◌&&◌, ◌||◌, not, Option, none, some, List,
  [], ◌∷◌, ◌++◌, ltb, leb, ◌==◌, if◌then◌else◌, any,
}
use memorylayer_storage.S3.Text.{Str, is_empty, str_le, str_eq, has_prefix, trim_prefix, through}

-- The parameters that the loop reads.
pub record ListParams : Type 0 where
  pub prefix : Str
  pub delimiter : Str
  pub max_keys : ℕ
  pub cursor : Str

-- The result so far. The map `seenPrefix` has the keys `common_prefixes`, and `count` is the number
-- of rows of both kinds.
pub record Page : Type 0 where
  pub contents : List Str
  pub common_prefixes : List Str
  pub count : ℕ
  pub last_key : Str
  pub is_truncated : Bool

abbrev pub empty_page : Page
empty_page = record {
  contents = [];
  common_prefixes = [];
  count = 0;
  last_key = [];
  is_truncated = false;
}

-- The common prefix that a key is folded into, if any.
unfoldable pub rollup : ListParams → Str → Option Str
rollup p key =
    if is_empty p.delimiter then none else elim (through p.delimiter (trim_prefix key p.prefix)) [
      | none ↦ none
      | some head ↦ some (p.prefix ++ head)
    ]

-- A key that the cursor has passed, or that is reserved for the parts of an upload.
abbrev pub skips : Str → Str → Str → Bool
skips reserved cursor key = has_prefix key reserved || (not (is_empty cursor) && str_le key cursor)

abbrev pub seen : Str → Page → Bool
seen cp page = any (str_eq cp) page.common_prefixes

abbrev pub truncated : Page → Page
truncated page = record page { is_truncated = true }

abbrev pub add_prefix : Str → Page → Page
add_prefix cp page = record page {
  common_prefixes = page.common_prefixes ++ cp ∷ [];
  count = suc page.count;
  last_key = cp;
}

abbrev pub add_key : Str → Page → Page
add_key key page = record page {
  contents = page.contents ++ key ∷ [];
  count = suc page.count;
  last_key = key;
}

-- The loop. `reserved` is mpuPartPrefix.
unfoldable pub list_keys : Str → ListParams → List Str → Page → Page
list_keys reserved p [] page = page
list_keys reserved p (key ∷ keys) page =
    let skipped = list_keys reserved p keys page in
    let listed = list_keys reserved p keys (add_key key page) in
    if skips reserved p.cursor key then skipped else elim (rollup p key) [
      | none ↦ if leb p.max_keys page.count then truncated page else listed
      | some cp ↦
          let again = list_keys reserved p keys (record page { last_key = cp }) in
          let rolled = list_keys reserved p keys (add_prefix cp page) in
          if seen cp page
          then again
          else if leb p.max_keys page.count
          then truncated page
          else rolled
    ]

unfoldable pub list_page : Str → ListParams → List Str → Page
list_page reserved p keys = list_keys reserved p keys empty_page
