-- ===== src/S3/Examples.antt =====
-- The theorems on the S3 front end at concrete inputs.
use memorylayer_storage.Prelude.{
  take, drop, length, ltb, ◌≡◌, refl, true, List, [], ◌∷◌, ◌++◌, arith,
}
use memorylayer_storage.S3.Text.{Str, digits, digits_from, has_prefix, str_le}
use memorylayer_storage.S3.Range.{Within, bytes_prefix, dash, parse_range, parse_range-Within}
use memorylayer_storage.S3.Range.Headers.{Decimal}
use memorylayer_storage.S3.Listing.{ListParams, rollup, list_page, list_keys}
use memorylayer_storage.S3.Listing.Pages.{listable}
use memorylayer_storage.S3.Listing.Paging.{IsSorted, list_page-next}

-- "2" and "99"
abbrev two : Str
two = 50 ∷ []

abbrev ninety_nine : Str
ninety_nine = 57 ∷ 57 ∷ []

two_lem : Decimal two 2
unfolding digits digits_from
two_lem = record { digits = refl; fits = omega arith }

ninety_nine_lem : Decimal ninety_nine 99
unfolding digits digits_from
ninety_nine_lem = record { digits = refl; fits = omega arith }

abbrev header : Str
header = bytes_prefix ++ (two ++ dash ∷ ninety_nine)

parse_range-Within_example : Within 10 (parse_range header 10)
parse_range-Within_example = parse_range-Within header 10

-- mpuPartPrefix
abbrev reserved : Str
reserved = 0 ∷ 109 ∷ 112 ∷ 117 ∷ 0 ∷ []

-- "a", "b" and "c"
abbrev abc : List Str
abc = (97 ∷ []) ∷ (98 ∷ []) ∷ (99 ∷ []) ∷ []

abbrev by_two : ListParams
by_two = record { prefix = []; delimiter = []; max_keys = 2; cursor = [] }

abc-IsSorted : IsSorted [] abc
unfolding str_le
abc-IsSorted = (refl, (refl, (refl, tt)))

abc_more : (list_page reserved by_two abc).is_truncated ≡ true
unfolding list_page list_keys has_prefix rollup
abc_more = refl

list_page-next_example :
    let rows = listable reserved by_two.cursor abc in
    let page = list_page reserved by_two abc in
    let next = list_page reserved (record by_two { cursor = page.last_key }) abc in
    (page.contents ≡ take 2 rows)
    × (next.contents ≡ take 2 (drop 2 rows))
    × (next.is_truncated ≡ ltb 2 (length (drop 2 rows)))
list_page-next_example = list_page-next reserved by_two abc refl (omega arith) abc-IsSorted abc_more
