-- ===== src/Media/Tests.antt =====
-- Pages of a short list, and the theorems on pages applied to it.
use sudostream.Prelude.{refl, [], ◌≤◌, ◌∷◌, negsuc, arith, pos, ℕ, length, ◌≡◌, List}
use sudostream.Media.Page.{normalize_page_opts, slice_page, max_page_limit}
use sudostream.Media.Page.Walk.{walk, walk_lem, slice_page-length}

abbrev five : List ℕ
five = 1 ∷ (2 ∷ (3 ∷ (4 ∷ (5 ∷ []))))

second_page : (slice_page five (record { limit = pos 2; offset = pos 2 })).0 ≡ 3 ∷ (4 ∷ [])
unfolding slice_page normalize_page_opts
second_page = refl

walk_lem_example : walk 3 2 0 five ≡ five
walk_lem_example = walk_lem five 3 2 (omega arith) (omega arith) (omega arith)

slice_page-length_example :
    (length (slice_page five (record { limit = negsuc 0; offset = negsuc 4 })).0 ≤ max_page_limit)
    × ((slice_page five (record { limit = negsuc 0; offset = negsuc 4 })).1.total ≡ 5)
slice_page-length_example = slice_page-length five (record { limit = negsuc 0; offset = negsuc 4 })
