-- ===== src/Media/Page.antt =====
-- internal/mediafs/page.go: pages of a list.
pub mod Walk
use sudostream.Text.{Bytes}
use sudostream.Prelude.{
  drop, ◌-◌, ◌+◌, min, zero, take, [], ltb, suc, none, length, leb, pos, some, or_zero,
  if◌then◌else◌, negsuc, Option, List, ℤ, ℕ,
}

abbrev pub default_page_limit : ℕ
default_page_limit = 28

abbrev pub max_page_limit : ℕ
max_page_limit = 100

pub record PageOpts : Type 0 where
  pub limit : ℤ
  pub offset : ℤ

pub record PageMeta : Type 0 where
  pub total : ℕ
  pub limit : ℤ
  pub offset : ℤ

abbrev pub default_limit : ℤ → ℤ
default_limit (negsuc n) = pos default_page_limit
default_limit (pos zero) = pos default_page_limit
default_limit (pos (suc n)) = pos (suc n)

abbrev pub cap_limit : ℤ → ℤ
cap_limit (negsuc n) = negsuc n
cap_limit (pos n) = if ltb max_page_limit n then pos max_page_limit else pos n

abbrev pub floor_offset : ℤ → ℤ
floor_offset (negsuc n) = pos 0
floor_offset (pos n) = pos n

-- NormalizePageOpts
unfoldable pub normalize_page_opts : PageOpts → PageOpts
normalize_page_opts opts = record {
  limit = cap_limit (default_limit opts.limit);
  offset = floor_offset opts.offset;
}

-- The part of SlicePage after the normalizing, where neither number is negative.
abbrev pub slice_normalized {ℓ} : {A : Type ℓ} → List A → ℕ → ℕ → List A
slice_normalized items limit offset =
    if leb (length items) offset
    then []
    else take (min (offset + limit) (length items) - offset) (drop offset items)

-- SlicePage
unfoldable pub slice_page {ℓ} : {A : Type ℓ} → List A → PageOpts → List A × PageMeta
slice_page items raw =
    let opts = normalize_page_opts raw in
    (
      slice_normalized items (or_zero opts.limit) (or_zero opts.offset),
      record { total = length items; limit = opts.limit; offset = opts.offset },
    )

-- BrowseResponse on the paths of the children.
pub record BrowseResponse : Type 0 where
  pub children : List Bytes
  pub page : PageMeta

-- ApplyPage; `none` is the nil response.
unfoldable pub apply_page : Option BrowseResponse → PageOpts → Option BrowseResponse
apply_page none opts = none
apply_page (some response) opts =
    let sliced = slice_page response.children opts in
    some (record { children = sliced.0; page = sliced.1 })
