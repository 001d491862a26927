-- ===== src/Trash/Store.antt =====
-- internal/trash/types.go and internal/trash/postgres/store.go: the rows of trash_items. A table
-- that is not online fails every query; the key of a row is its id.
use sudostream.MediaFs.{FsError}
use sudostream.Prelude.{
  map, keep, sort_by, ◌||◌, true, done, first, not, some, leb, if◌then◌else◌, false, fail, Fallible,
  Option, List, Bool, ℕ, ◌∷◌, none,
}
use sudostream.Text.{bytes_eq, Bytes}

-- Item
pub record Item : Type 0 where
  pub id : Bytes
  pub original_rel_path : Bytes
  pub trash_rel_path : Bytes
  pub library_id : Bytes
  pub deleted_at : ℕ
  pub deleted_by : Bytes

-- The errors of the package; `media` wraps one of internal/mediafs.
pub data TrashError : Type 0 where
  not_found invalid_retention settings_unavailable query_failed : TrashError
  media : FsError → TrashError

pub record Table : Type 0 where
  pub online : Bool
  pub rows : List Item

abbrev pub has_id : Bytes → Item → Bool
has_id id item = bytes_eq item.id id

abbrev pub with_rows : Table → List Item → Table
with_rows t rows = record t { rows = rows }

abbrev pub found : Option Item → Fallible TrashError Item
found none = fail not_found
found (some item) = done item

abbrev pub taken : Option Item → Bool
taken none = false
taken (some item) = true

-- Store.Insert
unfoldable pub insert : Item → Table → Fallible TrashError Table
insert item t =
    if not t.online || taken (first (has_id item.id) t.rows)
    then fail query_failed
    else done (with_rows t (item ∷ t.rows))

-- Store.Get
unfoldable pub get : Bytes → Table → Fallible TrashError Item
get id t = if t.online then found (first (has_id id) t.rows) else fail query_failed

abbrev pub newer : Item → Item → Bool
newer a b = leb b.deleted_at a.deleted_at

-- Store.List
unfoldable pub list_rows : Table → Fallible TrashError (List Item)
list_rows t = if t.online then done (sort_by newer t.rows) else fail query_failed

-- Store.Delete
unfoldable pub delete_row : Bytes → Table → Fallible TrashError Table
delete_row id t =
    if t.online
    then done (with_rows t (keep (λ item. not (has_id id item)) t.rows))
    else fail query_failed

abbrev pub original_of : Item → Bytes
original_of item = item.original_rel_path

-- Store.OriginalPrefixes
unfoldable pub original_prefixes : Table → Fallible TrashError (List Bytes)
original_prefixes t = if t.online then done (map original_of t.rows) else fail query_failed
