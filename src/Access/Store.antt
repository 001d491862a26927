-- ===== src/Access/Store.antt =====
-- internal/access/postgres: the registry of libraries, their roots and the users' grants as
-- tables, and the operations on libraries; those on roots and grants are in Roots and UserGrants.
-- A query is what its text says of the rows; a transaction that fails leaves the tables as they
-- were. What the database server brings is a parameter: the collation of ORDER BY and the operator
-- LIKE. Queries that fail for reasons of their own (a lost connection) are left out.
pub mod Roots
pub mod UserGrants
pub mod Exclusive
pub mod Subsume
pub mod Claim
pub mod Listing
pub mod AddRoot
pub mod Grants
pub mod Like
use sudostream.Access.Path.{normalize_rel_path, path_within_root, roots_overlap}
use sudostream.Access.Types.{
  err, GrantInput, invalid_library_patch, invalid_library_root, is_empty_permissions, Library,
  library_not_found, library_root_conflict, library_root_not_found, library_slug_conflict,
  LibraryPermissions, LibraryType, ok, or_fail, other, query_failed, Result, root_paths, unset,
  ◌>>=◌,
}
use sudostream.Prelude.{
  [], Bool, false, first, if◌then◌else◌, keep, List, map, none, not, Option, some, sort_by, suc,
  true, zero, ℕ, ◌&&◌, ◌++◌, ◌+◌, ◌||◌, ◌∷◌,
}
use sudostream.Text.{Bytes, bytes_eq, codes, is_empty}
use sudostream.Text.Decimal.{decimal}

-- libraryModel
pub record LibraryRow : Type 0 where
  pub id : Bytes
  pub slug : Bytes
  pub name : Bytes
  pub type : LibraryType

-- libraryRootModel
pub record RootRow : Type 0 where
  pub library_id : Bytes
  pub rel_path : Bytes

-- libraryGrantModel
pub record GrantRow : Type 0 where
  pub user_id : Bytes
  pub library_id : Bytes
  pub permissions : LibraryPermissions

-- The key columns of media_metadata, watch_state and favorites; the first has no user.
pub record MediaRow : Type 0 where
  pub user_id : Bytes
  pub library_id : Bytes
  pub rel_path : Bytes

pub record Database : Type 0 where
  pub libraries : List LibraryRow
  pub roots : List RootRow
  pub grants : List GrantRow
  pub media_metadata : List MediaRow
  pub watch_state : List MediaRow
  pub favorites : List MediaRow

-- What the database server decides.
pub record Server : Type 0 where
  pub collate : Bytes → Bytes → Bool
  pub like : Bytes → Bytes → Bool

abbrev pub has_id : Bytes → LibraryRow → Bool
has_id id row = bytes_eq row.id id

abbrev pub of_library : Bytes → RootRow → Bool
of_library id row = bytes_eq row.library_id id

abbrev pub is_root : Bytes → Bytes → RootRow → Bool
is_root id path row = bytes_eq row.library_id id && bytes_eq row.rel_path path

abbrev pub head_or_empty : List Bytes → Bytes
head_or_empty [] = []
head_or_empty (r ∷ rs) = r

-- The roots of a library in the order of preloadLibraries.
unfoldable pub roots_of : Server → Database → Bytes → List Bytes
roots_of server db id =
    sort_by server.collate (map (λ r. r.rel_path) (keep (of_library id) db.roots))

-- libraryFromModel
unfoldable pub library_from_model : Server → Database → LibraryRow → Library
library_from_model server db row =
    let roots = roots_of server db row.id in
    record {
      id = row.id;
      slug = row.slug;
      rel_path = head_or_empty roots;
      name = row.name;
      type = row.type;
      roots = roots;
    }

-- ListLibraries
unfoldable pub list_libraries : Server → Database → List Library
list_libraries server db =
    map (library_from_model server db) (sort_by (λ a b. server.collate a.name b.name) db.libraries)

-- GetLibrary and getLibraryTx
unfoldable pub get_library : Server → Database → Bytes → Result Library
get_library server db id = or_fail (first (has_id id) db.libraries) library_not_found >>= λ row.
    ok (library_from_model server db row)

abbrev pub slug_taken : Bytes → List Bytes → Bool
slug_taken slug [] = false
slug_taken slug (used ∷ rest) = bytes_eq used slug || slug_taken slug rest

-- The loop of allocateSlug over `slug-2`, `slug-3`, and so on: `rounds` of them from `index` on.
unfoldable pub next_slug : Bytes → List Bytes → ℕ → ℕ → Result Bytes
next_slug slug taken zero index = err library_slug_conflict
next_slug slug taken (suc rounds) index =
    let rest = next_slug slug taken rounds (index + 1) in
    let candidate = slug ++ (b'-' ∷ decimal index) in
    if slug_taken candidate taken then rest else ok candidate

-- allocateSlug
unfoldable pub allocate_slug : Server → Database → Bytes → Result Bytes
allocate_slug server db base =
    let slug = if is_empty base then codes "library" else base in
    let taken =
      keep (λ s. bytes_eq s slug || server.like s (slug ++ codes "-%"))
        (map (λ r. r.slug) db.libraries) in
    let search_from_two = next_slug slug taken 998 2 in
    if slug_taken slug taken then search_from_two else ok slug

abbrev or_other : LibraryType → LibraryType
or_other unset = other
or_other t = t

-- CreateLibrary; `new_id` is the identifier that the database draws.
unfoldable pub create_library : Server → Bytes → Database → Library → Result (Database × Library)
create_library server new_id db library = allocate_slug server db library.slug >>= λ slug.
    let row : LibraryRow = record {
      id = new_id;
      slug = slug;
      name = library.name;
      type = or_other library.type;
    } in
    let db' = record db { libraries = row ∷ db.libraries } in
    get_library server db' new_id >>= λ created. ok (db', created)

-- DELETE of a library, which cascades to all rows that refer to it.
unfoldable pub cascade_library : Database → Bytes → Database
cascade_library db id = record {
  libraries = keep (λ r. not (has_id id r)) db.libraries;
  roots = keep (λ r. not (of_library id r)) db.roots;
  grants = keep (λ r. not (bytes_eq r.library_id id)) db.grants;
  media_metadata = keep (λ r. not (bytes_eq r.library_id id)) db.media_metadata;
  watch_state = keep (λ r. not (bytes_eq r.library_id id)) db.watch_state;
  favorites = keep (λ r. not (bytes_eq r.library_id id)) db.favorites;
}

abbrev pub if_present {ℓ} : {A : Type ℓ} → Option LibraryRow → Result A → Result A
if_present none r = err library_not_found
if_present (some row) r = r

-- DeleteLibrary
unfoldable pub delete_library : Database → Bytes → Result Database
delete_library db id = if_present (first (has_id id) db.libraries) (ok (cascade_library db id))

abbrev pub set_name : Option Bytes → LibraryRow → LibraryRow
set_name none row = row
set_name (some name) row = record row { name = name }

abbrev pub set_type : Option LibraryType → LibraryRow → LibraryRow
set_type none row = row
set_type (some type) row = record row { type = type }

abbrev is_none {ℓ} : {A : Type ℓ} → Option A → Bool
is_none none = true
is_none (some a) = false

-- UpdateLibrary
unfoldable pub update_library :
    Server → Database → Bytes → Option Bytes → Option LibraryType → Result (Database × Library)
update_library server db id name type =
    if is_none name && is_none type
    then err invalid_library_patch
    else if_present (first (has_id id) db.libraries) (
        let db' = record db {
          libraries =
              map (λ r. if has_id id r then set_type type (set_name name r) else r) db.libraries;
        } in
        get_library server db' id >>= λ library. ok (db', library))
