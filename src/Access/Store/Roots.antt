-- ===== src/Access/Store/Roots.antt =====
-- internal/access/postgres/store.go: AddRoot, RemoveRoot and UpsertLibrary, with the rows of the
-- other tables that a root takes along.
use sudostream.Access.Path.{normalize_rel_path, path_within_root, roots_overlap}
use sudostream.Access.Store.{
  cascade_library, create_library, Database, get_library, head_or_empty, is_root, MediaRow,
  of_library, RootRow, Server,
}
use sudostream.Access.Types.{
  err, invalid_library_root, Library, library_not_found, library_root_conflict,
  library_root_not_found, ok, query_failed, Result, root_paths, ◌>>=◌,
}
use sudostream.Prelude.{
  [], Bool, false, first, if◌then◌else◌, keep, List, map, none, not, Option, some, true, ◌&&◌, ◌++◌,
  ◌||◌, ◌∷◌,
}
use sudostream.Text.{Bytes, bytes_eq, codes, is_empty}

-- libraryIDForExactRoot: the row that holds the exact root, if there is one.
unfoldable pub exact_root : Database → Bytes → Option RootRow
exact_root db path = first (λ r. bytes_eq r.rel_path path) db.roots

-- conflictingLibraryID: a root of another library that overlaps.
unfoldable pub conflicting_root : Database → Bytes → Bytes → Option RootRow
conflicting_root db dest path =
    first (λ r. not (of_library dest r) && roots_overlap r.rel_path path) db.roots

-- The rows below a prefix: `rel_path = prefix OR rel_path LIKE prefix || '/%'`.
abbrev pub below : Server → Bytes → Bytes → MediaRow → Bool
below server id prefix row =
    bytes_eq row.library_id id
    && (bytes_eq row.rel_path prefix || server.like row.rel_path (prefix ++ codes "/%"))

abbrev any_by : (MediaRow → Bool) → List MediaRow → Bool
any_by p [] = false
any_by p (x ∷ xs) = p x || any_by p xs

-- One UPDATE of reassignPrefix: a row below the prefix goes to `dest`, unless `dest` has it.
abbrev move_row : Server → Bytes → Bytes → Bytes → List MediaRow → MediaRow → MediaRow
move_row server src dest prefix table row =
    let there = λ (d : MediaRow).
      bytes_eq d.library_id dest
      && bytes_eq d.user_id row.user_id
      && bytes_eq d.rel_path row.rel_path in
    if below server src prefix row && not (any_by there table)
    then record row { library_id = dest }
    else row

-- One table of reassignPrefix: the UPDATE, then the DELETE of what is left.
unfoldable pub reassign_table : Server → Bytes → Bytes → Bytes → List MediaRow → List MediaRow
reassign_table server src dest prefix table =
    keep (λ r. not (below server src prefix r)) (map (move_row server src dest prefix table) table)

-- reassignPrefix
unfoldable pub reassign_prefix : Server → Database → Bytes → Bytes → Bytes → Database
reassign_prefix server db src dest prefix = record db {
  media_metadata = reassign_table server src dest prefix db.media_metadata;
  watch_state = reassign_table server src dest prefix db.watch_state;
  favorites = reassign_table server src dest prefix db.favorites;
}

-- deletePrefixRows
unfoldable pub delete_prefix_rows : Server → Database → Bytes → Bytes → Database
delete_prefix_rows server db id prefix = record db {
  media_metadata = keep (λ r. not (below server id prefix r)) db.media_metadata;
  watch_state = keep (λ r. not (below server id prefix r)) db.watch_state;
  favorites = keep (λ r. not (below server id prefix r)) db.favorites;
}

abbrev pub has_roots : Bytes → List RootRow → Bool
has_roots id [] = false
has_roots id (r ∷ rs) = of_library id r || has_roots id rs

-- deleteLibraryIfEmpty
unfoldable pub delete_library_if_empty : Database → Bytes → Database
delete_library_if_empty db id = if has_roots id db.roots then db else cascade_library db id

-- The first loop of AddRoot over the roots that the library has: `some true` where it has this
-- root, `some false` where one of them holds it.
unfoldable pub already_covered : Bytes → List Bytes → Option Bool
already_covered path [] = none
already_covered path (existing ∷ rest) =
    let later = already_covered path rest in
    if bytes_eq existing path
    then some true
    else if path_within_root path existing
    then some false
    else later

-- The second loop: roots below the new one go.
unfoldable pub subsume : Bytes → Bytes → List Bytes → List RootRow → List RootRow
subsume id path [] rows = rows
subsume id path (existing ∷ rest) rows = subsume id path rest (
    if path_within_root existing path && not (bytes_eq existing path)
    then keep (λ r. not (is_root id existing r)) rows
    else rows)

-- INSERT into library_roots, whose paths are unique.
unfoldable pub insert_root : Database → Bytes → Bytes → Result Database
insert_root db id path = elim (exact_root db path) [
  | none ↦ ok (record db { roots = record { library_id = id; rel_path = path } ∷ db.roots })
  | some row ↦ err query_failed
]

-- The part of AddRoot that takes the root from another library, or looks for a conflict.
unfoldable pub claim_root : Server → Database → Bytes → Bytes → Option RootRow → Result Database
claim_root server db id path none = elim (conflicting_root db id path) [
  | none ↦ ok db
  | some row ↦ err library_root_conflict
]
claim_root server db id path (some owner) =
    if bytes_eq owner.library_id id
    then ok db
    else ok (
        let moved = reassign_prefix server db owner.library_id id path in
        delete_library_if_empty
          (record moved { roots = keep (λ r. not (is_root owner.library_id path r)) moved.roots })
          owner.library_id)

-- AddRoot
unfoldable pub add_root_rows : Server → Database → Bytes → Bytes → List Bytes → Result Database
add_root_rows server db id path existing = elim (already_covered path existing) [
  | some true ↦ ok db
  | some false ↦ err library_root_conflict
  | none ↦ claim_root server db id path (exact_root db path) >>= λ claimed.
      insert_root (record claimed { roots = subsume id path existing claimed.roots }) id path
]

unfoldable pub add_root : Server → Database → Bytes → Bytes → Result (Database × Library)
add_root server db id path = get_library server db id >>= λ dest.
    add_root_rows server db id path (root_paths dest) >>= λ db'.
    get_library server db' id >>= λ library. ok (db', library)

-- RemoveRoot: the tables, and the library unless its last root is gone.
unfoldable pub remove_root_rows : Server → Database → Bytes → Bytes → Result Database
remove_root_rows server db id path = elim (first (is_root id path) db.roots) [
  | none ↦ err library_root_not_found
  | some row ↦ ok (
      delete_library_if_empty
        (delete_prefix_rows server
          (record db { roots = keep (λ r. not (is_root id path r)) db.roots }) id path)
        id)
]

-- The tables change also where the last root goes, and ErrLibraryNotFound is returned for it.
unfoldable pub remove_root : Server → Database → Bytes → Bytes → Database × Result Library
remove_root server db id path = elim (remove_root_rows server db id path) [
  | err e ↦ (db, err e)
  | ok db' ↦
      (db', if has_roots id db'.roots then get_library server db' id else err library_not_found)
]

-- UpsertLibrary
unfoldable pub upsert_root : Library → Bytes
upsert_root library =
    let root = normalize_rel_path library.rel_path in
    if is_empty root then normalize_rel_path (head_or_empty library.roots) else root

abbrev keep_tables {ℓ} : {A : Type ℓ} → Database → Result (Database × A) → Database × Result A
keep_tables db (ok (db', a)) = (db', ok a)
keep_tables db (err e) = (db, err e)

-- The library that was made stays, also where its root is refused.
unfoldable pub upsert_new :
    Server → Bytes → Result (Database × Library) → Database → Database × Result Library
upsert_new server root (err e) db = (db, err e)
upsert_new server root (ok (db', created)) db =
    keep_tables db' (add_root server db' created.id root)

unfoldable pub upsert_library : Server → Bytes → Database → Library → Database × Result Library
upsert_library server new_id db library =
    let root = upsert_root library in
    if is_empty root then (db, err invalid_library_root) else elim (exact_root db root) [
      | some row ↦ (db, get_library server db row.library_id)
      | none ↦
          let slug = if is_empty library.slug then root else library.slug in
          let name = if is_empty library.name then root else library.name in
          upsert_new server root
            (create_library server new_id db (record library { slug = slug; name = name })) db
    ]
