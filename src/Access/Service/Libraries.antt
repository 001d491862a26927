-- ===== src/Access/Service/Libraries.antt =====
-- internal/access/service.go: libraries and their roots.
use sudostream.Access.Path.{
  is_hidden_rel_path, is_trash_rel_path, normalize_rel_path, roots_overlap,
}
use sudostream.Access.Store.{Database, list_libraries, Server}
use sudostream.Access.Types.{
  err, invalid_library_name, invalid_library_patch, invalid_library_root, invalid_library_type,
  Library, library_root_conflict, LibraryType, ok, or_fail, other, parse_library_type, Result,
  root_paths, ◌>>=◌,
}
use sudostream.Prelude.{
  [], Bool, false, if◌then◌else◌, List, none, not, Option, reverse, some, true, ◌&&◌, ◌++◌, ◌||◌,
  ◌∷◌,
}
use sudostream.Text.{Bytes, bytes_eq, codes, contains, is_empty, trim_space}
use sudostream.Access.Store
use sudostream.Access.Store.Roots

-- slugify. Which characters are letters or digits is for the Unicode tables of the Go runtime to
-- say: `pieces` gives the lowered characters of a text, each with its verdict and its bytes.
unfoldable pub slug_pieces : List (Bool × Bytes) → Bytes → Bool → Bytes
slug_pieces [] builder prev_dash = builder
slug_pieces ((true, bytes) ∷ rest) builder prev_dash = slug_pieces rest (builder ++ bytes) false
slug_pieces ((false, bytes) ∷ rest) builder prev_dash =
    let dash = not prev_dash && not (is_empty builder) in
    slug_pieces rest (if dash then builder ++ codes "-" else builder) (dash || prev_dash)

abbrev trim_left_dashes : Bytes → Bytes
trim_left_dashes [] = []
trim_left_dashes (c ∷ s) =
    let rest = trim_left_dashes s in if bytes_eq (c ∷ []) (codes "-") then rest else c ∷ s

unfoldable pub slugify : (Bytes → List (Bool × Bytes)) → Bytes → Bytes
slugify pieces value = reverse (
    trim_left_dashes
      (reverse (trim_left_dashes (slug_pieces (pieces (trim_space value)) [] false))))

-- CreateLibrary
abbrev pub parse_or_other : Bytes → Result LibraryType
parse_or_other raw =
    if is_empty (trim_space raw)
    then ok other
    else or_fail (parse_library_type raw) invalid_library_type

unfoldable pub create_library :
    (Bytes → List (Bool × Bytes))
    → Server
    → Bytes
    → Database
    → Bytes
    → Bytes
    → Bytes
    → Result (Database × Library)
create_library pieces server new_id db name slug type_raw =
    let trimmed_name = trim_space name in
    let trimmed_slug = trim_space slug in
    let final_slug =
      slugify pieces (if is_empty trimmed_slug then trimmed_name else trimmed_slug) in
    if is_empty trimmed_name
    then err invalid_library_name
    else (parse_or_other type_raw >>= λ type.
        if is_empty final_slug
        then err invalid_library_name
        else Store.create_library server new_id db (record {
          id = [];
          slug = final_slug;
          rel_path = [];
          name = trimmed_name;
          type = type;
          roots = [];
        }))

-- validateRootPath
unfoldable pub validate_root_path : Bytes → Result Bytes
validate_root_path rel_path =
    let cleaned = normalize_rel_path rel_path in
    if is_empty cleaned || bytes_eq cleaned (codes "..") || contains cleaned (codes "/../")
    then err invalid_library_root
    else if is_hidden_rel_path cleaned || is_trash_rel_path cleaned
    then err invalid_library_root
    else ok cleaned

-- What the search of AddRoot through the registered roots ends with.
pub data Search : Type 0 where
  exact : Library → Search
  conflict : Search
  free : Search

unfoldable pub search_roots : Bytes → Library → List Bytes → Search
search_roots cleaned library [] = free
search_roots cleaned library (root ∷ roots) =
    let rest = search_roots cleaned library roots in
    if bytes_eq root cleaned
    then exact library
    else if roots_overlap root cleaned
    then conflict
    else rest

unfoldable pub search_libraries : Bytes → List Library → Search
search_libraries cleaned [] = free
search_libraries cleaned (library ∷ libraries) =
    elim (search_roots cleaned library (root_paths library)) [
      | exact found ↦ exact found
      | conflict ↦ conflict
      | free ↦ search_libraries cleaned libraries
    ]

-- AddRoot
unfoldable pub add_root : Server → Database → Bytes → Bytes → Result (Database × Library)
add_root server db library_id rel_path = validate_root_path rel_path >>= λ cleaned.
    Store.get_library server db library_id >>= λ target.
    elim (search_libraries cleaned (list_libraries server db)) [
      | conflict ↦ err library_root_conflict
      | free ↦ Roots.add_root server db library_id cleaned
      | exact library ↦
          if bytes_eq library.id library_id
          then ok (db, library)
          else Roots.add_root server db library_id cleaned
    ]

-- RemoveRoot
unfoldable pub remove_root : Server → Database → Bytes → Bytes → Database × Result Library
remove_root server db library_id rel_path =
    let cleaned = normalize_rel_path rel_path in
    if is_empty cleaned
    then (db, err invalid_library_root)
    else Roots.remove_root server db library_id cleaned

-- UpdateLibrary
abbrev pub trimmed_name : Option Bytes → Result (Option Bytes)
trimmed_name none = ok none
trimmed_name (some name) =
    if is_empty (trim_space name) then err invalid_library_name else ok (some (trim_space name))

abbrev pub parsed_type : Option Bytes → Result (Option LibraryType)
parsed_type none = ok none
parsed_type (some raw) = or_fail (parse_library_type raw) invalid_library_type >>= λ t. ok (some t)

unfoldable pub update_library :
    Server → Database → Bytes → Option Bytes → Option Bytes → Result (Database × Library)
update_library server db library_id none none = err invalid_library_patch
update_library server db library_id name type_raw = trimmed_name name >>= λ n.
    parsed_type type_raw >>= λ t. Store.update_library server db library_id n t
