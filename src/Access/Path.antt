-- ===== src/Access/Path.antt =====
-- internal/access/path.go: media-relative paths, and the library that owns one.
pub mod Canonical
pub mod Within
pub mod Best
pub mod Match
pub mod Slash
use sudostream.Access.Types.{Library, root_paths}
use sudostream.Prelude.{
  [], Bool, false, if◌then◌else◌, length, List, ltb, none, Option, some, suc, true, zero, ℕ, ◌&&◌,
  ◌++◌, ◌||◌, ◌∷◌,
}
use sudostream.Text.{
  Bytes, bytes_eq, clean_rooted, codes, contains, dot, has_prefix, is_empty, path_unescape, slash,
  split, to_lower, trim_slash, trim_space,
}

abbrev pub trash_dir_name : Bytes
trash_dir_name = codes ".trash"

abbrev pub max_unescape_rounds : ℕ
max_unescape_rounds = 2

-- NormalizeRelPath. ToSlash changes nothing on Unix.
unfoldable pub normalize_rel_path : Bytes → Bytes
normalize_rel_path raw_path =
    let cleaned = trim_slash (trim_space raw_path) in
    if is_empty cleaned || bytes_eq cleaned (dot ∷ []) then [] else cleaned

-- hasResidualPathEncoding
unfoldable pub has_residual_path_encoding : Bytes → Bool
has_residual_path_encoding value =
    contains (to_lower value) (codes "%2e") || contains (to_lower value) (codes "%2f")

-- The loop of unescapePathLimited: at most `rounds` rounds, or until nothing changes.
unfoldable pub unescape_rounds : ℕ → Bytes → Option Bytes
unescape_rounds zero current = some current
unescape_rounds (suc rounds) current = elim (path_unescape current) [
  | none ↦ none
  | some unescaped ↦
      if bytes_eq unescaped current then some current else unescape_rounds rounds unescaped
]

abbrev accept_decoded : Option Bytes → Option Bytes
accept_decoded none = none
accept_decoded (some current) =
    if has_residual_path_encoding current || contains current (0 ∷ []) then none else some current

-- unescapePathLimited; `none` is ErrInvalidPath, here and below.
unfoldable pub unescape_path_limited : Bytes → Option Bytes
unescape_path_limited path_value = accept_decoded (unescape_rounds max_unescape_rounds path_value)

-- cleanMediaRelPath
unfoldable pub clean_media_rel_path : Bytes → Bytes
clean_media_rel_path path_value =
    let clean_path = clean_rooted path_value in
    if bytes_eq clean_path (dot ∷ []) || bytes_eq clean_path (slash ∷ [])
    then []
    else trim_slash clean_path

-- The guard of CanonicalRelPath after cleaning: does the path still climb?
unfoldable pub climbs : Bytes → Bool
climbs rel_path =
    bytes_eq rel_path (codes "..")
    || has_prefix rel_path (codes "../")
    || contains rel_path (codes "/../")

abbrev canonical_of : Option Bytes → Option Bytes
canonical_of none = none
canonical_of (some path_value) =
    let rel_path = clean_media_rel_path path_value in
    if climbs rel_path then none else some rel_path

-- CanonicalRelPath
unfoldable pub canonical_rel_path : Bytes → Option Bytes
canonical_rel_path raw_path =
    let trimmed = normalize_rel_path raw_path in
    if is_empty trimmed then some [] else canonical_of (unescape_path_limited trimmed)

-- PathWithinRoot
unfoldable pub path_within_root : Bytes → Bytes → Bool
path_within_root rel_path root =
    let path = normalize_rel_path rel_path in
    let base = normalize_rel_path root in
    if is_empty path || is_empty base
    then false
    else if bytes_eq path base
    then true
    else has_prefix path (base ++ (slash ∷ []))

-- RootsOverlap
unfoldable pub roots_overlap : Bytes → Bytes → Bool
roots_overlap left right = path_within_root left right || path_within_root right left

abbrev any_dotted : List Bytes → Bool
any_dotted [] = false
any_dotted (part ∷ parts) = has_prefix part (dot ∷ []) || any_dotted parts

-- IsHiddenRelPath
unfoldable pub is_hidden_rel_path : Bytes → Bool
is_hidden_rel_path rel_path =
    let path = normalize_rel_path rel_path in
    if is_empty path then false else any_dotted (split slash path)

-- IsTrashRelPath
unfoldable pub is_trash_rel_path : Bytes → Bool
is_trash_rel_path rel_path =
    let path = normalize_rel_path rel_path in
    bytes_eq path trash_dir_name || has_prefix path (trash_dir_name ++ (slash ∷ []))

-- `len(root) > bestLen`, where no library was found yet and bestLen is -1.
abbrev pub longer : ℕ → Option (Library × ℕ) → Bool
longer n none = true
longer n (some (library, best_len)) = ltb best_len n

-- The inner loop of MatchLibrary.
unfoldable pub match_roots :
    Bytes → Library → Option (Library × ℕ) → List Bytes → Option (Library × ℕ)
match_roots rel_path library best [] = best
match_roots rel_path library best (root ∷ roots) =
    match_roots rel_path library
      (if path_within_root rel_path root && longer (length root) best
        then some (library, length root)
        else best)
      roots

-- The outer loop.
unfoldable pub match_libraries : Bytes → Option (Library × ℕ) → List Library → Option (Library × ℕ)
match_libraries rel_path best [] = best
match_libraries rel_path best (library ∷ libraries) =
    match_libraries rel_path (match_roots rel_path library best (root_paths library)) libraries

abbrev found : Option (Library × ℕ) → Option Library
found none = none
found (some (library, n)) = some library

abbrev match_canonical : List Library → Option Bytes → Option Library
match_canonical libraries none = none
match_canonical libraries (some rel_path) =
    if is_empty rel_path then none else found (match_libraries rel_path none libraries)

-- MatchLibrary
unfoldable pub match_library : List Library → Bytes → Option Library
match_library libraries raw_path = match_canonical libraries (canonical_rel_path raw_path)
