-- ===== src/MediaFs.antt =====
-- internal/mediafs/service.go: the media root, and the paths that requests name below it.
pub mod Os
pub mod Resolve
pub mod Trash
pub mod Links
pub mod Delete
pub mod Samples
mod Tests
use sudostream.Prelude.{
  none, not, some, ◌||◌, ◌++◌, ◌==◌, [], fail, done, ◌∷◌, true, false, List, Option, Fallible,
  if◌then◌else◌, Bool,
}
use sudostream.MediaFs.Os.{Disk, dir, OsError, os_path, stat}
use sudostream.Text.{
  Bytes, bytes_eq, clean_rooted, codes, contains, dot, has_prefix, is_empty, join, path_unescape,
  slash, split, trim_slash,
}
use sudostream.Text.Paths.{path_escape, path_join}

-- Service; New makes the root absolute and clean.
pub record Service : Type 0 where
  pub root : Bytes

-- The errors of the package; `os` wraps one of the operating system.
pub data FsError : Type 0 where
  invalid_path path_outside_root trash_forbidden restore_conflict trash_item_missing : FsError
  delete_not_empty delete_read_only fs_invalid bad_json : FsError
  os : OsError → FsError

-- What filepath.EvalSymlinks answers.
pub data Evaluated : Type 0 where
  target : Bytes → Evaluated
  missing : Evaluated
  eval_failed : OsError → Evaluated

-- strings.HasSuffix(s, "/").
unfoldable pub ends_in_slash : Bytes → Bool
ends_in_slash [] = false
ends_in_slash (c ∷ []) = c == slash
ends_in_slash (c ∷ (b ∷ s)) = ends_in_slash (b ∷ s)

-- isWithinRoot
unfoldable pub is_within_root : Bytes → Bytes → Bool
unfolding ends_in_slash
is_within_root root candidate =
    if bytes_eq candidate root
    then true
    else has_prefix candidate (if ends_in_slash root then root else root ++ (slash ∷ []))

-- resolve from the unescaped path on: the path below the root.
unfoldable pub rel_path_of : Bytes → Bytes
rel_path_of path_value =
    let clean_path = clean_rooted path_value in
    if bytes_eq clean_path (dot ∷ []) || bytes_eq clean_path (slash ∷ [])
    then []
    else trim_slash clean_path

-- The same, from `evalErr` on.
abbrev pub within_or_error : Service → Bytes → Bytes → Fallible FsError (Bytes × Bytes)
within_or_error s rel_path resolved =
    if is_within_root s.root resolved then done (resolved, rel_path) else fail path_outside_root

abbrev pub follow : Service → Bytes → Bytes → Evaluated → Fallible FsError (Bytes × Bytes)
follow s rel_path candidate (target resolved) = within_or_error s rel_path resolved
follow s rel_path candidate missing = within_or_error s rel_path candidate
follow s rel_path candidate (eval_failed e) = fail (os e)

abbrev pub resolve_unescaped :
    (Bytes → Evaluated) → Service → Option Bytes → Fallible FsError (Bytes × Bytes)
resolve_unescaped eval s none = fail invalid_path
resolve_unescaped eval s (some path_value) =
    let rel_path = rel_path_of path_value in
    let candidate = path_join (s.root ∷ (rel_path ∷ [])) in
    if contains path_value (0 ∷ [])
    then fail invalid_path
    else if not (is_within_root s.root candidate)
    then fail path_outside_root
    else follow s rel_path candidate (eval candidate)

-- resolve: the path on the disk and the path below the root. filepath.Abs changes nothing, since
-- the root is absolute and filepath.Join cleans.
unfoldable pub resolve : (Bytes → Evaluated) → Service → Bytes → Fallible FsError (Bytes × Bytes)
unfolding is_within_root rel_path_of
resolve eval s raw_path = resolve_unescaped eval s (path_unescape (trim_slash raw_path))

-- filepath.EvalSymlinks where no path has a symbolic link on its way.
unfoldable pub eval_plain : Disk → Bytes → Evaluated
eval_plain d p = elim (stat d (os_path p)) [ none ↦ missing | some n ↦ target p ]

abbrev pub escape_all : List Bytes → List Bytes
escape_all [] = []
escape_all (x ∷ xs) = path_escape x ∷ escape_all xs

-- escapePathSegments
unfoldable pub escape_path_segments : Bytes → Bytes
escape_path_segments rel_path =
    if is_empty rel_path then [] else join slash (escape_all (split slash rel_path))
