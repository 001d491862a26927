-- ===== src/MediaFs/Delete.antt =====
-- internal/mediafs/delete.go, and the calls of service.go that only look, on a disk without
-- symbolic links.
pub mod Laws
use sudostream.Prelude.{◌&&◌, ◌||◌, if◌then◌else◌, [], ◌∷◌, none, ◌>>=◌, ◌>>◌}
use sudostream.Text.{Bytes}
use sudostream.MediaFs.{
  done, some, not, is_empty, OsError, fail, List, path_join, Fallible, Option, Bool, resolve,
  eval_plain, FsError, os, fs_invalid, delete_not_empty, Service,
}
use sudostream.MediaFs.Os.{
  Disk, FilePath, Node, dir, file, stat, os_path, remove_all, remove, read_dir, not_exist,
  is_empty_list,
}
use sudostream.MediaFs.Trash.{OnDisk, checked, then_on, then_removed, delete_error, read_error}

-- Delete from the listing of the directory on.
abbrev pub delete_listed : FilePath → Bool → Disk → List Bytes → OnDisk (Unit {0})
delete_listed p recursive d names =
    if not (is_empty_list names) && not recursive
    then (fail delete_not_empty, d)
    else then_removed (remove_all p d) delete_error

abbrev pub delete_node : FilePath → Bool → Disk → Option Node → OnDisk (Unit {0})
delete_node p recursive d none = (fail (os not_exist), d)
delete_node p recursive d (some dir) =
    checked (read_error (read_dir d p)) d (delete_listed p recursive d)
delete_node p recursive d (some (file b)) =
    then_on (remove p d) delete_error d λ left. (done tt, left)

abbrev pub only_file : Bytes → Option Node → Fallible FsError Bytes
only_file full none = fail (os not_exist)
only_file full (some dir) = fail fs_invalid
only_file full (some (file b)) = done full

abbrev pub only_dir : Bytes → Option Node → Fallible FsError Bytes
only_dir full none = fail (os not_exist)
only_dir full (some dir) = done full
only_dir full (some (file b)) = fail fs_invalid

module _ (s : Service) where
  -- Delete
  unfoldable pub delete : Bytes → Bool → Disk → OnDisk (Unit {0})
  delete raw_path recursive d =
      checked (resolve (eval_plain d) s raw_path) d λ (full_path, rel_path).
        delete_node (os_path full_path) recursive d (stat d (os_path full_path))

  -- FilePath
  unfoldable pub file_path : Disk → Bytes → Fallible FsError Bytes
  file_path d raw_path = do
    resolved ← resolve (eval_plain d) s raw_path
    only_file resolved.0 (stat d (os_path resolved.0))

  -- DirPath
  unfoldable pub dir_path : Disk → Bytes → Fallible FsError Bytes
  dir_path d raw_path = do
    resolved ← resolve (eval_plain d) s raw_path
    only_dir resolved.0 (stat d (os_path resolved.0))

abbrev pub joined_prefix : Bytes → Bytes → FilePath
joined_prefix root rel_path = os_path (path_join (root ∷ (rel_path ∷ [])))

-- DeletePrefix, which drops the error of os.RemoveAll.
unfoldable pub delete_prefix : Bytes → Bytes → Disk → Disk
delete_prefix root rel_path d =
    if is_empty root || is_empty rel_path then d else (remove_all (joined_prefix root rel_path) d).1
