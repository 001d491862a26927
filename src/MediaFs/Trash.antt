-- ===== src/MediaFs/Trash.antt =====
-- internal/mediafs/trash.go and delete.go: moving files below .trash and back, and deleting them,
-- on a disk without symbolic links. A call answers with its result and the disk it leaves.
pub mod Moved
pub mod Moving
pub mod Done
pub mod Success
pub mod Kept
pub mod Restoring
pub mod Held
pub mod Info
pub mod InfoLost
pub mod RoundTrip
pub mod Percent
use sudostream.MediaFs.{
  true, List, false, bad_json, not, trash_item_missing, restore_conflict, trash_forbidden,
  invalid_path, dot, slash, contains, has_prefix, some, is_empty, bytes_eq, done, trim_slash, fail,
  os, Option, delete_read_only, Bool, Fallible, codes, eval_plain, FsError, resolve, Service,
}
use sudostream.MediaFs.Os.{
  is_dir, Disk, mkdir_all, Node, OsError, os_path, parent, FilePath, read_dir, read_file,
  remove_all, rename, stat, write_file, not_exist, write_denied,
}
use sudostream.Prelude.{
  ◌&&◌, if◌then◌else◌, ◌++◌, ◌||◌, refuse_if, ◌>>◌, [], ◌∷◌, ◌>>=◌, ◌>>◌, none,
}
use sudostream.Text.{Bytes}
use sudostream.Text.Paths.{path_join}

abbrev pub trash_dir_name : Bytes
trash_dir_name = codes ".trash"

abbrev pub trash_info_name : Bytes
trash_info_name = codes "info.json"

-- TrashInfo
pub record TrashInfo : Type 0 where
  pub id : Bytes
  pub original_rel_path : Bytes
  pub trash_rel_path : Bytes
  pub library_id : Bytes
  pub deleted_at : Bytes
  pub deleted_by : Bytes

-- A call on the disk.
abbrev pub OnDisk : Type 0 → Type 0
OnDisk T = Fallible FsError T × Disk

-- A system call: its error is wrapped and ends the call, its disk goes on.
abbrev pub then_on :
    {T : Type 0} → Fallible OsError Disk → (OsError → FsError) → Disk → (Disk → OnDisk T) → OnDisk T
then_on (fail e) wrap d next = (fail (wrap e), d)
then_on (done d') wrap d next = next d'

-- os.RemoveAll as the last call, whose disk goes on also where it fails.
abbrev pub then_removed :
    Fallible OsError (Unit {0}) × Disk → (OsError → FsError) → OnDisk (Unit {0})
then_removed (fail e, left) wrap = (fail (wrap e), left)
then_removed (done u, left) wrap = (done tt, left)

-- What was checked before the first change.
abbrev pub checked :
    {S : Type 0} {T : Type 0} → Fallible FsError S → Disk → (S → OnDisk T) → OnDisk T
checked (fail e) d next = (fail e, d)
checked (done v) d next = next v

-- What MoveToTrash has worked out before it moves anything.
abbrev pub Planned : Type 0
Planned = FilePath × FilePath × Bytes × Bytes

-- isTrashRelPath
unfoldable pub is_trash_rel_path : Bytes → Bool
is_trash_rel_path rel_path =
    let path = trim_slash rel_path in
    bytes_eq path trash_dir_name || has_prefix path (trash_dir_name ++ (slash ∷ []))

-- validateTrashItemID; the path separator of Unix is the slash.
unfoldable pub validate_trash_item_id : Bytes → Fallible FsError (Unit {0})
validate_trash_item_id item_id =
    refuse_if
      (is_empty item_id || contains item_id (slash ∷ []) || contains item_id (dot ∷ (dot ∷ [])))
      invalid_path

-- deleteError
unfoldable pub delete_error : OsError → FsError
delete_error write_denied = delete_read_only
delete_error other = os other

abbrev pub or_missing : FsError → Option Node → Fallible FsError (Unit {0})
or_missing e none = fail e
or_missing e (some n) = done tt

abbrev pub absent : Option Node → Fallible FsError (Unit {0})
absent none = done tt
absent (some n) = fail restore_conflict

abbrev pub decoded : Option TrashInfo → Fallible FsError TrashInfo
decoded none = fail bad_json
decoded (some info) = done info

abbrev pub read_error {ℓ} : {T : Type ℓ} → Fallible OsError T → Fallible FsError T
read_error (fail e) = fail (os e)
read_error (done t) = done t

abbrev pub is_done {ℓ} : {E : Type 0} {T : Type ℓ} → Fallible E T → Bool
is_done (fail e) = false
is_done (done t) = true

module _ (s : Service) where
  abbrev pub resolve_on : Disk → Bytes → Fallible FsError (Bytes × Bytes)
  resolve_on d raw = resolve (eval_plain d) s raw

  -- The checks of MoveToTrash once the path is resolved.
  unfoldable pub plan_target : Bytes → Bytes → Bytes → Disk → Fallible FsError Planned
  unfolding is_trash_rel_path
  plan_target item_id full_path rel_path d = do
    refuse_if (is_empty rel_path || is_trash_rel_path rel_path) trash_forbidden
    or_missing (os not_exist) (stat d (os_path full_path))
    let trash_rel = path_join (trash_dir_name ∷ (item_id ∷ (rel_path ∷ [])))
    dest ← resolve_on d trash_rel
    done (os_path full_path, os_path dest.0, rel_path, trash_rel)

  -- What to move, where to, and the two relative paths.
  unfoldable pub plan_move : Bytes → Bytes → Disk → Fallible FsError Planned
  unfolding validate_trash_item_id plan_target
  plan_move raw_path item_id d = do
    validate_trash_item_id item_id
    resolved ← resolve_on d raw_path
    plan_target item_id resolved.0 resolved.1 d

  -- MoveToTrash
  unfoldable pub move_to_trash : Bytes → Bytes → Disk → OnDisk (Bytes × Bytes)
  unfolding plan_move delete_error
  move_to_trash raw_path item_id d =
      checked (plan_move raw_path item_id d) d λ (source, target, rel_path, trash_rel).
        then_on (mkdir_all (parent target) d) os d λ made.
          then_on (rename source target made) delete_error made
            λ left. (done (rel_path, trash_rel), left)

  -- RemoveTrashItem
  unfoldable pub remove_trash_item : Bytes → Disk → OnDisk (Unit {0})
  unfolding validate_trash_item_id
  remove_trash_item item_id d =
      checked
        (validate_trash_item_id item_id
          >> resolve_on d (path_join (trash_dir_name ∷ (item_id ∷ []))))
        d λ (full_path, rel_path). then_removed (remove_all (os_path full_path) d) os

  -- resolveRestorePaths
  unfoldable pub resolve_restore_paths :
      Bytes → Bytes → Disk → Fallible FsError (FilePath × FilePath)
  resolve_restore_paths original_rel trash_rel d = do
    (src_full, src_rel) ← resolve_on d trash_rel
    or_missing trash_item_missing (stat d (os_path src_full))
    (dest_full, dest_rel) ← resolve_on d original_rel
    absent (stat d (os_path dest_full))
    done (os_path src_full, os_path dest_full)

  -- The checks of RestoreFromTrash.
  unfoldable pub plan_restore :
      Bytes → Bytes → Bytes → Disk → Fallible FsError (FilePath × FilePath)
  unfolding is_trash_rel_path validate_trash_item_id resolve_restore_paths
  plan_restore original_rel trash_rel item_id d = do
    let original = trim_slash original_rel
    let trashed = trim_slash trash_rel
    validate_trash_item_id item_id
    refuse_if (is_empty original || is_trash_rel_path original || not (is_trash_rel_path trashed))
        invalid_path
    resolve_restore_paths original trashed d

  -- RestoreFromTrash
  unfoldable pub restore_from_trash : Bytes → Bytes → Bytes → Disk → OnDisk (Unit {0})
  unfolding plan_restore delete_error remove_trash_item
  restore_from_trash original_rel trash_rel item_id d =
      checked (plan_restore original_rel trash_rel item_id d) d λ (source, target).
        then_on (mkdir_all (parent target) d) os d λ made.
          then_on (rename source target made) delete_error made
            λ left. remove_trash_item item_id left

  -- The directory of an item.
  abbrev pub item_dir : Bytes → Disk → Fallible FsError FilePath
  item_dir item_id d = do
    validate_trash_item_id item_id
    (dir_full, dir_rel) ← resolve_on d (path_join (trash_dir_name ∷ (item_id ∷ [])))
    done (os_path dir_full)

  -- WriteTrashInfo, with json.Marshal as `encode`.
  unfoldable pub write_trash_info :
      (TrashInfo → Bytes) → Bytes → TrashInfo → Disk → OnDisk (Unit {0})
  unfolding validate_trash_item_id
  write_trash_info encode item_id info d = checked (item_dir item_id d) d λ dir_full.
      then_on (mkdir_all dir_full d) os d λ made.
        then_on (write_file (dir_full ++ (trash_info_name ∷ [])) (encode info) made) os made
          λ left. (done tt, left)

  -- ReadTrashInfo, with json.Unmarshal as `decode`.
  unfoldable pub read_trash_info :
      (Bytes → Option TrashInfo) → Bytes → Disk → Fallible FsError TrashInfo
  unfolding validate_trash_item_id
  read_trash_info decode item_id d = do
    dir_full ← item_dir item_id d
    payload ← read_error (read_file d (dir_full ++ (trash_info_name ∷ [])))
    decoded (decode payload)

  -- The loop of ListTrashItemIDs over the entries of .trash.
  unfoldable pub item_ids : Disk → FilePath → List Bytes → List Bytes
  unfolding validate_trash_item_id
  item_ids d dir_full [] = []
  item_ids d dir_full (name ∷ names) =
      let rest = item_ids d dir_full names in
      if is_dir (stat d (dir_full ++ (name ∷ []))) && is_done (validate_trash_item_id name)
      then name ∷ rest
      else rest

  abbrev listed_ids :
      Disk → FilePath → Fallible OsError (List Bytes) → Fallible FsError (List Bytes)
  listed_ids d dir_full (done names) = done (item_ids d dir_full names)
  listed_ids d dir_full (fail not_exist) = done []
  listed_ids d dir_full (fail other) = fail (os other)

  -- ListTrashItemIDs
  unfoldable pub list_trash_item_ids : Disk → Fallible FsError (List Bytes)
  unfolding item_ids
  list_trash_item_ids d = do
    (dir_full, dir_rel) ← resolve_on d trash_dir_name
    listed_ids d (os_path dir_full) (read_dir d (os_path dir_full))
