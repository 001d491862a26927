-- ===== src/MediaFs/Tests.antt =====
-- Runs of the media file system, and its theorems at given inputs.
use sudostream.MediaFs.Samples.{
  sample, names, item, names-IsProper, root-IsProper, item-IsProper, item-IsLiteral,
  names-IsLiteral, above,
}
use sudostream.Text.{split}
use sudostream.MediaFs.Os.{file, first_stuck, find, mkdir_all, make_dirs, rename, relocate}
use sudostream.MediaFs.Trash.{is_trash_rel_path, delete_error, validate_trash_item_id}
use sudostream.MediaFs.Trash.Done.{below}
use sudostream.MediaFs.Os.{os_path, drop_within}
use sudostream.MediaFs.Os.{remove_all}
use sudostream.MediaFs.Os.{strip}
use sudostream.MediaFs.Os.{read_dir}
use sudostream.MediaFs.Os.{path_eq}
use sudostream.Text.Paths.{path_join}
use sudostream.MediaFs.Trash.RoundTrip.{move_to_trash-restore_from_trash}
use sudostream.MediaFs.Links.{resolve-escape_path_segments}
use sudostream.MediaFs.Trash.Percent.{move_to_trash-percent}
use sudostream.MediaFs.Delete.Laws.{delete-Deleted, Deleted}
use sudostream.MediaFs.Resolve.Plain.{resolve-within}
use sudostream.Text.Laws.Clean.{IsProper}
use sudostream.Text.Laws.Decide.{is_proper→IsProper}
use sudostream.Prelude.{arith, ◌⊎◌, ◌≡◌, All, refl, [], ◌∷◌, none}
use sudostream.Text.{has_prefix, contains, trim_slash, path_unescape, join, bytes_eq, Bytes, codes}
use sudostream.MediaFs.{
  some, dir, has_prefix, contains, delete_not_empty, fail, FsError, true, done, slash, os_path,
  trim_slash, path_unescape, join, bytes_eq, List, false, resolve, eval_plain, escape_path_segments,
  target,
}
use sudostream.MediaFs.Resolve.{full_of, service_of}
use sudostream.MediaFs.Os.{parent, within, Disk, stat, FilePath}
use sudostream.MediaFs.Trash.{
  trash_dir_name, move_to_trash, restore_from_trash, list_trash_item_ids,
}
use sudostream.MediaFs.Delete.{delete}

resolve_follow :
    resolve (λ p. target (codes "/m/x/y")) (service_of (codes "m") []) (codes "/d/../d%2Fe")
    ≡ done (codes "/m/x/y", codes "d/e")
unfolding resolve path_unescape trim_slash contains bytes_eq path_join
resolve_follow = refl

resolve-within_example :
    (within (os_path (codes "/m")) (os_path (codes "/m/x/y")) ≡ true)
    × ((segs : List Bytes) × All IsProper segs × (codes "d/e" ≡ join slash segs))
unfolding join
resolve-within_example =
    resolve-within (λ p. target (codes "/m/x/y")) (service_of (codes "m") []) (codes "/d/../d%2Fe")
      resolve_follow

moved : move_to_trash (service_of (codes "m") []) (codes "/d/b.mkv") item sample ≡ (
  done (join slash names, codes ".trash/7-a/d/b.mkv"),
  (move_to_trash (service_of (codes "m") []) (codes "/d/b.mkv") item sample).1,
)
unfolding contains resolve path_unescape trim_slash bytes_eq path_join eval_plain stat os_path
    path_eq parent within strip drop_within find has_prefix join split move_to_trash mkdir_all
    make_dirs rename relocate is_trash_rel_path delete_error
moved = refl

move_to_trash-restore_from_trash_example :
    (left : Disk) × (restore_from_trash
        (service_of (codes "m") [])
        (join slash names)
        (codes ".trash/7-a/d/b.mkv")
        item
        ((move_to_trash (service_of (codes "m") []) (codes "/d/b.mkv") item sample).1)
      ≡ (done tt, left))
    × ((q : FilePath)
        → within (below (codes "m") [] (trash_dir_name ∷ [])) q ≡ false
        → stat left q ≡ stat sample q)
move_to_trash-restore_from_trash_example =
    move_to_trash-restore_from_trash (codes "m") [] root-IsProper item item-IsProper item-IsLiteral
      (codes "/d/b.mkv") sample names moved names-IsProper names-IsLiteral above (λ q w. refl)

resolve_percent :
    resolve (eval_plain sample) (service_of (codes "m") []) (codes "50%25.mkv")
    ≡ done (codes "/m/50%.mkv", codes "50%.mkv")
unfolding contains resolve path_unescape trim_slash bytes_eq path_join eval_plain stat os_path
    path_eq parent within strip drop_within find has_prefix join split
resolve_percent = refl

move_to_trash-percent_example :
    (e : FsError) × (move_to_trash (service_of (codes "m") []) (codes "50%25.mkv") item sample
      ≡ (fail e, sample))
move_to_trash-percent_example =
    move_to_trash-percent (codes "m") [] root-IsProper item item-IsProper item-IsLiteral
      (codes "50%25.mkv") sample resolve_percent (unfold path_unescape in refl)

delete-Deleted_example :
    ((full : Bytes) × (rel : Bytes) × (resolve
          (eval_plain sample)
          (service_of (codes "m") [])
          (codes "d")
        ≡ done (full, rel))
      × Deleted
          (os_path full)
          false
          sample
          (delete (service_of (codes "m") []) (codes "d") false sample))
    ⊎ ((e : FsError) × (resolve (eval_plain sample) (service_of (codes "m") []) (codes "d")
          ≡ fail e)
        × (delete (service_of (codes "m") []) (codes "d") false sample ≡ (fail e, sample)))
delete-Deleted_example = delete-Deleted (service_of (codes "m") []) (codes "d") false sample

-- A directory with an entry is not deleted.
delete_full :
    delete (service_of (codes "m") []) (codes "d") false sample ≡ (fail delete_not_empty, sample)
unfolding contains resolve path_unescape trim_slash bytes_eq path_join eval_plain stat os_path
    path_eq parent within strip drop_within find has_prefix join split delete read_dir
delete_full = refl

delete_recursive :
    stat
      ((delete (service_of (codes "m") []) (codes "d") true sample).1)
      (codes "m" ∷ (codes "d" ∷ []))
    ≡ none
unfolding contains resolve path_unescape trim_slash bytes_eq path_join eval_plain stat os_path
    path_eq parent within strip drop_within find has_prefix join split delete read_dir remove_all
    first_stuck
delete_recursive = refl

listed :
    list_trash_item_ids
      (service_of (codes "m") [])
      ((move_to_trash (service_of (codes "m") []) (codes "/d/b.mkv") item sample).1)
    ≡ done (item ∷ [])
unfolding contains resolve path_unescape trim_slash bytes_eq path_join eval_plain stat os_path
    path_eq parent within strip drop_within find has_prefix join split move_to_trash mkdir_all
    make_dirs rename relocate is_trash_rel_path delete_error list_trash_item_ids read_dir
    validate_trash_item_id
listed = refl

resolve-escape_path_segments_example :
    resolve
      (eval_plain sample)
      (service_of (codes "m") [])
      (escape_path_segments (join slash (codes "50% a" ∷ [])))
    ≡ done (full_of (codes "m") [] (codes "50% a" ∷ []), join slash (codes "50% a" ∷ []))
unfolding join
resolve-escape_path_segments_example =
    resolve-escape_path_segments (codes "m") [] root-IsProper sample (codes "50% a" ∷ [])
      (is_proper→IsProper (codes "50% a") (unfold bytes_eq in refl), tt) (omega arith)
      (unfold join contains has_prefix in refl)

-- A file a%41 that is moved to the trash comes back as aA.
abbrev escaped : Disk
escaped = record {
  read_only = false;
  stuck = λ p. none;
  entries = (codes "m" ∷ [], dir) ∷ ((codes "m" ∷ (codes "a%41" ∷ []), file (codes "film")) ∷ []);
}

abbrev renamed : Disk
renamed =
    (restore_from_trash (service_of (codes "m") []) (codes "a%41") (codes ".trash/7-a/a%41") item
      (move_to_trash (service_of (codes "m") []) (codes "/a%2541") item escaped).1).1

comes_back_renamed :
    (stat renamed (codes "m" ∷ (codes "a%41" ∷ [])) ≡ none)
    × (stat renamed (codes "m" ∷ (codes "aA" ∷ [])) ≡ some (file (codes "film")))
unfolding contains resolve path_unescape trim_slash bytes_eq path_join eval_plain stat os_path
    path_eq parent within strip drop_within find has_prefix join split move_to_trash mkdir_all
    make_dirs rename relocate is_trash_rel_path delete_error restore_from_trash remove_all
    first_stuck
comes_back_renamed = (refl, refl)
