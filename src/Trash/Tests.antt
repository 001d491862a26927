-- ===== src/Trash/Tests.antt =====
-- Runs of the recycle bin, and its theorems at given inputs.
use sudostream.Prelude.{◌≢◌, fail, done, some, ◌≡◌, false, true, refl, [], ◌∷◌, none, pos}
use sudostream.Text.{
  slash, Bytes, codes, contains, path_unescape, trim_slash, bytes_eq, has_prefix, join, split,
}
use sudostream.Text.Paths.{path_join}
use sudostream.MediaFs.{resolve, eval_plain}
use sudostream.MediaFs.Resolve.{service_of}
use sudostream.MediaFs.Samples.{
  sample, names, item, names-IsProper, root-IsProper, item-IsProper, item-IsLiteral,
  names-IsLiteral, above,
}
use sudostream.MediaFs.Os.{
  Disk, FilePath, dir, file, stat, os_path, path_eq, parent, within, strip, drop_within, find,
  mkdir_all, make_dirs, rename, relocate,
}
use sudostream.MediaFs.Os.Directories.{DirsBelow}
use sudostream.MediaFs.Trash.{
  move_to_trash, is_trash_rel_path, delete_error, trash_info_name, trash_dir_name,
}
use sudostream.MediaFs.Trash.Done.{below, trashed}
use sudostream.Trash.{Codecs, World, move, restore, item_of, info_of, on_disk, reconcile_disk}
use sudostream.Trash.Store.{Item, insert, query_failed}
use sudostream.Trash.Purge.{Settings, get_settings, purge_expired}
use sudostream.Trash.Purge.Expired.{Purged, purge_expired-Purged}
use sudostream.Trash.Undo.{move-restore, move-unrecorded}
use sudostream.Trash.Lost.{move-info_json}

abbrev texts : Codecs
texts = record {
  encode_info = λ info. info.id;
  decode_info = λ text. none;
  format_time = λ time. time ∷ [];
  parse_time = λ text. none;
  library_for_rel_path = λ path. codes "lib";
}

abbrev before : World
before = record { disk = sample; table = record { online = true; rows = [] } }

abbrev offline : World
offline = record { disk = sample; table = record { online = false; rows = [] } }

abbrev trash_rel : Bytes
trash_rel = codes ".trash/7-a/d/b.mkv"

abbrev after : Disk
after = (move_to_trash (service_of (codes "m") []) (codes "/d/b.mkv") item sample).1

moved :
    move_to_trash (service_of (codes "m") []) (codes "/d/b.mkv") item sample
    ≡ (done (join slash names, trash_rel), after)
unfolding move_to_trash contains resolve path_unescape trim_slash bytes_eq path_join eval_plain stat
    os_path path_eq parent within strip drop_within find has_prefix join split mkdir_all make_dirs
    rename relocate is_trash_rel_path delete_error
moved = refl

abbrev recorded : Item
recorded =
    item_of texts (service_of (codes "m") []) item (join slash names) trash_rel 5 (codes "eve")

inserted : insert recorded before.table ≡ done (record { online = true; rows = recorded ∷ [] })
unfolding insert
inserted = refl

refused : insert recorded offline.table ≡ fail query_failed
unfolding insert
refused = refl

two_names : names ≢ (trash_info_name ∷ [])
two_names e = cc

move-restore_example :
    (x : Item) × (w : World) × (left : Disk) × (move texts
        (service_of (codes "m") [])
        item
        (codes "/d/b.mkv")
        5
        (codes "eve")
        before
      ≡ (done x, w))
    × (restore texts (service_of (codes "m") []) item w ≡ (done x, on_disk before left))
    × ((q : FilePath)
        → within (below (codes "m") [] (trash_dir_name ∷ [])) q ≡ false
        → stat left q ≡ stat sample q)
move-restore_example =
    move-restore texts (codes "m") [] root-IsProper item item-IsProper item-IsLiteral
      (codes "/d/b.mkv") (codes "eve") 5 before names moved inserted names-IsProper names-IsLiteral
      two_names above (λ q w. refl)

move-unrecorded_example :
    (left : Disk) × (move texts
        (service_of (codes "m") [])
        item
        (codes "/d/b.mkv")
        5
        (codes "eve")
        offline
      ≡ (fail query_failed, on_disk offline left))
    × ((q : FilePath)
        → within (below (codes "m") [] (trash_dir_name ∷ [])) q ≡ false
        → stat left q ≡ stat sample q)
move-unrecorded_example =
    move-unrecorded texts (codes "m") [] root-IsProper item item-IsProper item-IsLiteral
      (codes "/d/b.mkv") (codes "eve") 5 offline names moved refused names-IsProper names-IsLiteral
      two_names above (λ q w. refl)

abbrev with_json : World
with_json = record {
  disk = record {
    read_only = false;
    stuck = λ p. none;
    entries =
        (codes "m" ∷ [], dir) ∷ ((codes "m" ∷ (trash_info_name ∷ []), file (codes "mine")) ∷ []);
  };
  table = record { online = true; rows = [] };
}

abbrev json_rel : Bytes
json_rel = codes ".trash/7-a/info.json"

json_moved : move_to_trash (service_of (codes "m") []) trash_info_name item with_json.disk ≡ (
  done (join slash (trash_info_name ∷ []), json_rel),
  (move_to_trash (service_of (codes "m") []) trash_info_name item with_json.disk).1,
)
unfolding move_to_trash contains resolve path_unescape trim_slash bytes_eq path_join eval_plain stat
    os_path path_eq parent within strip drop_within find has_prefix join split mkdir_all make_dirs
    rename relocate is_trash_rel_path delete_error
json_moved = refl

abbrev json_item : Item
json_item =
    item_of texts (service_of (codes "m") []) item (join slash (trash_info_name ∷ [])) json_rel 5
      (codes "eve")

json_above :
    DirsBelow [] (parent (below (codes "m") [] (trash_info_name ∷ []))) with_json.disk.entries
unfolding find path_eq bytes_eq parent
json_above = (refl, tt)

abbrev stored : Settings
stored = record { enabled = true; retention_days = pos 1 }

json_inserted :
    insert json_item with_json.table ≡ done (record { online = true; rows = json_item ∷ [] })
unfolding insert
json_inserted = refl

json_there :
    find (below (codes "m") [] (trash_info_name ∷ [])) with_json.disk.entries
    ≡ some (file (codes "mine"))
unfolding find path_eq bytes_eq
json_there = refl

settings_read : get_settings (λ raw. some stored) (some []) ≡ done stored
unfolding get_settings
settings_read = refl

move-info_json_example :
    (x : Item) × (w : World) × (move texts
        (service_of (codes "m") [])
        item
        trash_info_name
        5
        (codes "eve")
        with_json
      ≡ (done x, w))
    × (stat w.disk (below (codes "m") [] (trashed item (trash_info_name ∷ [])))
        ≡ some (file (texts.encode_info (info_of texts (service_of (codes "m") []) x))))
move-info_json_example =
    move-info_json texts (codes "m") [] root-IsProper item item-IsProper item-IsLiteral
      trash_info_name (codes "eve") 5 with_json json_moved json_inserted json_there json_above

purge_expired-Purged_example :
    Purged texts
      (service_of (codes "m") [])
      100
      1
      ((reconcile_disk texts (service_of (codes "m") []) 100 before).table)
      (purge_expired texts (service_of (codes "m") []) (λ raw. some stored) (some []) 100 before)
purge_expired-Purged_example =
    purge_expired-Purged texts (service_of (codes "m") []) (λ raw. some stored) (some []) 100 before
      settings_read refl
