-- ===== src/Trash.antt =====
-- internal/trash: the recycle bin over the disk of internal/mediafs and the table trash_items of
-- internal/trash/postgres. Times are nanoseconds, and days have no daylight saving in UTC. What the
-- program does not implement is a parameter: the texts of times and of JSON values, the library
-- that owns a path, and the identifier that uuid.NewRandom draws. The cleaner of metadata and
-- caches touches neither the disk nor the table, and its error is only logged.
pub mod Store
pub mod Undo
pub mod Rows
pub mod Lost
pub mod Purge
mod Tests
use sudostream.MediaFs.{FsError, Service}
use sudostream.MediaFs.Os.{Disk}
use sudostream.MediaFs.Trash.{
  TrashInfo, move_to_trash, restore_from_trash, remove_trash_item, write_trash_info,
  read_trash_info, list_trash_item_ids,
}
use sudostream.Prelude.{List, if◌then◌else◌, some, fail, done, ℕ, Fallible, Option, [], ◌∷◌, none}
use sudostream.Text.{is_empty, Bytes}
use sudostream.Trash.Store.{Item, Table, TrashError, media, get, insert, delete_row, list_rows}

pub record Codecs : Type 0 where
  pub encode_info : TrashInfo → Bytes
  pub decode_info : Bytes → Option TrashInfo
  pub format_time : ℕ → Bytes
  pub parse_time : Bytes → Option ℕ
  pub library_for_rel_path : Bytes → Bytes

-- The disk and the table that the calls change.
pub record World : Type 0 where
  pub disk : Disk
  pub table : Table

abbrev pub OnWorld : Type 0 → Type 0
OnWorld T = Fallible TrashError T × World

abbrev pub on_disk : World → Disk → World
on_disk w d = record w { disk = d }

abbrev pub on_table : World → Table → World
on_table w t = record w { table = t }

abbrev pub then_world :
    {S : Type 0} {T : Type 0} → Fallible TrashError S → World → (S → OnWorld T) → OnWorld T
then_world (fail e) w next = (fail e, w)
then_world (done v) w next = next v

abbrev pub then_media :
    {S : Type 0} {T : Type 0}
    → Fallible FsError S × Disk
    → World
    → (S → World → OnWorld T)
    → OnWorld T
then_media (fail e, d) w next = (fail (media e), on_disk w d)
then_media (done v, d) w next = next v (on_disk w d)

abbrev pub then_table :
    {T : Type 0} → Fallible TrashError Table → World → (World → OnWorld T) → OnWorld T
then_table (fail e) w next = (fail e, w)
then_table (done t) w next = next (on_table w t)

module _ (c : Codecs) (s : Service) where
  -- itemFromInfo; `none` is the zero time.
  abbrev pub or_now : ℕ → Option ℕ → ℕ
  or_now now none = now
  or_now now (some t) = t

  abbrev pub parsed : Bytes → Option ℕ
  parsed text = if is_empty text then none else c.parse_time text

  unfoldable pub item_from_info : ℕ → TrashInfo → Item
  item_from_info now info = record {
    id = info.id;
    original_rel_path = info.original_rel_path;
    trash_rel_path = info.trash_rel_path;
    library_id = info.library_id;
    deleted_at = or_now now (parsed info.deleted_at);
    deleted_by = info.deleted_by;
  }

  -- The item that Move records, with the library that attachLibrary finds.
  unfoldable pub item_of : Bytes → Bytes → Bytes → ℕ → Bytes → Item
  item_of id original_rel trash_rel now deleted_by = record {
    id = id;
    original_rel_path = original_rel;
    trash_rel_path = trash_rel;
    library_id = c.library_for_rel_path original_rel;
    deleted_at = now;
    deleted_by = deleted_by;
  }

  unfoldable pub info_of : Item → TrashInfo
  info_of item = record {
    id = item.id;
    original_rel_path = item.original_rel_path;
    trash_rel_path = item.trash_rel_path;
    library_id = item.library_id;
    deleted_at = c.format_time item.deleted_at;
    deleted_by = item.deleted_by;
  }

  -- The end of Move: a row that cannot be inserted takes the file back.
  abbrev pub inserted : Item → World → Fallible TrashError Table → OnWorld Item
  inserted item w (done t) = (done item, on_table w t)
  inserted item w (fail e) =
      let undone = restore_from_trash s item.original_rel_path item.trash_rel_path item.id w.disk in
      (fail e, on_disk w undone.1)

  -- Move from the moved file on; the error of WriteTrashInfo is only logged.
  unfoldable pub record_item : Item → World → OnWorld Item
  unfolding info_of
  record_item item w =
      let written = write_trash_info s c.encode_info item.id (info_of item) w.disk in
      inserted item (on_disk w written.1) (insert item w.table)

  -- Move, with the identifier that was drawn.
  unfoldable pub move : Bytes → Bytes → ℕ → Bytes → World → OnWorld Item
  unfolding record_item item_of
  move id raw_path now deleted_by w =
      then_media (move_to_trash s raw_path id w.disk) w λ (original_rel, trash_rel) moved.
        record_item (item_of id original_rel trash_rel now deleted_by) moved

  -- Restore
  unfoldable pub restore : Bytes → World → OnWorld Item
  restore item_id w = then_world (get item_id w.table) w λ item.
      then_media (restore_from_trash s item.original_rel_path item.trash_rel_path item.id w.disk) w
        λ u restored. then_table (delete_row item.id w.table) restored λ left. (done item, left)

  -- DeleteForever
  unfoldable pub delete_forever : Bytes → World → OnWorld (Unit {0})
  delete_forever item_id w = then_world (get item_id w.table) w λ item.
      then_media (remove_trash_item s item.id w.disk) w
        λ u removed. then_table (delete_row item.id w.table) removed λ left. (done tt, left)

  -- reconcileDisk: one directory of the trash.
  abbrev pub recovered : ℕ → Table → Fallible FsError TrashInfo → Table
  recovered now t (fail e) = t
  recovered now t (done info) = kept_or t (insert (item_from_info now info) t)
    where
      kept_or : Table → Fallible TrashError Table → Table
      kept_or t (fail e) = t
      kept_or t (done t') = t'

  unfoldable pub reconcile_item : ℕ → Disk → Bytes → Table → Table
  unfolding item_from_info
  reconcile_item now d item_id t = elim (get item_id t) [
    | done item ↦ t
    | fail e ↦ recovered now t (read_trash_info s c.decode_info item_id d)
  ]

  unfoldable pub reconcile_items : ℕ → Disk → List Bytes → Table → Table
  unfolding reconcile_item
  reconcile_items now d [] t = t
  reconcile_items now d (item_id ∷ ids) t =
      reconcile_items now d ids (reconcile_item now d item_id t)

  abbrev pub reconcile_listed : ℕ → World → Fallible FsError (List Bytes) → Table
  reconcile_listed now w (fail e) = w.table
  reconcile_listed now w (done ids) = reconcile_items now w.disk ids w.table

  -- reconcileDisk
  unfoldable pub reconcile_disk : ℕ → World → World
  unfolding reconcile_items
  reconcile_disk now w = on_table w (reconcile_listed now w (list_trash_item_ids s w.disk))

  -- List
  unfoldable pub list : ℕ → World → OnWorld (List Item)
  unfolding reconcile_disk
  list now w =
      let w' = reconcile_disk now w in then_world (list_rows w'.table) w' λ items. (done items, w')
