-- ===== src/Trash/Undo.antt =====
-- Move of the recycle bin undone, by the service itself or by Restore (internal/trash/service.go).
use sudostream.MediaFs.Trash.Info.{write_trash_info-Held}
use sudostream.MediaFs.Os.Directories.{DirsBelow}
use sudostream.Text.Laws.Decide.{IsLiteral}
use sudostream.Text.Laws.Clean.{cleaned, cleaned-join, IsProper}
use sudostream.Prelude.{
  subst, ap, ◌∙◌, ◌∙◌, refl, sym, false, fail, ◌≢◌, done, ℕ, ◌≡◌, All, List, [], ◌∷◌,
}
use sudostream.Text.{slash, join, Bytes}
use sudostream.MediaFs.Os.Renames.{IsLoose}
use sudostream.MediaFs.Resolve.{service_of}
use sudostream.MediaFs.Os.{Disk, FilePath, stat, parent, within}
use sudostream.MediaFs.Trash.{move_to_trash, restore_from_trash, write_trash_info, trash_info_name}
use sudostream.MediaFs.Trash.Done.{below, trashed}
use sudostream.MediaFs.Trash.Held.{Held, Held-restored, moved-Held}
use sudostream.MediaFs.Trash.Kept.{bin}
use sudostream.MediaFs.Trash.Success.{move_to_trash-done}
use sudostream.Trash.{Codecs, World, move, restore, record_item, item_of, info_of, on_disk}
use sudostream.Trash.Store.{Item, Table, TrashError, insert}
use sudostream.Trash.Rows.{get-insert}

module _ (c : Codecs) (r : Bytes) (rs : List Bytes) (root_proper : All IsProper (r ∷ rs))
    (id : Bytes) (id_proper : IsProper id) (id_literal : IsLiteral id) where
  -- The disk once info.json was written, or not, after a move.
  abbrev with_info : Item → Disk → Disk
  with_info item moved =
      (write_trash_info (service_of r rs) c.encode_info item.id (info_of c (service_of r rs) item)
        moved).1

  -- RestoreFromTrash after the move and WriteTrashInfo.
  taken_back :
      (raw : Bytes) (d moved : Disk) (segs : List Bytes) (trash_rel : Bytes) (item : Item)
      → item.id ≡ id
      → move_to_trash (service_of r rs) raw id d ≡ (done (join slash segs, trash_rel), moved)
      → All IsProper segs
      → IsLiteral (join slash segs)
      → segs ≢ (trash_info_name ∷ [])
      → DirsBelow [] (parent (below r rs segs)) d.entries
      → IsLoose (below r rs (trashed id [])) d
      → (left : Disk) × (restore_from_trash
            (service_of r rs)
            (join slash segs)
            trash_rel
            id
            (with_info item moved)
          ≡ (done tt, left))
        × ((q : FilePath) → within (bin r rs) q ≡ false → stat left q ≡ stat d q)
  taken_back raw d moved segs trash_rel item same h p lit other above loose =
      let m = move_to_trash-done r rs root_proper id id_proper id_literal raw d h lit in
      let e : segs ≡ m.name ∷ m.names =
        sym (cleaned-join segs p)
        ∙ ap cleaned m.rel_eq
        ∙ cleaned-join (m.name ∷ m.names) m.proper in
      let above' = subst (λ z. DirsBelow [] (parent (below r rs z)) d.entries) e above in
      Held-restored r rs root_proper id id_proper id_literal d moved (join slash segs) trash_rel lit
        m above' (with_info item moved)
        (subst
          (λ z.
            Held r rs root_proper id id_proper id_literal d moved (join slash segs) trash_rel lit m
              above'
              ((write_trash_info (service_of r rs) c.encode_info z
                (info_of c (service_of r rs) item) moved).1))
          (sym same)
          (write_trash_info-Held r rs root_proper id id_proper id_literal d moved (join slash segs)
            trash_rel lit m above' c.encode_info (info_of c (service_of r rs) item) moved
            (subst
              (λ z.
                Held r rs root_proper id id_proper id_literal d moved (join slash segs) trash_rel
                  lit m above' z)
              (sym m.moved_eq)
              (moved-Held r rs root_proper id id_proper id_literal d moved (join slash segs)
                trash_rel lit m above'))
            (λ f. other (e ∙ f))))
        loose

  -- For a root of proper names, and an id that is one and has no percent sign and no NUL: a Move
  -- whose row cannot be inserted fails, takes the tree back, and leaves the table and all that lies
  -- outside the trash as they were. The path of the tree has no percent sign and no NUL, its parent
  -- directories are on the disk, it is no file info.json in the media root, and the system can
  -- remove all in the directory of the item.
  pub move-unrecorded :
      (raw by : Bytes) (now : ℕ) (w : World) (segs : List Bytes) {trash_rel : Bytes} {moved : Disk}
      {e : TrashError}
      → move_to_trash (service_of r rs) raw id w.disk ≡ (done (join slash segs, trash_rel), moved)
      → insert (item_of c (service_of r rs) id (join slash segs) trash_rel now by) w.table ≡ fail e
      → All IsProper segs
      → IsLiteral (join slash segs)
      → segs ≢ (trash_info_name ∷ [])
      → DirsBelow [] (parent (below r rs segs)) w.disk.entries
      → IsLoose (below r rs (trashed id [])) w.disk
      → (left : Disk) × (move c (service_of r rs) id raw now by w ≡ (fail e, on_disk w left))
        × ((q : FilePath) → within (bin r rs) q ≡ false → stat left q ≡ stat w.disk q)
  unfolding move record_item item_of
  move-unrecorded raw by now w segs {trash_rel} {moved} h full p lit other above loose =
      let item = item_of c (service_of r rs) id (join slash segs) trash_rel now by in
      let (left, f, kept) =
        taken_back raw w.disk moved segs trash_rel item refl h p lit other above loose in
      (left, rw (h, full, f) refl, kept)

  -- For a root of proper names, and an id that is one and has no percent sign and no NUL: an item
  -- that Move has recorded comes back by Restore, which succeeds: all that lies outside the trash
  -- and the table are then as they were before the Move. The path of the tree has no percent sign
  -- and no NUL, its parent directories are on the disk, it is no file info.json in the media root,
  -- which Move loses, and the system can remove all in the directory of the item.
  pub move-restore :
      (raw by : Bytes) (now : ℕ) (w : World) (segs : List Bytes) {trash_rel : Bytes} {moved : Disk}
      {table : Table}
      → move_to_trash (service_of r rs) raw id w.disk ≡ (done (join slash segs, trash_rel), moved)
      → insert (item_of c (service_of r rs) id (join slash segs) trash_rel now by) w.table
        ≡ done table
      → All IsProper segs
      → IsLiteral (join slash segs)
      → segs ≢ (trash_info_name ∷ [])
      → DirsBelow [] (parent (below r rs segs)) w.disk.entries
      → IsLoose (below r rs (trashed id [])) w.disk
      → (item : Item) × (recorded : World) × (left : Disk) × (move c
            (service_of r rs)
            id
            raw
            now
            by
            w
          ≡ (done item, recorded))
        × (restore c (service_of r rs) id recorded ≡ (done item, on_disk w left))
        × ((q : FilePath) → within (bin r rs) q ≡ false → stat left q ≡ stat w.disk q)
  unfolding move record_item item_of restore
  move-restore raw by now w segs {trash_rel} {moved} {table} h full p lit other above loose =
      let item = item_of c (service_of r rs) id (join slash segs) trash_rel now by in
      let (left, f, kept) =
        taken_back raw w.disk moved segs trash_rel item refl h p lit other above loose in
      let (got, gone) = get-insert item w.table full in
      (
        item,
        record { disk = with_info item moved; table = table },
        left,
        rw (h, full) refl,
        rw (got, f, gone) refl,
        kept,
      )
