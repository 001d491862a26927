-- ===== src/MediaFs/Trash/RoundTrip.antt =====
-- RestoreFromTrash undoes MoveToTrash (internal/mediafs/trash.go).
use sudostream.Text.Laws.Decide.{IsLiteral}
use sudostream.Text.Laws.Clean.{cleaned, cleaned-join, IsProper}
use sudostream.MediaFs.Os.Directories.{DirsBelow}
use mathlib.Core.List.{List}
use sudostream.Prelude.{ap, ◌∙◌, sym, subst, All, ◌≡◌, [], ◌∷◌}
use sudostream.Text.{join, Bytes}
use sudostream.MediaFs.{slash, join, false, done}
use sudostream.MediaFs.Os.Renames.{IsLoose}
use sudostream.MediaFs.Resolve.{service_of}
use sudostream.MediaFs.Os.{Disk, FilePath, parent, within, stat, with_entries}
use sudostream.MediaFs.Os.RoundTrip.{once}
use sudostream.MediaFs.Trash.{trash_dir_name, restore_from_trash, move_to_trash}
use sudostream.MediaFs.Trash.Done.{below, trashed}
use sudostream.MediaFs.Trash.Success.{move_to_trash-done}
use sudostream.MediaFs.Trash.Held.{Held-restored, moved-Held}

module _ (r : Bytes) (rs : List Bytes) (root_proper : All IsProper (r ∷ rs)) (id : Bytes)
    (id_proper : IsProper id) (id_literal : IsLiteral id) where
  -- For a root of proper names, and an id that is one and has no percent sign and no NUL: a tree
  -- whose path has no percent sign and no NUL, whose parent directories are on the disk, and that
  -- MoveToTrash has moved, comes back by RestoreFromTrash, where the system can remove all in the
  -- directory of the item: the call succeeds, and whatever lies outside the trash is then as it was
  -- before the move.
  pub move_to_trash-restore_from_trash :
      (raw : Bytes) (d : Disk) {moved : Disk} (segs : List Bytes) {trash_rel : Bytes}
      → move_to_trash (service_of r rs) raw id d ≡ (done (join slash segs, trash_rel), moved)
      → All IsProper segs
      → IsLiteral (join slash segs)
      → DirsBelow [] (parent (below r rs segs)) d.entries
      → IsLoose (below r rs (trashed id [])) d
      → (left : Disk) × (restore_from_trash (service_of r rs) (join slash segs) trash_rel id moved
          ≡ (done tt, left))
        × ((q : FilePath)
            → within (below r rs (trash_dir_name ∷ [])) q ≡ false
            → stat left q ≡ stat d q)
  move_to_trash-restore_from_trash raw d {moved} segs {trash_rel} h p lit above loose =
      let m = move_to_trash-done r rs root_proper id id_proper id_literal raw d h lit in
      let e : segs ≡ m.name ∷ m.names =
        sym (cleaned-join segs p)
        ∙ ap cleaned m.rel_eq
        ∙ cleaned-join (m.name ∷ m.names) m.proper in
      let above' = subst (λ z. DirsBelow [] (parent (below r rs z)) d.entries) e above in
      let (left, f, kept) =
        Held-restored r rs root_proper id id_proper id_literal d moved (join slash segs) trash_rel
          lit m above'
          (with_entries d (
            once (below r rs (m.name ∷ m.names)) (below r rs (trashed id (m.name ∷ m.names)))
              m.made))
          (moved-Held r rs root_proper id id_proper id_literal d moved (join slash segs) trash_rel
            lit m above')
          loose in
      (
        left,
        subst
            (λ z.
              restore_from_trash (service_of r rs) (join slash segs) trash_rel id z
              ≡ (done tt, left))
            (sym m.moved_eq) f,
        kept,
      )
