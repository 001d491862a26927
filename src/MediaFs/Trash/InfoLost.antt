-- ===== src/MediaFs/Trash/InfoLost.antt =====
-- WriteTrashInfo writes over a file info.json from the media root (internal/mediafs/trash.go).
use sudostream.MediaFs.Trash.Kept.{target-apart, source-apart}
use sudostream.MediaFs.Trash.Info.{within-longer, item_dir-eq}
use sudostream.MediaFs.Os.Directories.{
  make_dirs-DirsBelow, DirsBelow-map, DirsBelow→find, DirsBelow,
}
use sudostream.Text.Laws.Decide.{IsLiteral}
use sudostream.Text.Laws.Clean.{IsProper}
use sudostream.MediaFs.Os.Paths.{within-apart, within_trans, parent-append, path_eq_iff}
use mathlib.Core.List.{List, append_assoc, append-nil}
use sudostream.Prelude.{subst, sym, ◌++◌, ap, arith, refl, All, ◌≡◌, [], ◌∷◌, ◌∙◌}
use sudostream.Text.{Bytes}
use sudostream.MediaFs.Resolve.{service_of}
use sudostream.MediaFs.Os.{
  Disk, FilePath, find, within, dir, file, stat, with_entries, write_file, parent,
}
use sudostream.MediaFs.Os.RoundTrip.{find_elsewhere, once}
use sudostream.MediaFs.Trash.{
  true, done, false, some, trash_dir_name, trash_info_name, write_trash_info, TrashInfo,
}
use sudostream.MediaFs.Trash.Done.{below, trashed, MoveDone}
use sudostream.MediaFs.Trash.Held.{mkdir_all_of_DirsBelow, moved-Held}

write_file_over :
    (p : FilePath) (content old : Bytes) (d : Disk)
    → stat d p ≡ some (file old)
    → stat d (parent p) ≡ some dir
    → d.read_only ≡ false
    → write_file p content d ≡ done (with_entries d ((p, file content) ∷ d.entries))
unfolding write_file
write_file_over p content old d h g w = ground arith

stat-written :
    (x : Bytes) (p : FilePath) (content : Bytes) (d : Disk)
    → stat (with_entries d ((x ∷ p, file content) ∷ d.entries)) (x ∷ p) ≡ some (file content)
unfolding stat find
stat-written x p content d = rw ((path_eq_iff (x ∷ p) (x ∷ p)).1 refl) refl

module _ (r : Bytes) (rs : List Bytes) (root_proper : All IsProper (r ∷ rs)) (id : Bytes)
    (id_proper : IsProper id) (id_literal : IsLiteral id) (d moved : Disk) (rel trash_rel : Bytes)
    (lit : IsLiteral rel) (m : MoveDone r rs id d moved rel trash_rel)
    (above : DirsBelow [] (parent (below r rs (m.name ∷ m.names))) d.entries)
    (named : (m.name ∷ m.names) ≡ (trash_info_name ∷ [])) (old : Bytes)
    (content : find (below r rs (m.name ∷ m.names)) d.entries ≡ some (file old)) where
  abbrev item : FilePath
  item = below r rs (trashed id [])

  abbrev after : Disk
  after =
      with_entries d
        (once (below r rs (m.name ∷ m.names)) (below r rs (trashed id (m.name ∷ m.names))) m.made)

  info_path : below r rs (trashed id (m.name ∷ m.names)) ≡ item ++ (trash_info_name ∷ [])
  info_path =
      ap (λ z. below r rs (trashed id z)) named
      ∙ sym (append_assoc (r ∷ rs) (trash_dir_name ∷ (id ∷ [])) (trash_info_name ∷ []))

  parent_of_info : parent (below r rs (trashed id (m.name ∷ m.names))) ≡ item
  unfolding parent
  parent_of_info =
      ap (λ z. parent (below r rs (trashed id z))) named
      ∙ parent-append (r ∷ rs) trash_dir_name (id ∷ (trash_info_name ∷ []))

  -- The directory of the item is there after the move.
  item_made : DirsBelow [] item after.entries
  item_made =
      DirsBelow-map [] item m.made after.entries (λ y q w was. kept y q w ∙ was)
        (subst (λ z. DirsBelow [] z m.made) parent_of_info
          (make_dirs-DirsBelow d.read_only [] _ d.entries m.made_eq))
    where
      kept :
          (y : Bytes) (q : FilePath)
          → within (y ∷ q) item ≡ true
          → find (y ∷ q) after.entries ≡ find (y ∷ q) m.made
      kept y q w =
          let source = below r rs (m.name ∷ m.names) in
          let target = below r rs (trashed id (m.name ∷ m.names)) in
          find_elsewhere source target (source-apart r rs id m.name m.names m.not_trash)
            (target-apart r rs id m.name m.names m.not_trash) m.made (y ∷ q)
            (ground (
              arith,
              within_trans source (y ∷ q) item,
              within-apart (r ∷ rs) m.name trash_dir_name m.names (id ∷ []) m.not_trash,
            ))
            (ground (
              arith,
              within_trans target (y ∷ q) item,
              subst (λ z. within z item ≡ false) (sym info_path)
                  (within-longer item trash_info_name []),
            ))

  file_there : find (item ++ (trash_info_name ∷ [])) after.entries ≡ some (file old)
  file_there =
      subst (λ z. find z after.entries ≡ some (file old)) (append-nil _ ∙ info_path)
        ((moved-Held r rs root_proper id id_proper id_literal d moved rel trash_rel lit m
              above).at_target
            []
          ∙ ap (λ z. find z d.entries) (append-nil (below r rs (m.name ∷ m.names)))
          ∙ content)

  item_there : stat after item ≡ some dir
  unfolding stat
  item_there =
      DirsBelow→find [] item r (rs ++ trashed id []) [] after.entries item_made
        (sym (append-nil item))

  -- What was moved is written over.
  pub write_trash_info-lost :
      (encode : TrashInfo → Bytes) (info : TrashInfo)
      → stat
          ((write_trash_info (service_of r rs) encode id info after).1)
          (below r rs (trashed id (m.name ∷ m.names)))
        ≡ some (file (encode info))
  unfolding write_trash_info parent
  write_trash_info-lost encode info =
      rw
        (
          item_dir-eq r rs root_proper id id_proper id_literal d moved rel trash_rel lit m above
              after,
          mkdir_all_of_DirsBelow item after item_made,
          write_file_over (item ++ (trash_info_name ∷ [])) (encode info) old after
              (unfold stat in file_there)
              (subst (λ z. stat after z ≡ some dir)
                (sym (parent-append item trash_info_name [] ∙ append-nil item)) item_there)
              m.writable,
        )
        (subst
          (λ z.
            stat
              (with_entries after
                ((item ++ (trash_info_name ∷ []), file (encode info)) ∷ after.entries))
              z
            ≡ some (file (encode info)))
          (sym info_path)
          (stat-written r ((rs ++ trashed id []) ++ (trash_info_name ∷ [])) (encode info) after))
