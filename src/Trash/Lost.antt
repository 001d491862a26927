-- ===== src/Trash/Lost.antt =====
-- Move of the recycle bin on a file info.json of the media root (internal/trash/service.go).
use sudostream.MediaFs.Os.RoundTrip.{once}
use sudostream.MediaFs.Os.Directories.{DirsBelow}
use sudostream.Text.Laws.Decide.{free_of→IsLiteral, is_proper→IsProper, IsLiteral}
use sudostream.Text.Laws.Clean.{cleaned, cleaned-join, IsProper}
use sudostream.Prelude.{
  subst, sym, ap, subst, ap, sym, some, refl, done, ◌≡◌, ℕ, All, List, [], ◌∷◌, ◌∙◌,
}
use sudostream.Text.{slash, join, bytes_eq, Bytes}
use sudostream.MediaFs.Resolve.{service_of}
use sudostream.MediaFs.Os.{with_entries, Disk, stat, parent, file, find}
use sudostream.MediaFs.Trash.{move_to_trash, write_trash_info, trash_info_name}
use sudostream.MediaFs.Trash.Done.{below, trashed}
use sudostream.MediaFs.Trash.Success.{move_to_trash-done}
use sudostream.MediaFs.Trash.InfoLost.{write_trash_info-lost}
use sudostream.Trash.{Codecs, World, move, record_item, item_of, info_of}
use sudostream.Trash.Store.{Item, Table, insert}

module _ (c : Codecs) (r : Bytes) (rs : List Bytes) (root_proper : All IsProper (r ∷ rs))
    (id : Bytes) (id_proper : IsProper id) (id_literal : IsLiteral id) where
  info-IsProper : All IsProper (trash_info_name ∷ [])
  unfolding bytes_eq
  info-IsProper = (is_proper→IsProper trash_info_name refl, tt)

  info-IsLiteral : IsLiteral (join slash (trash_info_name ∷ []))
  unfolding join
  info-IsLiteral = free_of→IsLiteral trash_info_name refl

  -- A file info.json in the media root is lost when Move succeeds: its place in the trash holds the
  -- description of the item, written over its content.
  pub move-info_json :
      (raw by : Bytes) (now : ℕ) (w : World) {trash_rel old : Bytes} {moved : Disk} {table : Table}
      → move_to_trash (service_of r rs) raw id w.disk
        ≡ (done (join slash (trash_info_name ∷ []), trash_rel), moved)
      → insert
          (item_of c (service_of r rs) id (join slash (trash_info_name ∷ [])) trash_rel now by)
          w.table
        ≡ done table
      → find (below r rs (trash_info_name ∷ [])) w.disk.entries ≡ some (file old)
      → DirsBelow [] (parent (below r rs (trash_info_name ∷ []))) w.disk.entries
      → (item : Item) × (recorded : World) × (move c (service_of r rs) id raw now by w
          ≡ (done item, recorded))
        × (stat recorded.disk (below r rs (trashed id (trash_info_name ∷ [])))
            ≡ some (file (c.encode_info (info_of c (service_of r rs) item))))
  unfolding move record_item item_of
  move-info_json raw by now w {trash_rel} {old} {moved} {table} h full content above =
      let rel = join slash (trash_info_name ∷ []) in
      let item = item_of c (service_of r rs) id rel trash_rel now by in
      let m =
        move_to_trash-done r rs root_proper id id_proper id_literal raw w.disk h info-IsLiteral in
      let e : (m.name ∷ m.names) ≡ (trash_info_name ∷ []) =
        sym (cleaned-join (m.name ∷ m.names) m.proper)
        ∙ ap cleaned (sym m.rel_eq)
        ∙ cleaned-join (trash_info_name ∷ []) info-IsProper in
      let lost =
        write_trash_info-lost r rs root_proper id id_proper id_literal w.disk moved rel trash_rel
          info-IsLiteral m
          (subst (λ z. DirsBelow [] (parent (below r rs z)) w.disk.entries) (sym e) above) e old
          (subst (λ z. find (below r rs z) w.disk.entries ≡ some (file old)) (sym e) content)
          c.encode_info (info_of c (service_of r rs) item) in
      (
        item,
        record {
          disk =
              (write_trash_info (service_of r rs) c.encode_info id
                (info_of c (service_of r rs) item) moved).1;
          table = table;
        },
        rw (h, full) refl,
        subst
            (λ z.
              stat
                ((write_trash_info (service_of r rs) c.encode_info id
                  (info_of c (service_of r rs) item) z).1)
                (below r rs (trashed id (trash_info_name ∷ [])))
              ≡ some (file (c.encode_info (info_of c (service_of r rs) item))))
            (sym m.moved_eq)
            (subst
              (λ z.
                stat
                  ((write_trash_info (service_of r rs) c.encode_info id
                    (info_of c (service_of r rs) item)
                    (with_entries w.disk (
                      once (below r rs (m.name ∷ m.names))
                        (below r rs (trashed id (m.name ∷ m.names))) m.made))).1)
                  (below r rs (trashed id z))
                ≡ some (file (c.encode_info (info_of c (service_of r rs) item))))
              e lost),
      )
