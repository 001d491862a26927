-- ===== src/MediaFs/Trash/Info.antt =====
-- WriteTrashInfo beside a tree in the trash (internal/mediafs/trash.go).
use sudostream.MediaFs.Os.Renames.{write_file-cases}
use sudostream.MediaFs.Resolve.{service_of}
use sudostream.MediaFs.Os.Paths.{
  path_eq_apart', within_false→strip, strip-append, path_eq_apart, within-append, within-apart,
  within_trans,
}
use sudostream.MediaFs.Trash.Kept.{find_made, bin}
use sudostream.MediaFs.Os.Directories.{make_dirs-find_apart, DirsBelow}
use sudostream.Text.Laws.Decide.{IsLiteral}
use sudostream.Text.Laws.Equality.{bytes_eq_refl}
use sudostream.Text.Laws.Clean.{bytes_eq_of_ne, IsProper}
use mathlib.Core.List.{List, append_assoc}
use sudostream.Prelude.{
  inl, inr, Fallible-cases, ◌∙◌, subst, sym, arith, ap, refl, ◌++◌, All, ◌≡◌, ◌≢◌, [], ◌∷◌,
}
use sudostream.Text.{Bytes}
use sudostream.MediaFs.Os.{
  write_file, mkdir_all, parent, strip, Disk, FilePath, Node, find, make_dirs, within, file,
  with_entries, path_eq,
}
use sudostream.MediaFs.Trash.{
  os, then_on, TrashInfo, write_trash_info, item_dir, done, false, trash_dir_name, trash_info_name,
}
use sudostream.MediaFs.Trash.Done.{below, trashed, MoveDone}
use sudostream.MediaFs.Trash.Held.{os_item, resolves_item, Held, still_above}

pub within-longer : (p : FilePath) (a : Bytes) (q : FilePath) → within (p ++ (a ∷ q)) p ≡ false
unfolding within strip
within-longer [] a q = refl
within-longer (x ∷ p) a q = rw (bytes_eq_refl x) (within-longer p a q)

-- A place other than one name below `p` does not hold that name.
within-other :
    (p : FilePath) (x : Bytes) (xs : FilePath) (a : Bytes)
    → (x ∷ xs) ≢ (a ∷ [])
    → within (p ++ (x ∷ xs)) (p ++ (a ∷ [])) ≡ false
unfolding within strip
within-other [] x [] a n = rw (bytes_eq_of_ne x a (λ e. n (ap (λ z. z ∷ []) e))) refl
within-other [] x (y ∷ xs) a n = ground arith
within-other (b ∷ p) x xs a n = rw (bytes_eq_refl b) (within-other p x xs a n)

find_written :
    (q p : FilePath) (n : Node) (es : List (FilePath × Node))
    → path_eq p q ≡ false
    → find q ((p, n) ∷ es) ≡ find q es
unfolding find
find_written q p n es h = rw h refl

module _ (r : Bytes) (rs : List Bytes) (root_proper : All IsProper (r ∷ rs)) (id : Bytes)
    (id_proper : IsProper id) (id_literal : IsLiteral id) (d moved : Disk) (rel trash_rel : Bytes)
    (lit : IsLiteral rel) (m : MoveDone r rs id d moved rel trash_rel)
    (above : DirsBelow [] (parent (below r rs (m.name ∷ m.names))) d.entries) where
  abbrev source : FilePath
  source = below r rs (m.name ∷ m.names)

  abbrev target : FilePath
  target = below r rs (trashed id (m.name ∷ m.names))

  abbrev item : FilePath
  item = below r rs (trashed id [])

  abbrev IsHeld : Disk → Type 0
  IsHeld e = Held r rs root_proper id id_proper id_literal d moved rel trash_rel lit m above e

  target_below_item : target ≡ item ++ (m.name ∷ m.names)
  target_below_item = sym (append_assoc (r ∷ rs) (trash_dir_name ∷ (id ∷ [])) (m.name ∷ m.names))

  made-Held :
      (e : Disk) (es : List (FilePath × Node))
      → IsHeld e
      → make_dirs e.read_only [] item e.entries ≡ done es
      → IsHeld (with_entries e es)
  made-Held e es h g = record {
    writable = h.writable;
    as_stuck = h.as_stuck;
    at_target = λ t.
        make_dirs-find_apart e.read_only [] item e.entries (target ++ t) g (long t) ∙ h.at_target t;
    at_source = λ t.
        make_dirs-find_apart e.read_only [] item e.entries (source ++ t) g (away t) ∙ h.at_source t;
    elsewhere = λ y q s b.
        find_made r rs m.name m.names (id ∷ []) e.read_only e.entries es
          (still_above r rs root_proper id id_proper id_literal d moved rel trash_rel lit m above e
            h)
          g y q b
        ∙ h.elsewhere y q s b;
  }
    where
      long : (t : FilePath) → within (target ++ t) item ≡ false
      long t =
          subst (λ z. within z item ≡ false)
            (sym (ap (λ z. z ++ t) target_below_item ∙ append_assoc item (m.name ∷ m.names) t))
            (within-longer item m.name (m.names ++ t))

      away : (t : FilePath) → within (source ++ t) item ≡ false
      away t = ground (
        arith,
        within_trans source (source ++ t) item,
        within-append source t,
        within-apart (r ∷ rs) m.name trash_dir_name m.names (id ∷ []) m.not_trash,
      )

  written-Held :
      (e : Disk) (content : Bytes)
      → IsHeld e
      → (m.name ∷ m.names) ≢ (trash_info_name ∷ [])
      → IsHeld (with_entries e ((item ++ (trash_info_name ∷ []), file content) ∷ e.entries))
  written-Held e content h other = record {
    writable = h.writable;
    as_stuck = h.as_stuck;
    at_target = λ t.
        find_written (target ++ t) info (file content) e.entries (
          path_eq_apart' target info (target ++ t) t (within_false→strip target info beside)
            (strip-append target t))
        ∙ h.at_target t;
    at_source = λ t.
        find_written (source ++ t) info (file content) e.entries (
          path_eq_apart' source info (source ++ t) t (within_false→strip source info away)
            (strip-append source t))
        ∙ h.at_source t;
    elsewhere = λ y q s b.
        find_written (y ∷ q) info (file content) e.entries (not_there y q b) ∙ h.elsewhere y q s b;
  }
    where
      info : FilePath
      info = item ++ (trash_info_name ∷ [])

      beside : within target info ≡ false
      beside =
          subst (λ z. within z info ≡ false) (sym target_below_item)
            (within-other item m.name m.names trash_info_name other)

      info_in_bin : info ≡ bin r rs ++ (id ∷ (trash_info_name ∷ []))
      info_in_bin =
          append_assoc (r ∷ rs) (trash_dir_name ∷ (id ∷ [])) (trash_info_name ∷ [])
          ∙ sym (append_assoc (r ∷ rs) (trash_dir_name ∷ []) (id ∷ (trash_info_name ∷ [])))

      away : within source info ≡ false
      away =
          subst (λ z. within source z ≡ false)
            (sym (append_assoc (r ∷ rs) (trash_dir_name ∷ (id ∷ [])) (trash_info_name ∷ [])))
            (within-apart (r ∷ rs) m.name trash_dir_name m.names (id ∷ (trash_info_name ∷ []))
              m.not_trash)

      not_there :
          (y : Bytes) (q : FilePath)
          → within (bin r rs) (y ∷ q) ≡ false
          → path_eq info (y ∷ q) ≡ false
      not_there y q b =
          path_eq_apart (bin r rs) info (y ∷ q) (id ∷ (trash_info_name ∷ []))
            (ap (strip (bin r rs)) info_in_bin
              ∙ strip-append (bin r rs) (id ∷ (trash_info_name ∷ [])))
            (within_false→strip (bin r rs) (y ∷ q) b)

  pub item_dir-eq : (e : Disk) → item_dir (service_of r rs) id e ≡ done item
  item_dir-eq e =
      rw
        (
          m.valid,
          resolves_item r rs root_proper id id_proper id_literal e,
          os_item r rs root_proper id id_proper,
        )
        refl

  -- Whether or not info.json could be written, the tree is still there, unless the tree is a file
  -- of that name.
  pub write_trash_info-Held :
      (encode : TrashInfo → Bytes) (info : TrashInfo) (e : Disk)
      → IsHeld e
      → (m.name ∷ m.names) ≢ (trash_info_name ∷ [])
      → IsHeld ((write_trash_info (service_of r rs) encode id info e).1)
  unfolding write_trash_info mkdir_all
  write_trash_info-Held encode info e h other =
      rw (item_dir-eq e) (elim (Fallible-cases (make_dirs e.read_only [] item e.entries)) [
        | inr (x, g) ↦ rw g h
        | inl (es, g) ↦ rw g (written (with_entries e es) (made-Held e es h g))
      ])
    where
      written :
          (e' : Disk)
          → IsHeld e'
          → IsHeld (
              (then_on
                (write_file (item ++ (trash_info_name ∷ [])) (encode info) e')
                os
                e'
                (λ left. (done tt, left))).1)
      written e' h' = elim (write_file-cases (item ++ (trash_info_name ∷ [])) (encode info) e') [
        | inl (x, g) ↦ rw g h'
        | inr g ↦ rw g (written-Held e' (encode info) h' other)
      ]
