-- ===== src/MediaFs/Trash/Held.antt =====
-- What RestoreFromTrash needs and does (internal/mediafs/trash.go).
use sudostream.MediaFs.Trash.Moved.{trash-IsProper}
use sudostream.MediaFs.Resolve.Plain.{resolve_of_plain}
use sudostream.Text.Paths.Proper.{cleaned_or_empty-join}
use sudostream.Text.Paths.{path_join}
use sudostream.MediaFs.Os.Paths.{
  within→append, within-apart, within-parent, within-append_false, not_below_parent, within-append,
  within_trans, parent-append,
}
use sudostream.MediaFs.Trash.Kept.{find_made, bin, source-apart, target-apart}
use sudostream.MediaFs.Os.Renames.{rename_of_free, remove_all-apart, IsLoose}
use sudostream.Text.Laws.Decide.{
  contains-nul_of_IsLiteral, path_unescape_of_IsLiteral, free_of→IsLiteral, IsLiteral-append,
  IsLiteral,
}
use sudostream.Text.Laws.Clean.{is_empty_of_ne, IsProper}
use sudostream.MediaFs.Os.Directories.{
  DirsBelow-map, DirsBelow→find, make_dirs_of_DirsBelow, DirsBelow,
}
use mathlib.Core.List.{List, append_assoc, append-nil}
use sudostream.Prelude.{
  inr, inl, Bool-cases, All-append, ◌++◌, ap, ◌∙◌, sym, subst, arith, refl, All, ◌≡◌, [], ◌∷◌,
}
use sudostream.Text.{join, Bytes}
use sudostream.MediaFs.{
  true, os_path, path_join, slash, join, false, none, some, done, resolve, eval_plain,
}
use sudostream.MediaFs.Resolve.{os_path_of_IsProper, full_of, service_of}
use sudostream.MediaFs.Os.{
  make_dirs, Disk, FilePath, find, parent, within, dir, stat, with_entries, mkdir_all,
}
use sudostream.MediaFs.Os.RoundTrip.{find_elsewhere, find_at_source, find_at_target, once}
use sudostream.MediaFs.Trash.{
  validate_trash_item_id, trash_dir_name, restore_from_trash, remove_trash_item,
}
use sudostream.MediaFs.Trash.Done.{below, trashed, MoveDone}
use sudostream.MediaFs.Trash.Restoring.{plan_restore_of}

pub mkdir_all_of_DirsBelow :
    (p : FilePath) (d : Disk) → DirsBelow [] p d.entries → mkdir_all p d ≡ done d
unfolding mkdir_all
mkdir_all_of_DirsBelow p d h = rw (make_dirs_of_DirsBelow d.read_only [] p d.entries h) refl

module _ (r : Bytes) (rs : List Bytes) (root_proper : All IsProper (r ∷ rs)) (id : Bytes)
    (id_proper : IsProper id) (id_literal : IsLiteral id) where
  path_join-item : path_join (trash_dir_name ∷ (id ∷ [])) ≡ join slash (trashed id [])
  unfolding path_join
  path_join-item =
      rw (is_empty_of_ne id id_proper.nonempty)
        (cleaned_or_empty-join trash_dir_name (id ∷ []) (trash-IsProper, (id_proper, tt)))

  item-IsLiteral : IsLiteral (join slash (trashed id []))
  unfolding join
  item-IsLiteral =
      IsLiteral-append (trash_dir_name ++ (slash ∷ [])) id
        (free_of→IsLiteral (trash_dir_name ++ (slash ∷ [])) refl) id_literal

  pub resolves_item :
      (d : Disk)
      → resolve (eval_plain d) (service_of r rs) (path_join (trash_dir_name ∷ (id ∷ [])))
        ≡ done (full_of r rs (trashed id []), join slash (trashed id []))
  resolves_item d =
      ap (resolve (eval_plain d) (service_of r rs)) path_join-item
      ∙ resolve_of_plain r rs root_proper d (trashed id []) (trash-IsProper, (id_proper, tt))
          (path_unescape_of_IsLiteral _ item-IsLiteral) (contains-nul_of_IsLiteral _ item-IsLiteral)

  pub os_item : os_path (full_of r rs (trashed id [])) ≡ below r rs (trashed id [])
  os_item =
      os_path_of_IsProper ((r ∷ rs) ++ trashed id [])
        (All-append IsProper (r ∷ rs) (trashed id []) root_proper (trash-IsProper, (id_proper, tt)))

  in_item :
      (q : FilePath)
      → within (below r rs (trash_dir_name ∷ [])) q ≡ false
      → within (below r rs (trashed id [])) q ≡ false
  in_item q h = ground (
    arith,
    within_trans (below r rs (trash_dir_name ∷ [])) (below r rs (trashed id [])) q,
    subst (λ z. within (below r rs (trash_dir_name ∷ [])) z ≡ true)
        (append_assoc (r ∷ rs) (trash_dir_name ∷ []) (id ∷ []))
        (within-append (below r rs (trash_dir_name ∷ [])) (id ∷ [])),
  )

  -- The item's directory is removed, and nothing outside the trash.
  remove_trash_item-apart :
      (d : Disk)
      → validate_trash_item_id id ≡ done tt
      → d.read_only ≡ false
      → IsLoose (below r rs (trashed id [])) d
      → (left : Disk) × (remove_trash_item (service_of r rs) id d ≡ (done tt, left))
        × ((q : FilePath)
            → within (below r rs (trash_dir_name ∷ [])) q ≡ false
            → stat left q ≡ stat d q)
  unfolding remove_trash_item
  remove_trash_item-apart d valid w loose =
      let (left, e, kept) = remove_all-apart (below r rs (trashed id [])) d w loose in
      (left, rw (valid, resolves_item d, os_item, e) refl, λ q h. kept q (in_item q h))

  module _ (d moved : Disk) (rel trash_rel : Bytes) (lit : IsLiteral rel)
      (m : MoveDone r rs id d moved rel trash_rel)
      (above : DirsBelow [] (parent (below r rs (m.name ∷ m.names))) d.entries) where
    abbrev pub src : FilePath
    src = below r rs (m.name ∷ m.names)

    abbrev pub dst : FilePath
    dst = below r rs (trashed id (m.name ∷ m.names))

    -- The tree of `d` at the source is held at the target, and all outside the trash is as in `d`.
    pub record Held (e : Disk) : Type 0 where
      pub writable : e.read_only ≡ false
      pub as_stuck : e.stuck ≡ d.stuck
      pub at_target : (t : FilePath) → find (dst ++ t) e.entries ≡ find (src ++ t) d.entries
      pub at_source : (t : FilePath) → find (src ++ t) e.entries ≡ none
      pub elsewhere :
          (y : Bytes) (q : FilePath)
          → within src (y ∷ q) ≡ false
          → within (bin r rs) (y ∷ q) ≡ false
          → find (y ∷ q) e.entries ≡ find (y ∷ q) d.entries

    pub out_of_bin : (t : FilePath) → within (bin r rs) (src ++ t) ≡ false
    out_of_bin t =
        within-append_false (bin r rs) src t
          (within-apart (r ∷ rs) trash_dir_name m.name [] m.names (λ e. m.not_trash (sym e)))
          (within-apart (r ∷ rs) m.name trash_dir_name m.names [] m.not_trash)

    pub in_bin : (q : FilePath) → within (bin r rs) q ≡ false → within dst q ≡ false
    in_bin q h = ground (
      arith,
      within_trans (bin r rs) dst q,
      subst (λ z. within (bin r rs) z ≡ true)
          (append_assoc (r ∷ rs) (trash_dir_name ∷ []) (id ∷ (m.name ∷ m.names)))
          (within-append (bin r rs) (id ∷ (m.name ∷ m.names))),
    )

    src-dst : within src dst ≡ false
    src-dst = source-apart r rs id m.name m.names m.not_trash

    dst-src : within dst src ≡ false
    dst-src = target-apart r rs id m.name m.names m.not_trash

    -- So it is after the move.
    pub moved-Held : Held (with_entries d (once src dst m.made))
    unfolding parent
    moved-Held = record {
      writable = m.writable;
      as_stuck = refl;
      at_target = λ t.
          find_at_target src dst src-dst dst-src m.made t
          ∙ unmade r ((rs ++ (m.name ∷ m.names)) ++ t) (out_of_bin t);
      at_source = find_at_source src dst src-dst dst-src m.made;
      elsewhere = λ y q s b.
          find_elsewhere src dst src-dst dst-src m.made (y ∷ q) s (in_bin (y ∷ q) b) ∙ unmade y q b;
    }
      where
        unmade :
            (y : Bytes) (q : FilePath)
            → within (bin r rs) (y ∷ q) ≡ false
            → find (y ∷ q) m.made ≡ find (y ∷ q) d.entries
        unmade y q h =
            find_made r rs m.name m.names (parent (id ∷ (m.name ∷ m.names))) d.read_only d.entries
              m.made above
              (subst (λ z. make_dirs d.read_only [] z d.entries ≡ done m.made)
                (parent-append (r ∷ rs) trash_dir_name (id ∷ (m.name ∷ m.names))) m.made_eq)
              y q h

    module _ (e : Disk) (h : Held e) where
      there : stat e dst ≡ some m.node
      unfolding stat
      there =
          subst (λ z. find z e.entries ≡ some m.node) (append-nil dst)
            (h.at_target [] ∙ ap (λ z. find z d.entries) (append-nil src) ∙ m.there)

      free : stat e src ≡ none
      unfolding stat
      free = subst (λ z. find z e.entries ≡ none) (append-nil src) (h.at_source [])

      pub still_above : DirsBelow [] (parent src) e.entries
      still_above =
          DirsBelow-map [] (parent src) d.entries e.entries (λ y q w was. kept_above y q w was)
            above
        where
          kept_above :
              (y : Bytes) (q : FilePath)
              → within (y ∷ q) (parent src) ≡ true
              → find (y ∷ q) d.entries ≡ some dir
              → find (y ∷ q) e.entries ≡ some dir
          kept_above y q w was =
              h.elsewhere y q
                (ground (
                  arith,
                  within_trans src (y ∷ q) (parent src),
                  not_below_parent r (rs ++ (m.name ∷ m.names)),
                ))
                (ground (
                  arith,
                  within_trans (bin r rs) (y ∷ q) (parent src),
                  within_trans (bin r rs) (parent src) src,
                  within-parent src,
                  subst (λ z. within (bin r rs) z ≡ false) (append-nil src) (out_of_bin []),
                ))
              ∙ was

      parent_there : stat e (parent src) ≡ some dir
      parent_there = rw (parent-append (r ∷ rs) m.name m.names) (
          unfold stat in
          DirsBelow→find [] (parent src) r (rs ++ parent (m.name ∷ m.names)) [] e.entries
            still_above (parent-append (r ∷ rs) m.name m.names ∙ sym (append-nil _)))

      abbrev back : Disk
      back = with_entries e (once dst src e.entries)

      outside : (q : FilePath) → within (bin r rs) q ≡ false → stat back q ≡ stat d q
      unfolding stat
      outside [] b = refl
      outside (y ∷ q) b = elim (Bool-cases (within src (y ∷ q))) [
        | inl s ↦
            let (t, f) = within→append src (y ∷ q) s in
            subst (λ z. find z (once dst src e.entries) ≡ find z d.entries) (sym f)
              (find_at_target dst src dst-src src-dst e.entries t ∙ h.at_target t)
        | inr s ↦
            find_elsewhere dst src dst-src src-dst e.entries (y ∷ q) (in_bin (y ∷ q) b) s
            ∙ h.elsewhere y q s b
      ]

      -- RestoreFromTrash then brings all outside the trash back to what it was in `d`.
      pub Held-restored :
          IsLoose (below r rs (trashed id [])) d
          → (left : Disk) × (restore_from_trash (service_of r rs) rel trash_rel id e
              ≡ (done tt, left))
            × ((q : FilePath) → within (bin r rs) q ≡ false → stat left q ≡ stat d q)
      unfolding restore_from_trash
      Held-restored loose =
          let (left, f, kept) = remove_trash_item-apart back m.valid h.writable (
            subst (λ g. (q : FilePath) → within (below r rs (trashed id [])) q ≡ true → g q ≡ none)
              (sym h.as_stuck) loose) in
          (
            left,
            rw
                (
                  plan_restore_of r rs root_proper id id_proper id_literal d moved rel trash_rel lit
                      m e there free,
                  mkdir_all_of_DirsBelow (parent src) e still_above,
                  rename_of_free dst src e there h.writable dst-src parent_there free,
                )
                f,
            λ q b. kept q b ∙ outside q b,
          )
