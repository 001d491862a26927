-- ===== src/MediaFs/Trash/Restoring.antt =====
-- The checks of RestoreFromTrash after a MoveToTrash (internal/mediafs/trash.go).
use sudostream.MediaFs.Resolve.Plain.{trim_slash-join, resolve_of_plain}
use sudostream.MediaFs.Trash.Moved.{trash-IsProper, is_trash_rel_path-join}
use sudostream.MediaFs.Resolve.{os_path_of_IsProper, full_of}
use sudostream.Text.Laws.Decide.{contains-nul_of_IsLiteral, path_unescape_of_IsLiteral, IsLiteral}
use sudostream.Text.Laws.Clean.{IsProper}
use mathlib.Core.List.{List}
use sudostream.Prelude.{refl, All-append, ◌++◌, sym, subst, ◌≡◌, All, ◌∷◌}
use sudostream.Text.{Bytes}
use sudostream.MediaFs.{none, some, true, done, trim_slash, os_path, resolve, eval_plain}
use sudostream.MediaFs.Resolve.{service_of}
use sudostream.MediaFs.Os.{Disk, FilePath, Node, stat}
use sudostream.MediaFs.Trash.{plan_restore, resolve_restore_paths, is_trash_rel_path}
use sudostream.MediaFs.Trash.Done.{below, trashed, MoveDone, resolve-trashed}

module _ (r : Bytes) (rs : List Bytes) (root_proper : All IsProper (r ∷ rs)) (id : Bytes)
    (id_proper : IsProper id) (id_literal : IsLiteral id) (d moved : Disk) (rel trash_rel : Bytes)
    (lit : IsLiteral rel) (m : MoveDone r rs id d moved rel trash_rel) where
  abbrev pub source : FilePath
  source = below r rs (m.name ∷ m.names)

  abbrev pub target : FilePath
  target = below r rs (trashed id (m.name ∷ m.names))

  -- The two paths of RestoreFromTrash resolve to where the tree is and to where it was.
  resolves_target :
      (e : Disk)
      → resolve (eval_plain e) (service_of r rs) trash_rel
        ≡ done (full_of r rs (trashed id (m.name ∷ m.names)), trash_rel)
  resolves_target e =
      subst
        (λ z.
          resolve (eval_plain e) (service_of r rs) z
          ≡ done (full_of r rs (trashed id (m.name ∷ m.names)), z))
        (sym m.trash_rel_eq)
        (resolve-trashed r rs root_proper id id_proper id_literal e m.name m.names m.proper
          (subst IsLiteral m.rel_eq lit))

  resolves_source :
      (e : Disk)
      → resolve (eval_plain e) (service_of r rs) rel ≡ done (full_of r rs (m.name ∷ m.names), rel)
  resolves_source e =
      subst
        (λ z.
          resolve (eval_plain e) (service_of r rs) z ≡ done (full_of r rs (m.name ∷ m.names), z))
        (sym m.rel_eq)
        (resolve_of_plain r rs root_proper e (m.name ∷ m.names) m.proper
          (path_unescape_of_IsLiteral _ (subst IsLiteral m.rel_eq lit))
          (contains-nul_of_IsLiteral _ (subst IsLiteral m.rel_eq lit)))

  pub os_target : os_path (full_of r rs (trashed id (m.name ∷ m.names))) ≡ target
  os_target = os_path_of_IsProper ((r ∷ rs) ++ trashed id (m.name ∷ m.names)) (
      All-append IsProper (r ∷ rs) (trashed id (m.name ∷ m.names)) root_proper
        (trash-IsProper, (id_proper, m.proper)))

  pub os_source : os_path (full_of r rs (m.name ∷ m.names)) ≡ source
  os_source =
      os_path_of_IsProper ((r ∷ rs) ++ (m.name ∷ m.names))
        (All-append IsProper (r ∷ rs) (m.name ∷ m.names) root_proper m.proper)

  trims_rel : trim_slash rel ≡ rel
  trims_rel =
      subst (λ z. trim_slash z ≡ z) (sym m.rel_eq) (trim_slash-join (m.name ∷ m.names) m.proper)

  trims_trash_rel : trim_slash trash_rel ≡ trash_rel
  trims_trash_rel =
      subst (λ z. trim_slash z ≡ z) (sym m.trash_rel_eq)
        (trim_slash-join (trashed id (m.name ∷ m.names)) (trash-IsProper, (id_proper, m.proper)))

  trash_rel-trash : is_trash_rel_path trash_rel ≡ true
  trash_rel-trash = rw m.trash_rel_eq (is_trash_rel_path-join (id ∷ (m.name ∷ m.names)))

  pub plan_restore_of :
      (e : Disk) {n : Node}
      → stat e target ≡ some n
      → stat e source ≡ none
      → plan_restore (service_of r rs) rel trash_rel id e ≡ done (target, source)
  unfolding plan_restore resolve_restore_paths
  plan_restore_of e there free =
      rw
        (
          trims_rel,
          trims_trash_rel,
          m.valid,
          m.allowed,
          trash_rel-trash,
          resolves_target e,
          os_target,
          there,
          resolves_source e,
          os_source,
          free,
        )
        refl
