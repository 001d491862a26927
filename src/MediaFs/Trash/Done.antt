-- ===== src/MediaFs/Trash/Done.antt =====
-- What MoveToTrash has done where it succeeds (internal/mediafs/trash.go).
use sudostream.MediaFs.Trash.{validate_trash_item_id}
use sudostream.Text.Paths.Proper.{cleaned_or_empty-join}
use sudostream.MediaFs.Resolve.{full_of, service_of, join_nonempty}
use sudostream.MediaFs.{is_empty, false, done, some, eval_plain, resolve}
use sudostream.Text.Paths.{path_join}
use sudostream.Text.Laws.Decide.{contains-nul_of_IsLiteral, path_unescape_of_IsLiteral, IsLiteral}
use sudostream.MediaFs.Trash.{is_trash_rel_path, trash_dir_name}
use sudostream.Text.Laws.Clean.{is_empty_of_ne, IsProper}
use sudostream.Prelude.{◌||◌, ◌≢◌, ◌≡◌, ◌++◌, All, List, [], ◌∷◌}
use sudostream.Text.{slash, join, Bytes}
use sudostream.MediaFs.Os.{
  drop_within, relocate, find, make_dirs, parent, drop_within, relocate, parent, make_dirs, find,
  Disk, FilePath, Node, with_entries,
}
use sudostream.MediaFs.Trash.Moved.{trash-IsProper, trash_rel-IsLiteral}
use sudostream.MediaFs.Resolve.Plain.{resolve_of_plain}

-- The place of the names `segs` below the media root, and their names in an item's directory.
abbrev pub below : Bytes → List Bytes → List Bytes → FilePath
below r rs segs = (r ∷ rs) ++ segs

abbrev pub trashed : Bytes → List Bytes → List Bytes
trashed id segs = trash_dir_name ∷ (id ∷ segs)

module _ (r : Bytes) (rs : List Bytes) (id : Bytes) where
  -- A path below the root that a call moves from, its trash path, and the disk it leaves.
  pub record MoveDone (d moved : Disk) (rel trash_rel : Bytes) : Type 0 where
    pub name : Bytes
    pub names : List Bytes
    pub proper : All IsProper (name ∷ names)
    pub rel_eq : rel ≡ join slash (name ∷ names)
    pub trash_rel_eq : trash_rel ≡ join slash (trashed id (name ∷ names))
    pub valid : validate_trash_item_id id ≡ done tt
    pub allowed : (is_empty rel || is_trash_rel_path rel) ≡ false
    pub not_trash : name ≢ trash_dir_name
    pub node : Node
    pub there : find (below r rs (name ∷ names)) d.entries ≡ some node
    pub made : List (FilePath × Node)
    pub made_eq :
        make_dirs d.read_only [] (parent (below r rs (trashed id (name ∷ names)))) d.entries
        ≡ done made
    pub writable : d.read_only ≡ false
    pub moved_eq :
        moved
        ≡ with_entries d (
            relocate
              (below r rs (name ∷ names))
              (below r rs (trashed id (name ∷ names)))
              (drop_within (below r rs (trashed id (name ∷ names))) made))

module _ (r : Bytes) (rs : List Bytes) (root_proper : All IsProper (r ∷ rs)) (id : Bytes)
    (id_proper : IsProper id) (id_literal : IsLiteral id) where
  pub path_join-trashed :
      (x : Bytes) (xs : List Bytes)
      → All IsProper (x ∷ xs)
      → path_join (trash_dir_name ∷ (id ∷ (join slash (x ∷ xs) ∷ [])))
        ≡ join slash (trashed id (x ∷ xs))
  unfolding path_join
  path_join-trashed x xs h =
      rw (is_empty_of_ne id id_proper.nonempty, join_nonempty x xs h.0.nonempty)
        (unfold join in
          cleaned_or_empty-join trash_dir_name (id ∷ (x ∷ xs)) (trash-IsProper, (id_proper, h)))

  join-trashed-IsLiteral :
      (x : Bytes) (xs : List Bytes)
      → IsLiteral (join slash (x ∷ xs))
      → IsLiteral (join slash (trashed id (x ∷ xs)))
  join-trashed-IsLiteral x xs h =
      unfold join in trash_rel-IsLiteral id (join slash (x ∷ xs)) id_literal h

  -- The trash path resolves to its place below the root.
  pub resolve-trashed :
      (d : Disk) (x : Bytes) (xs : List Bytes)
      → All IsProper (x ∷ xs)
      → IsLiteral (join slash (x ∷ xs))
      → resolve (eval_plain d) (service_of r rs) (join slash (trashed id (x ∷ xs)))
        ≡ done (full_of r rs (trashed id (x ∷ xs)), join slash (trashed id (x ∷ xs)))
  resolve-trashed d x xs h k =
      resolve_of_plain r rs root_proper d (trashed id (x ∷ xs)) (trash-IsProper, (id_proper, h))
        (path_unescape_of_IsLiteral _ (join-trashed-IsLiteral x xs k))
        (contains-nul_of_IsLiteral _ (join-trashed-IsLiteral x xs k))
