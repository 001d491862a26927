-- ===== src/Access/Service.antt =====
-- internal/access/service.go over the PostgreSQL store that the server wires in: the permission
-- checks; the operations of administrators are in Libraries, Prune and UserGrants. Context
-- cancellation and the wrapping of error messages are left out.
pub mod Libraries
pub mod Prune
pub mod UserGrants
pub mod Permissions
pub mod RootsExclusive
pub mod Unchanged
pub mod PruneExclusive
pub mod Registry
use sudostream.Access.Path.{
  canonical_rel_path, is_hidden_rel_path, is_trash_rel_path, match_library, normalize_rel_path,
  roots_overlap,
}
use sudostream.Access.Store.{Database, list_libraries, Server}
use sudostream.Access.Store.UserGrants.{lookup_grant, user_grant_map}
use sudostream.Access.Types.{
  admin_grants_immutable, err, GrantInput, invalid_library_name, invalid_library_patch,
  invalid_library_root, invalid_library_type, invalid_path, Library, library_not_found,
  library_root_conflict, LibraryPermissions, LibraryType, ok, or_fail, other, parse_library_type,
  Result, root_paths, unknown_library, UserGrantView, ◌>>=◌,
}
use sudostream.Prelude.{
  [], Bool, false, if◌then◌else◌, length, List, map, none, not, Option, reverse, some, true, ℕ,
  ◌&&◌, ◌++◌, ◌+◌, ◌||◌, ◌∷◌,
}
use sudostream.Text.{Bytes, bytes_eq, codes, contains, is_empty, trim_space}
use sudostream.Access.Store

-- auth.PublicUser, as far as access looks at it.
pub data Role : Type 0 where
  admin plain_user tv : Role

pub record PublicUser : Type 0 where
  pub id : Bytes
  pub role : Role

-- mediafs.Item, as far as FilterBrowseResponse looks at it: a child of the folder.
abbrev pub Children : Type 0
Children = List Bytes

abbrev grants_of : Database → Bytes → Library → Option LibraryPermissions
grants_of db user_id library = lookup_grant library.id (user_grant_map db user_id)

abbrev permissions_in : Database → Bytes → Option Library → Option LibraryPermissions
permissions_in db user_id none = none
permissions_in db user_id (some library) = grants_of db user_id library

-- permissionsForPath; `ok none` is its `false`.
unfoldable pub permissions_for_path :
    Server → Database → Bytes → Bytes → Result (Option LibraryPermissions)
permissions_for_path server db user_id raw_path = elim (canonical_rel_path raw_path) [
  | none ↦ err invalid_path
  | some canonical ↦
      if is_empty canonical
      then ok none
      else ok (permissions_in db user_id (match_library (list_libraries server db) canonical))
]

abbrev check_found : (LibraryPermissions → Bool) → Option LibraryPermissions → Bool
check_found check none = false
check_found check (some permissions) = check permissions

abbrev pub is_admin : Role → Bool
is_admin admin = true
is_admin _ = false

-- checkPermission
unfoldable pub check_permission :
    Server → Database → PublicUser → Bytes → (LibraryPermissions → Bool) → Result Bool
check_permission server db user raw_path check =
    if is_admin user.role
    then ok true
    else (permissions_for_path server db user.id raw_path >>= λ permissions.
        ok (check_found check permissions))

-- CanRead, which the source writes out, and CanCreate, CanUpdate and CanDelete.
unfoldable pub can_read : Server → Database → PublicUser → Bytes → Result Bool
can_read server db user raw_path = check_permission server db user raw_path (λ p. p.read)

unfoldable pub can_create : Server → Database → PublicUser → Bytes → Result Bool
can_create server db user raw_path = check_permission server db user raw_path (λ p. p.create)

unfoldable pub can_update : Server → Database → PublicUser → Bytes → Result Bool
can_update server db user raw_path = check_permission server db user raw_path (λ p. p.update)

unfoldable pub can_delete : Server → Database → PublicUser → Bytes → Result Bool
can_delete server db user raw_path = check_permission server db user raw_path (λ p. p.delete)

-- CanBrowse
unfoldable pub can_browse : Server → Database → PublicUser → Bytes → Result Bool
can_browse server db user raw_path =
    if is_admin user.role then ok true else elim (canonical_rel_path raw_path) [
      | none ↦ err invalid_path
      | some canonical ↦ if is_empty canonical then ok true else can_read server db user canonical
    ]

abbrev cons_if : Bool → Bytes → Children → Children
cons_if true child rest = child ∷ rest
cons_if false child rest = rest

-- FilterBrowseResponse on the paths of the children.
unfoldable pub filter_children : Server → Database → PublicUser → Children → Result Children
filter_children server db user [] = ok []
filter_children server db user (child ∷ children) =
    elim (match_library (list_libraries server db) child) [
      | none ↦ filter_children server db user children
      | some library ↦ can_read server db user child >>= λ allowed.
          filter_children server db user children >>= λ rest. ok (cons_if allowed child rest)
    ]

-- LibraryForRelPath
unfoldable pub library_for_rel_path : Server → Database → Bytes → Option Library
library_for_rel_path server db raw_path = match_library (list_libraries server db) raw_path
