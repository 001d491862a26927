-- ===== src/Access/Service/UserGrants.antt =====
-- internal/access/service.go: the grants of users.
use sudostream.Access.Service.{check_found, grants_of, is_admin, PublicUser, Role}
use sudostream.Access.Store.{Database, list_libraries, Server}
use sudostream.Access.Store.UserGrants.{lookup_grant, user_grant_map}
use sudostream.Access.Types.{
  admin_grants_immutable, err, GrantInput, Library, LibraryPermissions, ok, Result, unknown_library,
  UserGrantView, ◌>>=◌,
}
use sudostream.Prelude.{[], Bool, false, if◌then◌else◌, List, map, none, Option, some, ◌||◌, ◌∷◌}
use sudostream.Text.{Bytes, bytes_eq}
use sudostream.Access.Store.UserGrants

-- GetUserGrants
abbrev empty_permissions : LibraryPermissions
empty_permissions = record { create = false; read = false; update = false; delete = false }

abbrev granted_or_empty : Option LibraryPermissions → LibraryPermissions
granted_or_empty none = empty_permissions
granted_or_empty (some permissions) = permissions

unfoldable pub get_user_grants : Server → Database → Bytes → List UserGrantView
get_user_grants server db user_id =
    map (λ l. record { library = l; permissions = granted_or_empty (grants_of db user_id l) })
      (list_libraries server db)

abbrev readable : Database → Bytes → List Library → List Library
readable db user_id [] = []
readable db user_id (l ∷ ls) =
    let rest = readable db user_id ls in
    if check_found (λ p. p.read) (grants_of db user_id l) then l ∷ rest else rest

-- ListReadableLibraries
unfoldable pub list_readable_libraries : Server → Database → PublicUser → List Library
list_readable_libraries server db user =
    if is_admin user.role
    then list_libraries server db
    else readable db user.id (list_libraries server db)

abbrev known_library : Bytes → List Library → Bool
known_library id [] = false
known_library id (l ∷ ls) = bytes_eq l.id id || known_library id ls

-- validateGrantInputs
unfoldable pub validate_grant_inputs : List Library → List GrantInput → Result (Unit {0})
validate_grant_inputs libraries [] = ok tt
validate_grant_inputs libraries (grant ∷ grants) =
    let rest = validate_grant_inputs libraries grants in
    if known_library grant.library_id libraries then rest else err unknown_library

-- SetUserGrants
unfoldable pub set_user_grants :
    Server → Database → Bytes → Role → List GrantInput → Result Database
set_user_grants server db user_id role grants =
    if is_admin role
    then err admin_grants_immutable
    else (validate_grant_inputs (list_libraries server db) grants >>= λ _.
        UserGrants.replace_user_grants db user_id grants)
