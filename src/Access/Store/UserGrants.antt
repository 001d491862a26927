-- ===== src/Access/Store/UserGrants.antt =====
-- internal/access/postgres/store.go: the grants of a user.
use sudostream.Access.Store.{Database, GrantRow, has_id}
use sudostream.Access.Types.{
  err, GrantInput, is_empty_permissions, LibraryPermissions, ok, query_failed, Result, ◌>>=◌,
}
use sudostream.Prelude.{
  [], false, first, if◌then◌else◌, keep, List, map, none, not, Option, some, true, ◌&&◌, ◌++◌, ◌∷◌,
}
use sudostream.Text.{Bytes, bytes_eq}

-- GetUserGrantMap: the user's rows as a map from library to permissions.
unfoldable pub user_grant_map : Database → Bytes → List (Bytes × LibraryPermissions)
user_grant_map db user =
    map (λ r. (r.library_id, r.permissions)) (keep (λ r. bytes_eq r.user_id user) db.grants)

-- A lookup in the map, which the rows fill in order.
unfoldable pub lookup_grant : Bytes → List (Bytes × LibraryPermissions) → Option LibraryPermissions
lookup_grant id [] = none
lookup_grant id ((key, permissions) ∷ rest) = elim (lookup_grant id rest) [
  | some later ↦ some later
  | none ↦ if bytes_eq key id then some permissions else none
]

-- INSERT into library_grants: the library has to be there, and the key to be new.
unfoldable pub insert_grant : Database → Bytes → GrantInput → Result Database
insert_grant db user grant = elim (first (has_id grant.library_id) db.libraries) [
  | none ↦ err query_failed
  | some library ↦
      elim (first (λ r. bytes_eq r.user_id user && bytes_eq r.library_id grant.library_id)
        db.grants) [
          | some row ↦ err query_failed
          | none ↦
              let row : GrantRow = record {
                user_id = user;
                library_id = grant.library_id;
                permissions = grant.permissions;
              } in
              ok (record db { grants = db.grants ++ (row ∷ []) })
        ]
]

-- The loop of ReplaceUserGrants.
unfoldable pub insert_grants : Database → Bytes → List GrantInput → Result Database
insert_grants db user [] = ok db
insert_grants db user (grant ∷ grants) = elim (is_empty_permissions grant.permissions) [
  | true ↦ insert_grants db user grants
  | false ↦ insert_grant db user grant >>= λ db'. insert_grants db' user grants
]

-- ReplaceUserGrants
unfoldable pub replace_user_grants : Database → Bytes → List GrantInput → Result Database
replace_user_grants db user grants =
    insert_grants (record db { grants = keep (λ r. not (bytes_eq r.user_id user)) db.grants }) user
      grants
