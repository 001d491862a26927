-- ===== src/Access/Service/Unchanged.antt =====
-- The calls that leave the registered roots as they were (internal/access/service.go).
use sudostream.Access.Service.{is_admin, Role}
use sudostream.Access.Service.Libraries.{
  create_library, parse_or_other, parsed_type, trimmed_name, update_library,
}
use sudostream.Access.Service.UserGrants.{set_user_grants, validate_grant_inputs}
use sudostream.Access.Store.{
  Database, has_id, if_present, is_root, LibraryRow, list_libraries, RootRow, Server,
}
use sudostream.Access.Types.{
  >>=-eq-ok, GrantInput, if_err-eq-ok, is_empty_permissions, Library, LibraryType, ok, ok-eq,
  Result, ◌>>=◌,
}
use sudostream.Prelude.{
  [], ap, arith, Bool, Bool-cases, first, inl, inr, keep, List, none, Option, Option-cases, some,
  ◌&&◌, ◌∙◌, ◌∷◌, ◌≡◌,
}
use sudostream.Text.{Bytes, bytes_eq, is_empty, trim_space}
use sudostream.Access.Store
use sudostream.Access.Store.UserGrants

store_create_library-roots :
    (server : Server) (new_id : Bytes) (db : Database) (library : Library) {db' : Database}
    {created : Library}
    → Store.create_library server new_id db library ≡ ok (db', created)
    → db.roots ≡ db'.roots
unfolding Store.create_library
store_create_library-roots server new_id db library h =
    let (slug, allocated, rest) = >>=-eq-ok (Store.allocate_slug server db library.slug) _ h in
    let (l, got, same) = >>=-eq-ok (Store.get_library server _ new_id) _ rest in
    ap (λ (p : Database × Library). p.0.roots) (ok-eq same)

pub create_library-roots :
    (pieces : Bytes → List (Bool × Bytes)) (server : Server) (new_id : Bytes) (db : Database)
    (name slug type_raw : Bytes) {db' : Database} {created : Library}
    → create_library pieces server new_id db name slug type_raw ≡ ok (db', created)
    → db.roots ≡ db'.roots
unfolding create_library
create_library-roots pieces server new_id db name slug type_raw h =
    let (type, parsed, rest) =
      >>=-eq-ok (parse_or_other type_raw) _ (if_err-eq-ok (is_empty (trim_space name)) _ h) in
    store_create_library-roots server new_id db _ (if_err-eq-ok _ _ rest)

store_update_library-roots :
    (server : Server) (db : Database) (id : Bytes) (name : Option Bytes) (type : Option LibraryType)
    {db' : Database} {library : Library}
    → Store.update_library server db id name type ≡ ok (db', library)
    → db.roots ≡ db'.roots
unfolding Store.update_library
store_update_library-roots server db id name type {db'} {library} h =
    present (first (has_id id) db.libraries) _ _ (if_err-eq-ok _ _ h)
  where
    present :
        (o : Option LibraryRow) (m : Result Library) (d : Database)
        → if_present {A = Database × Library} o (m >>= λ l. ok (d, l)) ≡ ok (db', library)
        → d.roots ≡ db'.roots
    present none m d k = absurd (cc)
    present (some row) m d k =
        let (l, got, same) = >>=-eq-ok m _ k in
        ap (λ (p : Database × Library). p.0.roots) (ok-eq same)

pub update_library-roots :
    (server : Server) (db : Database) (id : Bytes) (name : Option Bytes) (type : Option Bytes)
    {db' : Database} {library : Library}
    → update_library server db id name type ≡ ok (db', library)
    → db.roots ≡ db'.roots
unfolding update_library
update_library-roots server db id none none h = absurd (cc)
update_library-roots server db id none (some type) h =
    let (t, typed, done) =
      >>=-eq-ok (parsed_type (some type)) (λ t. Store.update_library server db id none t) h in
    store_update_library-roots server db id none t done
update_library-roots server db id (some name) type h =
    let (n, named, rest) =
      >>=-eq-ok (trimmed_name (some name))
        (λ n. parsed_type type >>= λ t. Store.update_library server db id n t) h in
    let (t, typed, done) =
      >>=-eq-ok (parsed_type type) (λ t. Store.update_library server db id n t) rest in
    store_update_library-roots server db id n t done

insert_grant-roots :
    (db : Database) (user : Bytes) (g : GrantInput) {db' : Database}
    → UserGrants.insert_grant db user g ≡ ok db'
    → db.roots ≡ db'.roots
unfolding UserGrants.insert_grant
insert_grant-roots db user g h = elim (Option-cases (first (has_id g.library_id) db.libraries)) [
  | inl e ↦ absurd (ground (arith, h, e))
  | inr (l, e) ↦
      elim (Option-cases
        (first (λ r. bytes_eq r.user_id user && bytes_eq r.library_id g.library_id) db.grants)) [
          | inl new ↦ ground (arith, h, e, new)
          | inr (row, old) ↦ absurd (ground (arith, h, e, old))
        ]
]

insert_grants-roots :
    (db : Database) (user : Bytes) (gs : List GrantInput) {db' : Database}
    → UserGrants.insert_grants db user gs ≡ ok db'
    → db.roots ≡ db'.roots
unfolding UserGrants.insert_grants
insert_grants-roots db user [] h = ap (λ (d : Database). d.roots) (ok-eq h)
insert_grants-roots db user (g ∷ gs) h = elim (Bool-cases (is_empty_permissions g.permissions)) [
  | inl skip ↦ insert_grants-roots db user gs (rw (skip, UserGrants.insert_grants) at h)
  | inr keep ↦
      let (mid, one, rest) =
        >>=-eq-ok (UserGrants.insert_grant db user g) (λ d. UserGrants.insert_grants d user gs)
          (rw (keep, UserGrants.insert_grants) at h) in
      insert_grant-roots db user g one ∙ insert_grants-roots mid user gs rest
]

pub set_user_grants-roots :
    (server : Server) (db : Database) (user : Bytes) (role : Role) (gs : List GrantInput)
    {db' : Database}
    → set_user_grants server db user role gs ≡ ok db'
    → db.roots ≡ db'.roots
unfolding set_user_grants UserGrants.replace_user_grants
set_user_grants-roots server db user role gs h =
    let (u, valid, replaced) =
      >>=-eq-ok (validate_grant_inputs (list_libraries server db) gs) _
        (if_err-eq-ok (is_admin role) _ h) in
    insert_grants-roots _ user gs replaced
