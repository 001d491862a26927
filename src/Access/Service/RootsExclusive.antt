-- ===== src/Access/Service/RootsExclusive.antt =====
-- AddRoot, RemoveRoot and DeleteLibrary keep the registered roots apart
-- (internal/access/service.go).
use sudostream.Access.Path.{normalize_rel_path}
use sudostream.Access.Service.Libraries.{
  add_root, conflict, exact, free, remove_root, Search, search_libraries, validate_root_path,
}
use sudostream.Access.Store.{
  Database, has_id, if_present, is_root, LibraryRow, list_libraries, RootRow, Server,
}
use sudostream.Access.Store.Claim.{delete_library_if_empty-Exclusive}
use sudostream.Access.Store.Exclusive.{Exclusive, Exclusive-keep}
use sudostream.Access.Types.{
  >>=-eq-ok, err, Library, library_root_conflict, ok, ok-eq, Result-cases,
}
use sudostream.Prelude.{
  ap, arith, Bool-cases, first, if◌then◌else◌, inl, inr, Option-cases, subst, ◌≡◌,
}
use sudostream.Text.{Bytes, bytes_eq, is_empty}
use sudostream.Access.Store
use sudostream.Access.Store.Roots
use sudostream.Access.Store.AddRoot

remove_root_rows-Exclusive :
    (server : Server) (db : Database) (id path : Bytes) {db' : Database}
    → Exclusive db.roots
    → Roots.remove_root_rows server db id path ≡ ok db'
    → Exclusive db'.roots
unfolding Roots.remove_root_rows Roots.delete_prefix_rows
remove_root_rows-Exclusive server db id path {db'} ex h =
    elim (Option-cases (first (is_root id path) db.roots)) [
      | inl e ↦ absurd (ground (arith, h, e))
      | inr (row, e) ↦
          subst (λ (d : Database). Exclusive d.roots) (ok-eq (rw (e, Roots.remove_root_rows) at h))
            (delete_library_if_empty-Exclusive _ id (Exclusive-keep _ db.roots ex))
    ]

pub store_remove_root-Exclusive :
    (server : Server) (db : Database) (id path : Bytes)
    → Exclusive db.roots
    → Exclusive (Roots.remove_root server db id path).0.roots
unfolding Roots.remove_root
store_remove_root-Exclusive server db id path ex =
    elim (Result-cases (Roots.remove_root_rows server db id path)) [
      | inl (d, e) ↦ rw (e, Roots.remove_root) (remove_root_rows-Exclusive server db id path ex e)
      | inr (x, e) ↦ rw (e, Roots.remove_root) ex
    ]

-- RemoveRoot keeps the roots apart.
pub remove_root-Exclusive :
    (server : Server) (db : Database) (id path : Bytes)
    → Exclusive db.roots
    → Exclusive (remove_root server db id path).0.roots
unfolding remove_root
remove_root-Exclusive server db id path ex =
    elim (Bool-cases (is_empty (normalize_rel_path path))) [
      | inl t ↦ rw t ex
      | inr f ↦ rw f (store_remove_root-Exclusive server db id (normalize_rel_path path) ex)
    ]

pub delete_library-Exclusive :
    (db : Database) (id : Bytes) {db' : Database}
    → Exclusive db.roots
    → Store.delete_library db id ≡ ok db'
    → Exclusive db'.roots
unfolding Store.delete_library Store.cascade_library
delete_library-Exclusive db id {db'} ex h = elim (Option-cases (first (has_id id) db.libraries)) [
  | inl e ↦ absurd (ground (arith, h, e))
  | inr (row, e) ↦
      subst (λ (d : Database). Exclusive d.roots) (ok-eq (rw (e, Store.delete_library) at h))
        (Exclusive-keep _ db.roots ex)
]

-- AddRoot keeps the roots apart.
pub service_add_root-Exclusive :
    (server : Server) (db : Database) (id path : Bytes) {db' : Database} {library : Library}
    → Exclusive db.roots
    → add_root server db id path ≡ ok (db', library)
    → Exclusive db'.roots
unfolding add_root
service_add_root-Exclusive server db id path {db'} {library} ex h =
    let (cleaned, valid, rest) = >>=-eq-ok (validate_root_path path) _ h in
    let (target, got, searched) = >>=-eq-ok (Store.get_library server db id) _ rest in
    by_search cleaned (search_libraries cleaned (list_libraries server db)) searched
  where
    by_search :
        (cleaned : Bytes) (s : Search)
        → elim s [
          | conflict ↦ err library_root_conflict
          | free ↦ Roots.add_root server db id cleaned
          | exact l ↦ if bytes_eq l.id id then ok (db, l) else Roots.add_root server db id cleaned
        ]
          ≡ ok (db', library)
        → Exclusive db'.roots
    by_search cleaned conflict k = absurd (cc)
    by_search cleaned free k = AddRoot.add_root-Exclusive server db id cleaned ex k
    by_search cleaned (exact l) k = elim (Bool-cases (bytes_eq l.id id)) [
      | inl t ↦
          let same : db ≡ db' = ap (λ (p : Database × Library). p.0) (ok-eq (rw t at k)) in
          subst (λ (d : Database). Exclusive d.roots) same ex
      | inr f ↦ AddRoot.add_root-Exclusive server db id cleaned ex (rw f at k)
    ]
