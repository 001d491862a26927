-- ===== src/Access/Service/Registry.antt =====
-- Every operation of the access service keeps the registered roots apart
-- (internal/access/service.go over internal/access/postgres/store.go).
use sudostream.Access.Service.PruneExclusive.{prune_libraries-Exclusive}
use sudostream.Access.Service.RootsExclusive.{
  service_add_root-Exclusive, delete_library-Exclusive, remove_root-Exclusive,
}
use sudostream.Access.Service.Unchanged.{
  set_user_grants-roots, update_library-roots, create_library-roots,
}
use sudostream.Access.Path.{path_within_root}
use sudostream.Access.Service.{Role}
use sudostream.Access.Service.Libraries.{add_root, create_library, remove_root, update_library}
use sudostream.Access.Service.Prune.{prune_missing_roots}
use sudostream.Access.Service.UserGrants.{set_user_grants}
use sudostream.Access.Store.{
  Database, has_id, if_present, is_root, LibraryRow, list_libraries, RootRow, Server,
}
use sudostream.Access.Store.Exclusive.{Exclusive, Exclusive-owner}
use sudostream.Access.Types.{GrantInput, Library, ok}
use sudostream.Prelude.{[], Bool, keep, length, List, Option, subst, ◌≡◌, ◌≤◌}
use sudostream.Text.{Bytes}
use sudostream.Access.Store

-- What an administrator can do to the registry. Calls that fail change nothing, but for the
-- removals, which are steps whatever they answer.
pub data Step (server : Server) (pieces : Bytes → List (Bool × Bytes))
    : Database → Database → Type 0 where
  created :
      (new_id name slug type_raw : Bytes) {db db' : Database} {library : Library}
      → create_library pieces server new_id db name slug type_raw ≡ ok (db', library)
      → Step server pieces db db'
  rooted :
      (id path : Bytes) {db db' : Database} {library : Library}
      → add_root server db id path ≡ ok (db', library)
      → Step server pieces db db'
  unrooted :
      (id path : Bytes) (db : Database) → Step server pieces db (remove_root server db id path).0
  deleted :
      (id : Bytes) {db db' : Database}
      → Store.delete_library db id ≡ ok db'
      → Step server pieces db db'
  updated :
      (id : Bytes) (name type : Option Bytes) {db db' : Database} {library : Library}
      → update_library server db id name type ≡ ok (db', library)
      → Step server pieces db db'
  granted :
      (user : Bytes) (role : Role) (gs : List GrantInput) {db db' : Database}
      → set_user_grants server db user role gs ≡ ok db'
      → Step server pieces db db'
  pruned :
      (present : Bytes → Bool) (db : Database)
      → Step server pieces db (prune_missing_roots server present db).0

pub data Reach (server : Server) (pieces : Bytes → List (Bool × Bytes)) (start : Database)
    : Database → Type 0 where
  here : Reach server pieces start start
  next :
      {a b : Database}
      → Reach server pieces start a
      → Step server pieces a b
      → Reach server pieces start b

Step-Exclusive :
    {server : Server} {pieces : Bytes → List (Bool × Bytes)} {a b : Database}
    → Step server pieces a b
    → Exclusive a.roots
    → Exclusive b.roots
unfolding prune_missing_roots
Step-Exclusive {server} {pieces} (created new_id name slug type_raw {db} e) ex =
    subst Exclusive (create_library-roots pieces server new_id db name slug type_raw e) ex
Step-Exclusive {server} (rooted id path {db} e) ex =
    service_add_root-Exclusive server db id path ex e
Step-Exclusive {server} (unrooted id path db) ex = remove_root-Exclusive server db id path ex
Step-Exclusive (deleted id {db} e) ex = delete_library-Exclusive db id ex e
Step-Exclusive {server} (updated id name type {db} e) ex =
    subst Exclusive (update_library-roots server db id name type e) ex
Step-Exclusive {server} (granted user role gs {db} e) ex =
    subst Exclusive (set_user_grants-roots server db user role gs e) ex
Step-Exclusive {server} (pruned present db) ex =
    prune_libraries-Exclusive server present (list_libraries server db) db [] 0 ex

pub Reach-Exclusive :
    {server : Server} {pieces : Bytes → List (Bool × Bytes)} {start db : Database}
    → Reach server pieces start db
    → Exclusive start.roots
    → Exclusive db.roots
Reach-Exclusive here ex = ex
Reach-Exclusive (next r s) ex = Step-Exclusive s (Reach-Exclusive r ex)

-- From any registry whose roots are apart, whatever administrators do, in any order, at most one
-- registered root holds a path.
pub Reach-owner :
    {server : Server} {pieces : Bytes → List (Bool × Bytes)} {start db : Database} (path : Bytes)
    → Exclusive start.roots
    → Reach server pieces start db
    → length (keep (λ r. path_within_root path r.rel_path) db.roots) ≤ 1
Reach-owner {db = db} path ex r = Exclusive-owner path db.roots (Reach-Exclusive r ex)
