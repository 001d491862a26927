-- ===== src/Access/Tests/Registry.antt =====
-- Runs on a small registry, and the theorems about registries applied to it.
use sudostream.Access.Tests.Samples.{
  films_row, films, sample_like-LikeLaws, viewer, db, read_only, server,
}
use sudostream.Access.Path.{
  is_hidden_rel_path, is_trash_rel_path, normalize_rel_path, path_within_root,
}
use sudostream.Access.Service.{check_permission}
use sudostream.Access.Service.Libraries.{search_libraries, search_roots, validate_root_path}
use sudostream.Access.Service.Permissions.{check_permission_iff, Granted}
use sudostream.Access.Service.Registry.{Reach, Reach-owner, Step}
use sudostream.Access.Store.{
  allocate_slug, cascade_library, create_library, Database, delete_library, get_library,
  library_from_model, list_libraries, roots_of,
}
use sudostream.Access.Store.AddRoot.{add_root-Exclusive}
use sudostream.Access.Store.Exclusive.{Exclusive}
use sudostream.Access.Store.Grants.{
  delete_library-create_library, replace_user_grants_lem, requested,
}
use sudostream.Access.Store.Like.{below_of_underscore, IsPlain}
use sudostream.Access.Store.Roots.{
  add_root, add_root_rows, already_covered, below, claim_root, conflicting_root, exact_root,
  insert_root, subsume,
}
use sudostream.Access.Store.UserGrants.{
  insert_grant, insert_grants, lookup_grant, replace_user_grants, user_grant_map,
}
use sudostream.Access.Types.{Library, GrantInput, is_empty_permissions, ok, root_paths}
use sudostream.Prelude.{[], arith, keep, length, List, none, refl, true, ℕ, ◌↔◌, ◌∷◌, ◌≡◌, ◌≤◌}
use sudostream.Text.{bytes_eq, codes, contains, has_prefix, split, trim_slash, trim_space}
use sudostream.Access.Service.Libraries

check_permission_iff_example :
    (check_permission server db viewer (codes "films/x.mkv") (λ p. p.read) ≡ ok true)
    ↔ Granted server db (codes "u") (codes "films/x.mkv") (λ p. p.read)
check_permission_iff_example =
    check_permission_iff server db viewer (codes "films/x.mkv") (λ p. p.read) refl

letter : (c : ℕ) → b'a' ≤ c → c ≤ b'z' → IsPlain c
letter c h k = record {
  not_percent = omega arith;
  not_underscore = omega arith;
  not_backslash = omega arith;
}

abbrev new_grants : List GrantInput
new_grants = record { library_id = codes "1"; permissions = read_only } ∷ []

abbrev ungranted : Database
ungranted = record db { grants = [] }

grants_replaced : replace_user_grants db (codes "u") new_grants ≡ ok db
unfolding replace_user_grants insert_grants insert_grant is_empty_permissions bytes_eq
grants_replaced = refl

replace_user_grants_lem_example :
    (user_grant_map db (codes "u") ≡ requested new_grants)
    × (user_grant_map db (codes "") ≡ user_grant_map db (codes ""))
replace_user_grants_lem_example =
    replace_user_grants_lem db (codes "u") (codes "") new_grants {db' = db} (λ e. cc)
      grants_replaced

abbrev bare : Database
bare = record db { libraries = []; roots = []; grants = [] }

films_deleted : delete_library db (codes "1") ≡ ok bare
unfolding delete_library cascade_library bytes_eq
films_deleted = refl

-- A new library that draws the id of the one that was deleted.
abbrev renewed : Database
renewed = record bare { libraries = films_row ∷ [] }

abbrev films_alone : Library
films_alone = record films { rel_path = []; roots = [] }

films_created : create_library server (codes "1") bare films ≡ ok (renewed, films_alone)
unfolding create_library get_library library_from_model roots_of bytes_eq allocate_slug
films_created = refl

delete_library-create_library_example :
    (lookup_grant (codes "1") (user_grant_map renewed (codes "u")) ≡ none)
    × (lookup_grant (codes "2") (user_grant_map renewed (codes "u"))
        ≡ lookup_grant (codes "2") (user_grant_map db (codes "u")))
delete_library-create_library_example =
    delete_library-create_library server db (codes "1") (codes "2") (codes "u") films {db' = bare}
      {made = renewed} {created = films_alone} films_deleted films_created (unfold bytes_eq in refl)

below_of_underscore_example :
    below server
      (codes "1")
      (codes "a_b")
      (record { user_id = []; library_id = codes "1"; rel_path = codes "axb/y" })
    ≡ true
below_of_underscore_example =
    below_of_underscore server (codes "1") (codes "a") (codes "b") (codes "y") [] b'x'
      sample_like-LikeLaws (letter _ (omega arith) (omega arith), tt)
      (letter _ (omega arith) (omega arith), tt) (omega arith)

abbrev rootless : Database
rootless = record db { roots = [] }

films_rooted : Libraries.add_root server rootless (codes "1") (codes "films") ≡ ok (db, films)
unfolding Libraries.add_root add_root add_root_rows get_library list_libraries library_from_model
    roots_of already_covered claim_root exact_root conflicting_root subsume insert_root
    validate_root_path search_libraries search_roots root_paths normalize_rel_path bytes_eq
    trim_slash trim_space contains has_prefix is_hidden_rel_path is_trash_rel_path split
films_rooted = refl

films_reached :
    Reach server (λ s. []) rootless (Libraries.remove_root server db (codes "1") (codes "music")).0
films_reached =
    Reach.next (Reach.next Reach.here (Step.rooted (codes "1") (codes "films") films_rooted))
      (Step.unrooted (codes "1") (codes "music") db)

Reach-owner_example :
    length (
      keep
        (λ r. path_within_root (codes "films/x") r.rel_path)
        (Libraries.remove_root server db (codes "1") (codes "music")).0.roots)
    ≤ 1
Reach-owner_example = Reach-owner (codes "films/x") tt films_reached

films_added : add_root server rootless (codes "1") (codes "films") ≡ ok (db, films)
unfolding add_root add_root_rows get_library library_from_model roots_of already_covered claim_root
    exact_root conflicting_root subsume insert_root root_paths normalize_rel_path bytes_eq
    trim_slash trim_space has_prefix
films_added = refl

add_root-Exclusive_example : Exclusive db.roots
add_root-Exclusive_example =
    add_root-Exclusive server rootless (codes "1") (codes "films") {db' = db} {library = films} tt
      films_added
