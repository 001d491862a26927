-- ===== src/Access/Service/Permissions.antt =====
-- Who is let through: checkPermission and what rests on it (internal/access/service.go).
use sudostream.Access.Path.{canonical_rel_path, match_library}
use sudostream.Access.Path.Match.{match_library-some, NotLonger}
use sudostream.Access.Path.Best.{Owns, candidates}
use sudostream.Access.Service.{
  ℕ, List, check_permission, is_admin, permissions_for_path, PublicUser,
}
use sudostream.Access.Store.{Database, list_libraries, Server}
use sudostream.Access.Store.UserGrants.{lookup_grant, user_grant_map}
use sudostream.Access.Types.{Library, LibraryPermissions, ok}
use sudostream.Prelude.{
  All, Any, [], ap, arith, Bool, Bool-cases, false, inl, inr, Option-cases, some, true, ◌↔◌, ◌≡◌,
  ◌≢◌,
}
use sudostream.Text.{Bytes, is_empty}
use sudostream.Text.Laws.Clean.{is_empty_of_ne}

-- A library has a root that the path `twice` lies within, and no registered root that it lies within
-- is longer.
abbrev pub Holds : List Library → Library → Bytes → Type 0
Holds libraries library twice =
    (n : ℕ) × Any (Owns twice library n) (candidates libraries)
    × All (NotLonger twice n) (candidates libraries)

-- What lets a user through: `canonical` is the canonical path, `twice` the canonical path of that,
-- which is another one where `canonical` has escapes left; the library that MatchLibrary picks
-- holds `twice`, and the user has a grant for this library that passes the check.
pub record Granted (server : Server) (db : Database) (user_id raw : Bytes)
    (check : LibraryPermissions → Bool) : Type 0 where
  pub canonical : Bytes
  pub library : Library
  pub permissions : LibraryPermissions
  pub twice : Bytes
  pub decoded : canonical_rel_path raw ≡ some canonical
  pub below_root : canonical ≢ []
  pub decoded_again : canonical_rel_path canonical ≡ some twice
  pub held : Holds (list_libraries server db) library twice
  pub owned : match_library (list_libraries server db) canonical ≡ some library
  pub granted : lookup_grant library.id (user_grant_map db user_id) ≡ some permissions
  pub passes : check permissions ≡ true

-- checkPermission lets a user other than an admin through exactly where the path has a canonical
-- form, which is not the media root, MatchLibrary finds a library for this form, and the user has a
-- grant for this library that passes the check; all else is denied or an error. As MatchLibrary
-- canonicalises the form once more, it is the path that comes of this second step that lies within
-- a root of the library, and within no longer root of any.
pub check_permission_iff :
    (server : Server) (db : Database) (user : PublicUser) (raw : Bytes)
    (check : LibraryPermissions → Bool)
    → is_admin user.role ≡ false
    → (check_permission server db user raw check ≡ ok true) ↔ Granted server db user.id raw check
unfolding check_permission permissions_for_path
check_permission_iff server db user raw check plain = (forward, backward)
  where
    forward :
        check_permission server db user raw check ≡ ok true → Granted server db user.id raw check
    forward h = elim (Option-cases (canonical_rel_path raw)) [
      | inl e ↦ absurd (ground (arith, h, e))
      | inr (canonical, e) ↦ elim (Bool-cases (is_empty canonical)) [
        | inl root ↦ absurd (ground (arith, h, e, root))
        | inr sub ↦ elim (Option-cases (match_library (list_libraries server db) canonical)) [
          | inl m ↦ absurd (ground (arith, h, e, sub, m))
          | inr (library, m) ↦
              elim (Option-cases (lookup_grant library.id (user_grant_map db user.id))) [
                | inl g ↦ absurd (ground (arith, h, e, sub, m, g))
                | inr (permissions, g) ↦
                    let (twice, n, again, owns, longest) =
                      match_library-some (list_libraries server db) canonical {library = library}
                        m in
                    record {
                      canonical = canonical;
                      library = library;
                      permissions = permissions;
                      twice = twice;
                      decoded_again = again;
                      held = (n, owns, longest);
                      decoded = e;
                      below_root = λ z. ground (arith, ap is_empty z);
                      owned = m;
                      granted = g;
                      passes = ground (arith, h, e, sub, m, g);
                    }
              ]
        ]
      ]
    ]

    backward :
        Granted server db user.id raw check → check_permission server db user raw check ≡ ok true
    backward g = ground (arith, is_empty_of_ne g.canonical g.below_root)
