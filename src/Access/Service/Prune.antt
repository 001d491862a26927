-- ===== src/Access/Service/Prune.antt =====
-- internal/access/service.go: roots whose folder is gone.
use sudostream.Access.Store.{Database, list_libraries, Server}
use sudostream.Access.Types.{err, Library, library_not_found, ok, Result, root_paths}
use sudostream.Prelude.{[], Bool, false, length, List, none, Option, some, true, ℕ, ◌++◌, ◌+◌, ◌∷◌}
use sudostream.Text.{Bytes}
use sudostream.Access.Store.Roots

-- pruneLibraryRoots: `present` says of a root whether it is a directory. The result is the
-- library that is left, if one is, and how many roots were dropped.
abbrev pub Pruned : Type 0
Pruned = Database × Result (Option Library × ℕ)

-- What one removal answers; `next` goes on with the library as it is now.
abbrev pub pruned_by : ℕ → (Database → Library → Pruned) → Database × Result Library → Pruned
pruned_by removed next (db, ok updated) = next db updated
pruned_by removed next (db, err library_not_found) = (db, ok (none, removed + 1))
pruned_by removed next (db, err e) = (db, err e)

unfoldable pub prune_library_roots :
    Server → (Bytes → Bool) → Database → Bytes → Option Library → ℕ → List Bytes → Pruned
prune_library_roots server present db id current removed [] = (db, ok (current, removed))
prune_library_roots server present db id current removed (root ∷ roots) = elim (present root) [
  | true ↦ prune_library_roots server present db id current removed roots
  | false ↦
      pruned_by removed
        (λ db' updated.
          prune_library_roots server present db' id (some updated) (removed + 1) roots)
        (Roots.remove_root server db id root)
]

pub record SyncLibrariesResult : Type 0 where
  pub libraries : List Library
  pub added : ℕ
  pub removed : ℕ
  pub kept : ℕ

abbrev pub append_some : List Library → Option Library → List Library
append_some libraries none = libraries
append_some libraries (some library) = libraries ++ (library ∷ [])

abbrev pub pruned_next :
    List Library
    → ℕ
    → (Database → List Library → ℕ → Database × Result SyncLibrariesResult)
    → Pruned
    → Database × Result SyncLibrariesResult
pruned_next kept removed next (db, ok (library, dropped)) =
    next db (append_some kept library) (removed + dropped)
pruned_next kept removed next (db, err e) = (db, err e)

-- The loop of PruneMissingRoots.
unfoldable pub prune_libraries :
    Server
    → (Bytes → Bool)
    → Database
    → List Library
    → ℕ
    → List Library
    → Database × Result SyncLibrariesResult
prune_libraries server present db kept removed [] =
    (db, ok (record { libraries = kept; added = 0; removed = removed; kept = length kept }))
prune_libraries server present db kept removed (library ∷ libraries) =
    pruned_next kept removed
      (λ db' kept' removed'. prune_libraries server present db' kept' removed' libraries)
      (prune_library_roots server present db library.id (some library) 0 (root_paths library))

-- PruneMissingRoots and SyncLibraries
unfoldable pub prune_missing_roots :
    Server → (Bytes → Bool) → Database → Database × Result SyncLibrariesResult
prune_missing_roots server present db =
    prune_libraries server present db [] 0 (list_libraries server db)
