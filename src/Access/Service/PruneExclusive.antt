-- ===== src/Access/Service/PruneExclusive.antt =====
-- Dropping the roots whose folder is gone keeps the others apart (internal/access/service.go).
use sudostream.Access.Service.RootsExclusive.{store_remove_root-Exclusive}
use sudostream.Access.Service.Prune.{
  prune_libraries, prune_library_roots, Pruned, pruned_by, pruned_next, SyncLibrariesResult,
}
use sudostream.Access.Store.{Database, Server}
use sudostream.Access.Store.Exclusive.{Exclusive}
use sudostream.Access.Types.{err, Library, library_not_found, ok, Result, root_paths}
use sudostream.Prelude.{[], Bool, Bool-cases, inl, inr, List, Option, some, ℕ, ◌+◌, ◌∷◌}
use sudostream.Text.{Bytes}
use sudostream.Access.Store.Roots

pruned_by-Exclusive :
    (removed : ℕ) (next : Database → Library → Pruned) (r : Database × Result Library)
    → ((d : Database) (l : Library) → Exclusive d.roots → Exclusive (next d l).0.roots)
    → Exclusive r.0.roots
    → Exclusive (pruned_by removed next r).0.roots
pruned_by-Exclusive removed next (db, ok l) h ex = h db l ex
pruned_by-Exclusive removed next (db, err library_not_found) h ex = ex
pruned_by-Exclusive removed next (db, err e) h ex = ex

prune_library_roots-Exclusive :
    (server : Server) (present : Bytes → Bool) (id : Bytes) (roots : List Bytes) (db : Database)
    (current : Option Library) (removed : ℕ)
    → Exclusive db.roots
    → Exclusive (prune_library_roots server present db id current removed roots).0.roots
unfolding prune_library_roots
prune_library_roots-Exclusive server present id [] db current removed ex = ex
prune_library_roots-Exclusive server present id (root ∷ roots) db current removed ex =
    elim (Bool-cases (present root)) [
      | inl t ↦
          rw (t, prune_library_roots)
            (prune_library_roots-Exclusive server present id roots db current removed ex)
      | inr f ↦
          rw (f, prune_library_roots)
            (pruned_by-Exclusive removed
              (λ d l. prune_library_roots server present d id (some l) (removed + 1) roots)
              (Roots.remove_root server db id root)
              (λ d l.
                prune_library_roots-Exclusive server present id roots d (some l) (removed + 1))
              (store_remove_root-Exclusive server db id root ex))
    ]

pruned_next-Exclusive :
    (kept : List Library) (removed : ℕ)
    (next : Database → List Library → ℕ → Database × Result SyncLibrariesResult) (r : Pruned)
    → ((d : Database) (k : List Library) (n : ℕ)
        → Exclusive d.roots
        → Exclusive (next d k n).0.roots)
    → Exclusive r.0.roots
    → Exclusive (pruned_next kept removed next r).0.roots
pruned_next-Exclusive kept removed next (db, ok (l, n)) h ex = h db _ _ ex
pruned_next-Exclusive kept removed next (db, err e) h ex = ex

pub prune_libraries-Exclusive :
    (server : Server) (present : Bytes → Bool) (libraries : List Library) (db : Database)
    (kept : List Library) (removed : ℕ)
    → Exclusive db.roots
    → Exclusive (prune_libraries server present db kept removed libraries).0.roots
unfolding prune_libraries
prune_libraries-Exclusive server present [] db kept removed ex = ex
prune_libraries-Exclusive server present (l ∷ ls) db kept removed ex =
    pruned_next-Exclusive kept removed (λ d k n. prune_libraries server present d k n ls)
      (prune_library_roots server present db l.id (some l) 0 (root_paths l))
      (λ d k n. prune_libraries-Exclusive server present ls d k n)
      (prune_library_roots-Exclusive server present l.id (root_paths l) db (some l) 0 ex)
