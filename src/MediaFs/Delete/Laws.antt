-- ===== src/MediaFs/Delete/Laws.antt =====
-- What Delete does, on every branch (internal/mediafs/delete.go).
use sudostream.MediaFs.Os.Renames.{remove_all-removed}
use sudostream.MediaFs.Os.Views.{find-drop_within, find-drop_loose}
use sudostream.MediaFs.Os.RoundTrip.{find-drop_within_apart}
use sudostream.Prelude.{
  sym, subst, ap, ◌∙◌, Option-cases, arith, inr, Bool-cases, refl, inl, Fallible-cases, ◌⊎◌, ◌≡◌,
  [], ◌∷◌, none,
}
use sudostream.Text.{Bytes}
use sudostream.MediaFs.{
  OsError, Fallible, some, true, false, done, fail, Option, Bool, resolve, eval_plain, FsError,
  Service,
}
use sudostream.MediaFs.Os.{
  removed, first_stuck, stays, drop_loose, is_some, write_denied, read_dir, remove, remove_all,
  drop_within, with_entries, Disk, FilePath, Node, dir, file, stat, os_path, within, children_of,
  is_empty_list,
}
use sudostream.MediaFs.Delete.{
  then_removed, delete_error, then_on, delete_listed, read_dir, remove, remove_all, OnDisk, delete,
  delete_node,
}

-- What a failed removal of a directory that holds something the system cannot remove may leave: all
-- that does not lie at or below `p` is as it was, and what does is as it was or gone.
abbrev pub Partly : FilePath → Bool → Disk → Disk → Type 0
Partly p recursive d left =
    (stat d p ≡ some dir)
    × (is_some (first_stuck p d.stuck d.entries) ≡ true)
    × ((recursive ≡ true) ⊎ (is_empty_list (children_of p d.entries) ≡ true))
    × ((q : FilePath) → within p q ≡ false → stat left q ≡ stat d q)
    × ((q : FilePath) → (stat left q ≡ stat d q) ⊎ (stat left q ≡ none))

-- What a Delete of the path `p` may leave: with an error, all as it was, or part of a directory; or
-- all but what lay at or below `p`, where `p` was a file or an empty directory, or `recursive` is
-- set.
abbrev pub Deleted : FilePath → Bool → Disk → OnDisk (Unit {0}) → Type 0
Deleted p recursive d (fail e, left) = (left ≡ d) ⊎ Partly p recursive d left
Deleted p recursive d (done u, left) =
    ((q : FilePath) → within p q ≡ false → stat left q ≡ stat d q)
    × ((x : Bytes) (q : FilePath) → within p (x ∷ q) ≡ true → stat left (x ∷ q) ≡ none)
    × ((recursive ≡ true)
        ⊎ (((b : Bytes) × (stat d p ≡ some (file b)))
            ⊎ (is_empty_list (children_of p d.entries) ≡ true)))

abbrev dropped : FilePath → Disk → Disk
dropped p d = with_entries d (drop_within p d.entries)

dropped-apart :
    (p : FilePath) (d : Disk) (q : FilePath) → within p q ≡ false → stat (dropped p d) q ≡ stat d q
unfolding stat
dropped-apart p d [] h = refl
dropped-apart p d (x ∷ q) h = find-drop_within_apart (x ∷ q) p d.entries h

dropped-gone :
    (p : FilePath) (d : Disk) (x : Bytes) (q : FilePath)
    → within p (x ∷ q) ≡ true
    → stat (dropped p d) (x ∷ q) ≡ none
unfolding stat
dropped-gone p d x q h = rw (find-drop_within (x ∷ q) p d.entries, h) refl

-- What os.RemoveAll leaves where it cannot remove all.
abbrev loosened : FilePath → Disk → Disk
loosened p d = with_entries d (drop_loose p d.stuck d.entries d.entries)

loosened-apart :
    (p : FilePath) (d : Disk) (q : FilePath) → within p q ≡ false → stat (loosened p d) q ≡ stat d q
unfolding stat
loosened-apart p d [] h = refl
loosened-apart p d (x ∷ q) h = rw (find-drop_loose (x ∷ q) p d.stuck d.entries d.entries, h) refl

loosened-cases :
    (p : FilePath) (d : Disk) (q : FilePath)
    → (stat (loosened p d) q ≡ stat d q) ⊎ (stat (loosened p d) q ≡ none)
unfolding stat
loosened-cases p d [] = inl refl
loosened-cases p d (x ∷ q) = elim (Bool-cases (stays p d.stuck d.entries (x ∷ q))) [
  | inl t ↦ inl (find-drop_loose (x ∷ q) p d.stuck d.entries d.entries ∙ rw t refl)
  | inr f ↦ inr (find-drop_loose (x ∷ q) p d.stuck d.entries d.entries ∙ rw f refl)
]

remove_all-Deleted :
    (p : FilePath) (recursive : Bool) (d : Disk)
    → stat d p ≡ some dir
    → (recursive ≡ true) ⊎ (is_empty_list (children_of p d.entries) ≡ true)
    → Deleted p recursive d (then_removed (remove_all p d) delete_error)
remove_all-Deleted p recursive d e why =
    subst (λ r. Deleted p recursive d (then_removed r delete_error))
      (sym (remove_all-removed p d e))
      (by_removed d.read_only (first_stuck p d.stuck d.entries) refl)
  where
    reason :
        (recursive ≡ true) ⊎ (is_empty_list (children_of p d.entries) ≡ true)
        → (recursive ≡ true)
          ⊎ (((b : Bytes) × (stat d p ≡ some (file b)))
              ⊎ (is_empty_list (children_of p d.entries) ≡ true))
    reason (inl r) = inl r
    reason (inr n) = inr (inr n)

    by_removed :
        (b : Bool) (s : Option OsError)
        → first_stuck p d.stuck d.entries ≡ s
        → Deleted p recursive d (then_removed (removed p d b s) delete_error)
    by_removed true s g = inl refl
    by_removed false none g = (dropped-apart p d, dropped-gone p d, reason why)
    by_removed false (some x) g = inr (e, ap is_some g, why, loosened-apart p d, loosened-cases p d)

remove-dropped :
    (p : FilePath) (d : Disk) {b : Bytes}
    → stat d p ≡ some (file b)
    → ((e : OsError) × (remove p d ≡ fail e)) ⊎ (remove p d ≡ done (dropped p d))
unfolding remove
remove-dropped p d e = elim (Bool-cases d.read_only) [
  | inl t ↦ inl (write_denied, ground arith)
  | inr f ↦ elim (Option-cases (d.stuck p)) [
    | inl g ↦ inr (ground arith)
    | inr (x, g) ↦ inl (x, ground arith)
  ]
]

-- A removal that fails or leaves the disk without `p`.
removal-Deleted :
    (p : FilePath) (recursive : Bool) (d : Disk) (r : Fallible OsError Disk)
    → ((e : OsError) × (r ≡ fail e)) ⊎ (r ≡ done (dropped p d))
    → (recursive ≡ true)
      ⊎ (((b : Bytes) × (stat d p ≡ some (file b)))
          ⊎ (is_empty_list (children_of p d.entries) ≡ true))
    → Deleted p recursive d (then_on r delete_error d λ left. (done tt, left))
removal-Deleted p recursive d r (inl (e, g)) why = rw g (inl refl)
removal-Deleted p recursive d r (inr g) why = rw g (dropped-apart p d, dropped-gone p d, why)

delete_listed-Deleted :
    (p : FilePath) (recursive : Bool) (d : Disk)
    → stat d p ≡ some dir
    → Deleted p recursive d (delete_listed p recursive d (children_of p d.entries))
delete_listed-Deleted p recursive d e =
    elim (Bool-cases (is_empty_list (children_of p d.entries))) [
      | inl t ↦ rw t (remove_all-Deleted p recursive d e (inr t))
      | inr f ↦ elim (Bool-cases recursive) [
        | inl t ↦ rw (f, t) (remove_all-Deleted p true d e (inl refl))
        | inr g ↦ rw (f, g) (inl refl)
      ]
    ]

delete_node-Deleted :
    (p : FilePath) (recursive : Bool) (d : Disk) (o : Option Node)
    → stat d p ≡ o
    → Deleted p recursive d (delete_node p recursive d o)
unfolding read_dir
delete_node-Deleted p recursive d none e = inl refl
delete_node-Deleted p recursive d (some dir) e =
    rw (e, read_dir) (delete_listed-Deleted p recursive d e)
delete_node-Deleted p recursive d (some (file b)) e =
    removal-Deleted p recursive d (remove p d) (remove-dropped p d e) (inr (inl (b, e)))

-- Where the path does not resolve, Delete fails and changes nothing. Where it does, Delete succeeds
-- and removes what lies at or below it and nothing else, which without `recursive` is a file or an
-- empty directory; or it fails and changes nothing; or, where the path is a directory that holds
-- something the system cannot remove, it fails and may have removed part of what lies at or below the
-- path, and nothing else.
pub delete-Deleted :
    (s : Service) (raw : Bytes) (recursive : Bool) (d : Disk)
    → ((full : Bytes) × (rel : Bytes) × (resolve (eval_plain d) s raw ≡ done (full, rel))
        × Deleted (os_path full) recursive d (delete s raw recursive d))
      ⊎ ((e : FsError) × (resolve (eval_plain d) s raw ≡ fail e)
          × (delete s raw recursive d ≡ (fail e, d)))
unfolding delete
delete-Deleted s raw recursive d = elim (Fallible-cases (resolve (eval_plain d) s raw)) [
  | inl (r, e) ↦ inl (
    r.0,
    r.1,
    e,
    rw e (delete_node-Deleted (os_path r.0) recursive d (stat d (os_path r.0)) refl),
  )
  | inr (x, e) ↦ inr (x, e, rw e refl)
]
