-- ===== src/MediaFs/Trash/Moving.antt =====
-- What MoveToTrash has checked and done where it succeeds (internal/mediafs/trash.go).
use sudostream.MediaFs.Trash.{
  plan_target, validate_trash_item_id, trash_dir_name, is_trash_rel_path, resolve_on, or_missing,
  plan_move,
}
use sudostream.MediaFs.Os.{not_exist, Node, FilePath}
use sudostream.MediaFs.{
  fail, Fallible, os, trash_forbidden, path_join, os_path, stat, false, is_empty, some, done, Disk,
  Option, Service, FsError,
}
use sudostream.Prelude.{
  sym, ap, done-eq, refuse_if-done, refl, none, >>=-done, ◌||◌, ◌≡◌, [], ◌∷◌, ◌>>=◌,
}
use sudostream.Text.{Bytes}
use sudostream.MediaFs.Trash.{Planned, trash_dir_name}

or_missing-done :
    (e : FsError) (o : Option Node) → or_missing e o ≡ done tt → (n : Node) × (o ≡ some n)
or_missing-done e none h = absurd (cc)
or_missing-done e (some n) h = (n, refl)

resolved-done :
    (full rel trash_rel : Bytes) (r : Fallible FsError (Bytes × Bytes)) {source target' : FilePath}
    {rel' trash_rel' : Bytes}
    → (◌>>=◌ {U = Planned} r
          (λ (dest : Bytes × Bytes). done (os_path full, os_path dest.0, rel, trash_rel))
        ≡ done (source, target', rel', trash_rel'))
    → (dest : Bytes × Bytes) × (r ≡ done dest)
      × (source ≡ os_path full)
      × (target' ≡ os_path dest.0)
      × (rel' ≡ rel)
      × (trash_rel' ≡ trash_rel)
resolved-done full rel trash_rel (fail e) h = absurd (cc)
resolved-done full rel trash_rel (done dest) h =
    let e = done-eq h in
    (
      dest,
      refl,
      sym (ap (λ (p : Planned). p.0) e),
      sym (ap (λ (p : Planned). p.1) e),
      sym (ap (λ (p : Planned). p.2) e),
      sym (ap (λ (p : Planned). p.3) e),
    )

module _ (s : Service) (id : Bytes) (d : Disk) where
  pub plan_target-done :
      (full rel : Bytes) {source target : FilePath} {rel' trash_rel : Bytes}
      → plan_target s id full rel d ≡ done (source, target, rel', trash_rel)
      → ((is_empty rel || is_trash_rel_path rel) ≡ false)
        × ((n : Node) × (stat d (os_path full) ≡ some n))
        × ((dest : Bytes × Bytes) × (resolve_on s d (path_join (trash_dir_name ∷ (id ∷ (rel ∷ []))))
              ≡ done dest)
            × (source ≡ os_path full)
            × (target ≡ os_path dest.0)
            × (rel' ≡ rel)
            × (trash_rel ≡ path_join (trash_dir_name ∷ (id ∷ (rel ∷ [])))))
  unfolding plan_target
  plan_target-done full rel h =
      let (allowed, h1) =
        refuse_if-done (is_empty rel || is_trash_rel_path rel) trash_forbidden _ h in
      let (u, there, h2) = >>=-done (or_missing (os not_exist) (stat d (os_path full))) _ h1 in
      (
        allowed,
        or_missing-done (os not_exist) (stat d (os_path full)) there,
        resolved-done full rel _ _ h2,
      )

  pub plan_move-done :
      (raw : Bytes) {source target : FilePath} {rel trash_rel : Bytes}
      → plan_move s raw id d ≡ done (source, target, rel, trash_rel)
      → (full : Bytes) × (rel' : Bytes) × (validate_trash_item_id id ≡ done tt)
        × (resolve_on s d raw ≡ done (full, rel'))
        × (plan_target s id full rel' d ≡ done (source, target, rel, trash_rel))
  unfolding plan_move
  plan_move-done raw h =
      let (u, valid, h1) = >>=-done (validate_trash_item_id id) _ h in
      let (fr, resolved, h2) = >>=-done (resolve_on s d raw) _ h1 in
      (fr.0, fr.1, valid, resolved, h2)
