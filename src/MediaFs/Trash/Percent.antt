-- ===== src/MediaFs/Trash/Percent.antt =====
-- What MoveToTrash does to a name with a percent sign (internal/mediafs/trash.go), since it resolves
-- and so unescapes a path that is unescaped already.
use sudostream.MediaFs.Trash.Moved.{trash-IsProper}
use sudostream.MediaFs.Resolve.Plain.{resolve-done_plain, trim_slash-join}
use sudostream.Text.Laws.Clean.{IsProper}
use sudostream.Text.Laws.Decide.{free_of→IsLiteral, IsLiteral}
use sudostream.Prelude.{
  sym, subst, done-eq, inl, inr, ◌∙◌, refl, Fallible-cases, ap, arith, ◌≢◌, ◌++◌, ℕ, All, ◌≡◌, [],
  ◌∷◌, none,
}
use sudostream.Text.{join, path_unescape, Bytes}
use sudostream.MediaFs.{
  fail, path_join, some, done, slash, join, List, path_unescape, resolve, eval_plain, FsError,
}
use sudostream.MediaFs.Resolve.{service_of}
use sudostream.MediaFs.Os.{Disk}
use sudostream.MediaFs.Trash.{trash_dir_name, move_to_trash, plan_move}
use sudostream.MediaFs.Trash.Done.{trashed, path_join-trashed}
use sudostream.MediaFs.Trash.Moving.{plan_move-done, plan_target-done}

path_unescape_after :
    (c : ℕ) (s : Bytes) → c ≢ b'%' → path_unescape s ≡ none → path_unescape (c ∷ s) ≡ none
unfolding path_unescape
path_unescape_after c [] n h = ground arith
path_unescape_after c (a ∷ []) n h = ground arith
path_unescape_after c (a ∷ (b ∷ s)) n h = ground arith

path_unescape-append_none :
    (a s : Bytes) → IsLiteral a → path_unescape s ≡ none → path_unescape (a ++ s) ≡ none
path_unescape-append_none [] s h e = e
path_unescape-append_none (c ∷ a) s h e =
    path_unescape_after c (a ++ s) h.0.0 (path_unescape-append_none a s h.1 e)

unescapes_nil : path_unescape (join slash []) ≡ some []
unfolding path_unescape join
unescapes_nil = refl

module _ (r : Bytes) (rs : List Bytes) (root_proper : All IsProper (r ∷ rs)) (id : Bytes)
    (id_proper : IsProper id) (id_literal : IsLiteral id) where
  trashed-none :
      (x : Bytes) (xs : List Bytes)
      → path_unescape (join slash (x ∷ xs)) ≡ none
      → path_unescape (join slash (trashed id (x ∷ xs))) ≡ none
  unfolding join
  trashed-none x xs e =
      path_unescape-append_none (trash_dir_name ++ (slash ∷ []))
        (id ++ (slash ∷ join slash (x ∷ xs)))
        (free_of→IsLiteral (trash_dir_name ++ (slash ∷ [])) refl)
        (path_unescape-append_none id (slash ∷ join slash (x ∷ xs)) id_literal
          (path_unescape_after slash (join slash (x ∷ xs)) (λ q. omega arith) e))

  unplanned :
      (raw : Bytes) (d : Disk) (full rel : Bytes) (segs : List Bytes) (dest : Bytes × Bytes)
      → All IsProper segs
      → rel ≡ join slash segs
      → path_unescape rel ≡ none
      → resolve (eval_plain d) (service_of r rs) (path_join (trash_dir_name ∷ (id ∷ (rel ∷ []))))
        ≡ done dest
      → ⊥
  unfolding resolve
  unplanned raw d full rel [] dest p e n h = cc (n, ap path_unescape e, unescapes_nil)
  unplanned raw d full rel (x ∷ xs) dest p e n h =
      let joined =
        ap (λ z. path_join (trash_dir_name ∷ (id ∷ (z ∷ [])))) e
        ∙ path_join-trashed r rs root_proper id id_proper id_literal x xs p in
      absurd (
        cc (
          rw
            (
              joined,
              trim_slash-join (trashed id (x ∷ xs)) (trash-IsProper, (id_proper, p)),
              trashed-none x xs (subst (λ z. path_unescape z ≡ none) e n),
            )
            at h))

  -- Where the unescaped path has a percent sign with no two hexadecimal digits behind it,
  -- MoveToTrash fails and changes nothing: the file cannot be moved to the trash by any path that
  -- resolves to it.
  pub move_to_trash-percent :
      (raw : Bytes) (d : Disk) {full rel : Bytes}
      → resolve (eval_plain d) (service_of r rs) raw ≡ done (full, rel)
      → path_unescape rel ≡ none
      → (e : FsError) × (move_to_trash (service_of r rs) raw id d ≡ (fail e, d))
  unfolding move_to_trash
  move_to_trash-percent raw d {full} {rel} h n =
      elim (Fallible-cases (plan_move (service_of r rs) raw id d)) [
        | inr (e, g) ↦ (e, rw g refl)
        | inl (plan, g) ↦
            let (full', rel', v, e2, e3) = plan_move-done (service_of r rs) id d raw g in
            let (allowed, there, (dest, e4, se, de, pe, te)) =
              plan_target-done (service_of r rs) id d full' rel' e3 in
            let same = done-eq (sym h ∙ e2) in
            let (segs, p, e5, e6) = resolve-done_plain r rs root_proper d raw e2 in
            absurd (
              unplanned raw d full' rel' segs dest p e5
                (subst (λ z. path_unescape z ≡ none) (ap (λ (q : Bytes × Bytes). q.1) same) n) e4)
      ]
