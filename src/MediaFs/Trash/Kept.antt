-- ===== src/MediaFs/Trash/Kept.antt =====
-- What a move into the trash leaves alone (internal/mediafs/trash.go).
use sudostream.MediaFs.Os.Paths.{
  within_refl, within-last, within_comparable, parent-append, within→append, within-apart,
}
use mathlib.Core.List.{List, append_assoc}
use sudostream.Prelude.{subst, ap, ◌∙◌, ◌++◌, inl, sym, inr, Bool-cases, ◌≢◌, ◌≡◌, [], ◌∷◌}
use sudostream.Text.{Bytes}
use sudostream.MediaFs.Os.Paths.{within_refl}
use sudostream.MediaFs.Os.{FilePath, find, make_dirs, parent, within, dir}
use sudostream.MediaFs.Os.Directories.{
  DirsBelow, DirsBelow→find, make_dirs-find_apart, make_dirs-find_kept,
}
use sudostream.MediaFs.Os.Views.{Entries}
use sudostream.MediaFs.Trash.{some, false, true, done, Bool, trash_dir_name}
use sudostream.MediaFs.Trash.Done.{below, trashed}

-- The trash below the root.
abbrev pub bin : Bytes → List Bytes → FilePath
bin r rs = below r rs (trash_dir_name ∷ [])

module _ (r : Bytes) (rs : List Bytes) (id x : Bytes) (xs : List Bytes)
    (not_trash : x ≢ trash_dir_name) where
  pub source-apart : within (below r rs (x ∷ xs)) (below r rs (trashed id (x ∷ xs))) ≡ false
  source-apart = within-apart (r ∷ rs) x trash_dir_name xs (id ∷ (x ∷ xs)) not_trash

  pub target-apart : within (below r rs (trashed id (x ∷ xs))) (below r rs (x ∷ xs)) ≡ false
  target-apart = within-apart (r ∷ rs) trash_dir_name x (id ∷ (x ∷ xs)) xs (λ e. not_trash (sym e))

module _ (r : Bytes) (rs : List Bytes) (x : Bytes) (xs : List Bytes) (rest : FilePath)
    (read_only : Bool) (es made : Entries) (above : DirsBelow [] (parent (below r rs (x ∷ xs))) es)
    (made_eq : make_dirs read_only [] (below r rs (trash_dir_name ∷ rest)) es ≡ done made) where
  -- What leads to the root was a directory before.
  find_on_root :
      (y : Bytes) (q : FilePath) → within (y ∷ q) (r ∷ rs) ≡ true → find (y ∷ q) es ≡ some dir
  find_on_root y q w =
      let (t, e) = within→append (y ∷ q) (r ∷ rs) w in
      DirsBelow→find [] (parent (below r rs (x ∷ xs))) y q (t ++ parent (x ∷ xs)) es above (
        parent-append (r ∷ rs) x xs
        ∙ ap (λ z. z ++ parent (x ∷ xs)) e
        ∙ append_assoc (y ∷ q) t (parent (x ∷ xs)))

  -- Nothing outside the trash is made.
  pub find_made :
      (y : Bytes) (q : FilePath)
      → within (bin r rs) (y ∷ q) ≡ false
      → find (y ∷ q) made ≡ find (y ∷ q) es
  find_made y q outside = elim (Bool-cases (within (y ∷ q) (below r rs (trash_dir_name ∷ rest)))) [
    | inr f ↦ make_dirs-find_apart read_only [] _ es (y ∷ q) made_eq f
    | inl t ↦
        elim (within_comparable (y ∷ q) (bin r rs) rest (
          subst (λ z. within (y ∷ q) z ≡ true)
            (sym (append_assoc (r ∷ rs) (trash_dir_name ∷ []) rest)) t)) [
              | inr w ↦ absurd (cc)
              | inl w ↦ elim (within-last (y ∷ q) (r ∷ rs) trash_dir_name w) [
                | inr e ↦ absurd (cc (within_refl (bin r rs)))
                | inl on_root ↦
                    let there = find_on_root y q on_root in
                    make_dirs-find_kept read_only [] _ es (y ∷ q) made_eq there ∙ sym there
              ]
            ]
  ]
