-- ===== src/Access/Path/Slash.antt =====
-- Roots that no path lies within (internal/access/path.go).
use sudostream.Access.Path.{normalize_rel_path, path_within_root}
use sudostream.Access.Path.Canonical.{IsCanonical}
use sudostream.Access.Path.Within.{Begins, path_within_root_iff}
use sudostream.Prelude.{
  [], Any, Any-All, Any-append_left, Any-append_right, Any-elim, Bool-cases, false, inl, inr, refl,
  ◌++◌, ◌∷◌, ◌≡◌, ◌≢◌,
}
use sudostream.Text.{Bytes, slash, split}
use sudostream.Text.Laws.Clean.{IsProper}
use sudostream.Text.Laws.Split.{split-append_sep}

-- A root that ends in a slash holds no canonical path, not even those below the folder it names.
pub path_within_root-trailing_slash :
    (path base : Bytes) (root : Bytes)
    → IsCanonical (normalize_rel_path path)
    → normalize_rel_path root ≡ base ++ (slash ∷ [])
    → path_within_root path root ≡ false
path_within_root-trailing_slash path base root canonical ends =
    elim (Bool-cases (path_within_root path root)) [
      | inl t ↦
          let (named, based, begins) = (path_within_root_iff path root).0 t in
          absurd (no_empty canonical named (last_empty begins))
      | inr f ↦ f
    ]
  where
    last_empty :
        Begins (split slash (normalize_rel_path root)) (split slash (normalize_rel_path path))
        → Any (λ s. s ≡ []) (split slash (normalize_rel_path path))
    last_empty (rest, e) =
        rw (e, ends, split-append_sep slash base [])
          (Any-append_left (λ s. s ≡ []) (split slash base ++ split slash []) rest
            (Any-append_right (λ s. s ≡ []) (split slash base) (split slash [])
              (unfold split in inl refl)))

    no_empty :
        IsCanonical (normalize_rel_path path)
        → normalize_rel_path path ≢ []
        → Any (λ s. s ≡ []) (split slash (normalize_rel_path path))
        → ⊥
    no_empty (inl e) n a = n e
    no_empty (inr h) n a =
        Any-elim (λ s. (s ≡ []) × IsProper s) (λ s b. b.1.nonempty b.0) _
          (Any-All (λ s. s ≡ []) IsProper _ a h)
