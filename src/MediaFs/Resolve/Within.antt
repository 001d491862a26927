-- ===== src/MediaFs/Resolve/Within.antt =====
-- What isWithinRoot says of the segments (internal/mediafs/service.go).
use sudostream.MediaFs.Os.Paths.{within_refl, within-append}
use sudostream.Text.Laws.Prefix.{has_prefix→append}
use sudostream.Text.Laws.Equality.{bytes_eq→eq}
use sudostream.Text.Laws.Split.{split-append_sep}
use sudostream.Text.{split}
use mathlib.Core.List.{List, append_assoc, append-nil}
use sudostream.MediaFs.{bytes_eq, slash, true, split, Bytes, ends_in_slash, is_within_root}
use sudostream.MediaFs.Os.{names_of, os_path, within}
use sudostream.Prelude.{◌∙◌, subst, inr, sym, inl, refl, Bool-cases, ap, arith, ◌++◌, ◌≡◌, [], ◌∷◌}

ends_in_slash→append : (s : Bytes) → ends_in_slash s ≡ true → (b : Bytes) × (s ≡ b ++ (slash ∷ []))
unfolding ends_in_slash
ends_in_slash→append [] h = cc
ends_in_slash→append (c ∷ []) h = ([], ground arith)
ends_in_slash→append (c ∷ (d ∷ s)) h =
    let (b, e) = ends_in_slash→append (d ∷ s) h in (c ∷ b, ap (◌∷◌ c) e)

names_of-append : (xs ys : List Bytes) → names_of (xs ++ ys) ≡ names_of xs ++ names_of ys
names_of-append [] ys = refl
names_of-append (x ∷ xs) ys = ground (arith, names_of-append xs ys)

os_path-slash : (a b : Bytes) → os_path (a ++ (slash ∷ b)) ≡ os_path a ++ os_path b
unfolding os_path
os_path-slash a b =
    rw (split-append_sep slash a b) (names_of-append (split slash a) (split slash b))

os_path-trailing : (a : Bytes) → os_path (a ++ (slash ∷ [])) ≡ os_path a
unfolding os_path split
os_path-trailing a =
    rw (split-append_sep slash a [], names_of-append (split slash a) ([] ∷ []))
      (append-nil (names_of (split slash a)))

-- A candidate that isWithinRoot accepts has the segments of the root before its own.
pub is_within_root→within :
    (root candidate : Bytes)
    → is_within_root root candidate ≡ true
    → within (os_path root) (os_path candidate) ≡ true
unfolding is_within_root
is_within_root→within root candidate h = elim (Bool-cases (bytes_eq candidate root)) [
  | inl t ↦
      subst (λ z. within (os_path root) (os_path z) ≡ true) (sym (bytes_eq→eq candidate root t))
        (within_refl (os_path root))
  | inr f ↦ elim (Bool-cases (ends_in_slash root)) [
    | inl t ↦
        let (b, e) = ends_in_slash→append root t in
        let (s, g) = has_prefix→append candidate root (rw (f, t) at h) in
        subst (λ z. within (os_path z) (os_path candidate) ≡ true) (sym e)
          (subst (λ z. within (os_path (b ++ (slash ∷ []))) (os_path z) ≡ true)
            (sym (g ∙ ap (λ z. z ++ s) e ∙ append_assoc b (slash ∷ []) s))
            (rw (os_path-trailing b, os_path-slash b s) (within-append (os_path b) (os_path s))))
    | inr n ↦
        let (s, g) = has_prefix→append candidate (root ++ (slash ∷ [])) (rw (f, n) at h) in
        subst (λ z. within (os_path root) z ≡ true)
          (sym (ap os_path (g ∙ append_assoc root (slash ∷ []) s) ∙ os_path-slash root s))
          (within-append (os_path root) (os_path s))
  ]
]
