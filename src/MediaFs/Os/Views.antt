-- ===== src/MediaFs/Os/Views.antt =====
-- What the operations on a disk do to what is found at each path.
use sudostream.Prelude.{
  refl, sym, inr, ◌∙◌, inl, Option-cases, Bool-cases, ap, arith, ◌++◌, if◌then◌else◌, All, ◌≡◌,
}
use mathlib.Core.List.{List}
use sudostream.Prelude.{[], ◌∷◌}
use sudostream.MediaFs.Os.{
  stays, OsError, drop_loose, none, some, false, Option, drop_within, find, moved, Node, FilePath,
  path_eq, relocate, strip, within,
}
use sudostream.MediaFs.Os.Paths.{
  within_false→strip, path_eq_apart, path_eq_apart', path_eq_iff, path_eq-append, strip-append,
  strip→append,
}

abbrev pub Entries : Type 0
Entries = List (FilePath × Node)

pub find-drop_within :
    (q p : FilePath) (es : Entries)
    → find q (drop_within p es) ≡ (if within p q then none else find q es)
unfolding find drop_within
find-drop_within q p [] = ground arith
find-drop_within q p ((k, n) ∷ es) =
    ground (arith, path_eq_iff k q, ap (within p) {x = k} {y = q}, find-drop_within q p es)

pub find-drop_loose :
    (q p : FilePath) (stuck : FilePath → Option OsError) (all es : Entries)
    → find q (drop_loose p stuck all es) ≡ (if stays p stuck all q then find q es else none)
unfolding find drop_loose
find-drop_loose q p stuck all [] = ground arith
find-drop_loose q p stuck all ((k, n) ∷ es) = ground (
  arith,
  path_eq_iff k q,
  ap (stays p stuck all) {x = k} {y = q},
  find-drop_loose q p stuck all es,
)

abbrev pub IsClear : FilePath → Entries → Type 0
IsClear p es = All (λ (e : FilePath × Node). within p (e.0) ≡ false) es

pub drop_within-IsClear : (p : FilePath) (es : Entries) → IsClear p (drop_within p es)
unfolding drop_within
drop_within-IsClear p [] = tt
drop_within-IsClear p ((k, n) ∷ es) = elim (Bool-cases (within p k)) [
  | inl t ↦ rw t (drop_within-IsClear p es)
  | inr f ↦ rw f (f, drop_within-IsClear p es)
]

-- What is found at `q` once `source` has become `target`, told by what is left of `q` below `target`.
abbrev pub found_after : FilePath → FilePath → Entries → Option FilePath → Option Node
found_after source q es (some r) = find (source ++ r) es
found_after source q es none = if within source q then none else find q es

apart_from_target :
    (source target k : FilePath) (n : Node) (es : Entries) (q r : FilePath) (e : Option FilePath)
    → strip source k ≡ e
    → within target k ≡ false
    → strip target q ≡ some r
    → path_eq (moved k target e) q ≡ path_eq k (source ++ r)
apart_from_target source target k n es q r none h clear t =
    path_eq_apart' target k q r (within_false→strip target k clear) t
    ∙ sym (path_eq_apart' source k (source ++ r) r h (strip-append source r))
apart_from_target source target k n es q r (some s) h clear t =
    rw (strip→append target q r t, strip→append source k s h)
      (path_eq-append target s r ∙ sym (path_eq-append source s r))

pub find-relocate :
    (q source target : FilePath) (es : Entries)
    → IsClear target es
    → find q (relocate source target es) ≡ found_after source q es (strip target q)
unfolding find relocate
find-relocate q source target [] h = sym (nothing (strip target q))
  where
    nothing : (t : Option FilePath) → found_after source q [] t ≡ none
    nothing none = ground arith
    nothing (some r) = refl
find-relocate q source target ((k, n) ∷ es) h =
    find_first (strip target q) refl (find-relocate q source target es h.1)
  where
    find_first :
        (t : Option FilePath)
        → strip target q ≡ t
        → find q (relocate source target es) ≡ found_after source q es t
        → (if path_eq (moved k target (strip source k)) q
            then some n
            else find q (relocate source target es))
          ≡ found_after source q ((k, n) ∷ es) t
    find_first (some r) t ih =
        rw (apart_from_target source target k n es q r (strip source k) refl h.0 t, ih) refl
    find_first none t ih = elim (Option-cases (strip source k)) [
      | inl e ↦
          rw (e, ih)
            (unfold within in ground (arith, path_eq_iff k q, ap (strip source) {x = k} {y = q}))
      | inr (s, e) ↦
          rw (e, path_eq_apart target (target ++ s) q s (strip-append target s) t, ih)
            (unfold within in ground (arith, path_eq_iff k q, ap (strip source) {x = k} {y = q}))
    ]
