-- ===== src/MediaFs/Os/Paths.antt =====
-- Paths below one another, on the disk of internal/mediafs.
use sudostream.Text.Laws.Clean.{bytes_eq_of_ne}
use sudostream.Prelude.{
  ap₂, ◌≢◌, ◌⊎◌, ◌∙◌, sym, subst, inr, inl, Bool-cases, refl, [], ap, Option-cases, arith, some-eq,
  ◌↔◌, ◌++◌, ◌≡◌,
}
use mathlib.Core.List.{◌∷◌, append_assoc}
use sudostream.MediaFs.Os.{false, none, some, true, Bytes, parent, FilePath, path_eq, strip, within}
use sudostream.Text.{bytes_eq}
use sudostream.Text.Laws.Equality.{bytes_eq→eq, bytes_eq_iff, bytes_eq_refl}

pub path_eq_iff : (p q : FilePath) → (path_eq p q ≡ true) ↔ (p ≡ q)
unfolding path_eq
path_eq_iff [] [] = ground arith
path_eq_iff [] (b ∷ q) = ground arith
path_eq_iff (a ∷ p) [] = ground arith
path_eq_iff (a ∷ p) (b ∷ q) = ground (arith, bytes_eq_iff a b, path_eq_iff p q)

pub path_eq-append : (p a b : FilePath) → path_eq (p ++ a) (p ++ b) ≡ path_eq a b
unfolding path_eq
path_eq-append [] a b = refl
path_eq-append (x ∷ p) a b = rw (bytes_eq_refl x) (path_eq-append p a b)

pub strip-append : (p r : FilePath) → strip p (p ++ r) ≡ some r
unfolding strip
strip-append [] r = refl
strip-append (x ∷ p) r = rw (bytes_eq_refl x) (strip-append p r)

pub strip→append : (p k r : FilePath) → strip p k ≡ some r → k ≡ p ++ r
unfolding strip
strip→append [] k r h = some-eq h
strip→append (a ∷ p) [] r h = cc
strip→append (a ∷ p) (b ∷ k) r h = elim (Bool-cases (bytes_eq a b)) [
  | inl t ↦ ground (arith, bytes_eq_iff a b, strip→append p k r (rw t at h))
  | inr f ↦ absurd (cc (rw f at h))
]

-- A path that lies below `p` is no path that does not.
pub path_eq_apart :
    (p k q r : FilePath) → strip p k ≡ some r → strip p q ≡ none → path_eq k q ≡ false
path_eq_apart p k q r h n = ground (arith, path_eq_iff k q, ap (strip p) {x = k} {y = q})

pub path_eq_apart' :
    (p k q r : FilePath) → strip p k ≡ none → strip p q ≡ some r → path_eq k q ≡ false
path_eq_apart' p k q r h n = ground (arith, path_eq_iff k q, ap (strip p) {x = k} {y = q})

pub within-append : (p r : FilePath) → within p (p ++ r) ≡ true
unfolding within
within-append p r = rw (strip-append p r) refl

pub within_refl : (p : FilePath) → within p p ≡ true
unfolding within strip
within_refl [] = refl
within_refl (x ∷ p) = rw (bytes_eq_refl x) (within_refl p)

pub within→append : (p k : FilePath) → within p k ≡ true → (r : FilePath) × (k ≡ p ++ r)
unfolding within
within→append p k h = elim (Option-cases (strip p k)) [
  | inl e ↦ absurd (cc (rw e at h))
  | inr (r, e) ↦ (r, strip→append p k r e)
]

pub within_trans : (p q k : FilePath) → within p q ≡ true → within q k ≡ true → within p k ≡ true
within_trans p q k h g =
    let (r, e) = within→append p q h in
    let (s, f) = within→append q k g in
    subst (λ z. within p z ≡ true) (sym (f ∙ ap (λ z. z ++ s) e ∙ append_assoc p r s))
      (within-append p (r ++ s))

pub within_false→strip : (p k : FilePath) → within p k ≡ false → strip p k ≡ none
unfolding within
within_false→strip p k h = ground arith

pub within-parent : (p : FilePath) → within (parent p) p ≡ true
unfolding within parent strip
within-parent [] = refl
within-parent (x ∷ []) = refl
within-parent (x ∷ (y ∷ p)) = rw (bytes_eq_refl x) (within-parent (y ∷ p))

pub not_below_parent : (x : Bytes) (p : FilePath) → within (x ∷ p) (parent (x ∷ p)) ≡ false
unfolding within parent strip
not_below_parent x [] = refl
not_below_parent x (y ∷ p) = rw (bytes_eq_refl x) (not_below_parent y p)

pub parent-append :
    (p : FilePath) (x : Bytes) (q : FilePath) → parent (p ++ (x ∷ q)) ≡ p ++ parent (x ∷ q)
unfolding parent
parent-append [] x q = refl
parent-append (a ∷ []) x q = refl
parent-append (a ∷ (b ∷ p)) x q = ap (◌∷◌ a) (parent-append (b ∷ p) x q)

-- Two paths that lead to one place lie one below the other.
pub within_comparable :
    (p q t : FilePath) → within p (q ++ t) ≡ true → (within p q ≡ true) ⊎ (within q p ≡ true)
unfolding within strip
within_comparable [] q t h = inl refl
within_comparable (a ∷ p) [] t h = inr refl
within_comparable (a ∷ p) (b ∷ q) t h = elim (Bool-cases (bytes_eq a b)) [
  | inl e ↦
      let same = bytes_eq→eq a b e in
      rw (sym same, bytes_eq_refl a) (within_comparable p q t (rw e at h))
  | inr n ↦ absurd (cc (rw n at h))
]

pub within-append_false :
    (p q t : FilePath) → within p q ≡ false → within q p ≡ false → within p (q ++ t) ≡ false
within-append_false p q t h g = ground (arith, within_comparable p q t)

-- Paths that part at one name.
pub within-apart :
    (p : FilePath) (a b : Bytes) (q t : FilePath)
    → a ≢ b
    → within (p ++ (a ∷ q)) (p ++ (b ∷ t)) ≡ false
unfolding within strip
within-apart [] a b q t n = rw (bytes_eq_of_ne a b n) refl
within-apart (x ∷ p) a b q t n = rw (bytes_eq_refl x) (within-apart p a b q t n)

-- What leads to a name in a directory leads to the directory, or is that path itself.
pub within-last :
    (q p : FilePath) (a : Bytes)
    → within q (p ++ (a ∷ [])) ≡ true
    → (within q p ≡ true) ⊎ (q ≡ p ++ (a ∷ []))
unfolding within strip
within-last [] p a h = inl refl
within-last (b ∷ []) [] a h = inr (ground (arith, bytes_eq_iff b a))
within-last (b ∷ (c ∷ q)) [] a h = absurd (ground arith)
within-last (b ∷ q) (c ∷ p) a h = elim (Bool-cases (bytes_eq b c)) [
  | inr n ↦ absurd (cc (rw n at h))
  | inl e ↦ elim (within-last q p a (rw e at h)) [
    | inl w ↦ inl (rw e w)
    | inr same ↦ inr (ap₂ (λ (x : Bytes) (y : FilePath). x ∷ y) (bytes_eq→eq b c e) same)
  ]
]
