-- ===== src/Text/Laws/Split.antt =====
-- Splitting at a byte and joining by it undo one another.
use mathlib.Core.List.{append_assoc}
use sudostream.Prelude.{
  [], All, ap, arith, Bool-cases, inl, inr, List, refl, sym, ℕ, ◌++◌, ◌==◌, ◌∙◌, ◌∷◌, ◌≡◌, ◌≢◌,
}
use sudostream.Text.{Bytes, cons_head, join, split}

-- A text with no separator in it.
abbrev pub SepFree : ℕ → Bytes → Type 0
SepFree sep s = All (λ c. c ≢ sep) s

cons_head-append :
    (c : ℕ) (xs ys : List Bytes) → xs ≢ [] → cons_head c xs ++ ys ≡ cons_head c (xs ++ ys)
cons_head-append c [] ys h = absurd (h refl)
cons_head-append c (x ∷ xs) ys h = refl

cons_head_ne : (c : ℕ) (xs : List Bytes) → cons_head c xs ≢ []
cons_head_ne c [] e = cc
cons_head_ne c (x ∷ xs) e = cc

pub split_ne : (sep : ℕ) (s : Bytes) → split sep s ≢ []
unfolding split
split_ne sep [] = λ e. cc
split_ne sep (c ∷ s) = elim (Bool-cases (c == sep)) [
  | inl t ↦ rw t (λ e. cc)
  | inr f ↦ rw f (cons_head_ne c (split sep s))
]

cons_head-SepFree :
    (sep c : ℕ) (xs : List Bytes)
    → c ≢ sep
    → All (SepFree sep) xs
    → All (SepFree sep) (cons_head c xs)
cons_head-SepFree sep c [] n h = ((n, tt), tt)
cons_head-SepFree sep c (x ∷ xs) n h = ((n, h.0), h.1)

pub split-SepFree : (sep : ℕ) (s : Bytes) → All (SepFree sep) (split sep s)
unfolding split
split-SepFree sep [] = (tt, tt)
split-SepFree sep (c ∷ s) = elim (Bool-cases (c == sep)) [
  | inl t ↦ rw t (tt, split-SepFree sep s)
  | inr f ↦ rw f (cons_head-SepFree sep c _ (ground arith) (split-SepFree sep s))
]

join-cons_head :
    (sep c : ℕ) (xs : List Bytes) → xs ≢ [] → join sep (cons_head c xs) ≡ c ∷ join sep xs
unfolding join
join-cons_head sep c [] h = absurd (h refl)
join-cons_head sep c (x ∷ []) h = refl
join-cons_head sep c (x ∷ (y ∷ r)) h = refl

join-nil_cons : (sep : ℕ) (xs : List Bytes) → xs ≢ [] → join sep ([] ∷ xs) ≡ sep ∷ join sep xs
unfolding join
join-nil_cons sep [] h = absurd (h refl)
join-nil_cons sep (x ∷ r) h = refl

pub join-split : (sep : ℕ) (s : Bytes) → join sep (split sep s) ≡ s
unfolding split
join-split sep [] = unfold join in refl
join-split sep (c ∷ s) = elim (Bool-cases (c == sep)) [
  | inl t ↦
      rw t (join-nil_cons sep (split sep s) (split_ne sep s) ∙ ground (arith, join-split sep s))
  | inr f ↦
      rw f (join-cons_head sep c (split sep s) (split_ne sep s) ∙ ap (◌∷◌ c) (join-split sep s))
]

-- A separator splits: what is left of it from what is right of it.
pub split-append_sep :
    (sep : ℕ) (r s : Bytes) → split sep (r ++ (sep ∷ s)) ≡ split sep r ++ split sep s
unfolding split
split-append_sep sep [] s = ground arith
split-append_sep sep (c ∷ r) s = elim (Bool-cases (c == sep)) [
  | inl t ↦ rw t (ap (◌∷◌ []) (split-append_sep sep r s))
  | inr f ↦ rw f (
      ap (cons_head c) (split-append_sep sep r s)
      ∙ sym (cons_head-append c (split sep r) (split sep s) (split_ne sep r)))
]

pub split_of_SepFree : (sep : ℕ) (s : Bytes) → SepFree sep s → split sep s ≡ s ∷ []
unfolding split
split_of_SepFree sep [] h = refl
split_of_SepFree sep (c ∷ s) h = rw (split_of_SepFree sep s h.1) (ground (arith, h.0))

pub split-join :
    (sep : ℕ) (x : Bytes) (xs : List Bytes)
    → SepFree sep x
    → All (SepFree sep) xs
    → split sep (join sep (x ∷ xs)) ≡ x ∷ xs
unfolding join
split-join sep x [] h k = split_of_SepFree sep x h
split-join sep x (y ∷ r) h k =
    split-append_sep sep x (join sep (y ∷ r))
    ∙ rw (split_of_SepFree sep x h, split-join sep y r k.0 k.1)

pub join-append :
    (sep : ℕ) (x : Bytes) (xs : List Bytes) (y : Bytes) (ys : List Bytes)
    → join sep ((x ∷ xs) ++ (y ∷ ys)) ≡ join sep (x ∷ xs) ++ (sep ∷ join sep (y ∷ ys))
unfolding join
join-append sep x [] y ys = refl
join-append sep x (z ∷ zs) y ys =
    ap (λ (t : Bytes). x ++ (sep ∷ t)) (join-append sep z zs y ys) ∙ sym (append_assoc x _ _)
