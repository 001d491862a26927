-- ===== src/Prelude/Keep.antt =====
-- Some entry of a list that is filtered.
use mathlib.Core.Bool.{Bool, true}
use mathlib.Core.List.{List, [], ◌∷◌}
use mathlib.Core.Logic.{inl, inr}
use mathlib.Core.Path.{◌≡◌}
use sudostream.Prelude.Lists.{Any, keep}
use sudostream.Prelude.Tests.{Bool-cases}

pub Any-keep {ℓ} :
    {A : Type ℓ} (P : A → Type 0) (p : A → Bool)
    → ((x : A) → P x → p x ≡ true)
    → (xs : List A) → Any P xs
    → Any P (keep p xs)
Any-keep P p f [] a = absurd a
Any-keep P p f (x ∷ xs) (inl h) = rw (f x h) (inl h)
Any-keep P p f (x ∷ xs) (inr a) = elim (Bool-cases (p x)) [
  | inl t ↦ rw t (inr (Any-keep P p f xs a))
  | inr n ↦ rw n (Any-keep P p f xs a)
]
