-- ===== src/Prelude/Slices.antt =====
-- take and drop of take and drop, over native numbers.
use mathlib.Core.List.{List, [], ◌∷◌, ◌++◌}
use mathlib.Core.Path.{◌≡◌, refl, ap, sym, ◌∙◌}
use native.Mathlib.Omega.{arith}
use Prim.Native.Nat.{ℕ, zero, suc, ◌+◌, ◌≤◌, min}
use sudostream.Prelude.Lists.{length, take, drop}

module _ {ℓ} {A : Type ℓ} where
  pub drop-nil : (n : ℕ) → drop {A = A} n [] ≡ []
  drop-nil zero = refl
  drop-nil (suc n) = refl

  pub drop-drop : (m k : ℕ) (xs : List A) → drop m (drop k xs) ≡ drop (k + m) xs
  drop-drop m zero xs = ap (λ (n : ℕ). drop n xs) {x = m} {y = 0 + m} (omega arith)
  drop-drop m (suc k) [] = drop-nil m ∙ sym (drop-nil (suc k + m))
  drop-drop m (suc k) (x ∷ xs) =
      drop-drop m k xs
      ∙ ap (λ (n : ℕ). drop n (x ∷ xs)) {x = suc (k + m)} {y = suc k + m} (omega arith)

  pub drop-append_left :
      (k : ℕ) (xs ys : List A) → k ≤ length xs → drop k xs ++ ys ≡ drop k (xs ++ ys)
  drop-append_left zero xs ys h = refl
  drop-append_left (suc k) [] ys h = absurd (omega arith)
  drop-append_left (suc k) (x ∷ xs) ys h = drop-append_left k xs ys (omega arith)

  pub drop_of_short : (n : ℕ) (xs : List A) → length xs ≤ n → drop n xs ≡ []
  drop_of_short n [] h = drop-nil n
  drop_of_short zero (x ∷ xs) h = absurd (omega arith)
  drop_of_short (suc n) (x ∷ xs) h = drop_of_short n xs (omega arith)

  -- Only the length counts where more is taken than there is.
  pub take_of_min :
      (n m : ℕ) (xs : List A) → min n (length xs) ≡ min m (length xs) → take n xs ≡ take m xs
  take_of_min zero zero xs e = refl
  take_of_min (suc n) (suc m) [] e = refl
  take_of_min (suc n) (suc m) (x ∷ xs) e = ap (λ ys. x ∷ ys) (take_of_min n m xs (omega arith))
  take_of_min zero (suc m) [] e = refl
  take_of_min zero (suc m) (x ∷ xs) e = absurd (omega arith)
  take_of_min (suc n) zero [] e = refl
  take_of_min (suc n) zero (x ∷ xs) e = absurd (omega arith)
