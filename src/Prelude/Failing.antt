-- ===== src/Prelude/Failing.antt =====
-- Calls that may fail: a value, or the error that stands in its place.
use mathlib.Core.Path.{◌≡◌, refl}
use mathlib.Core.Bool.{Bool, true, false}
use mathlib.Core.Logic.{◌⊎◌, inl, inr}

pub data Fallible {ℓ} (E : Type 0) (T : Type ℓ) : Type ℓ where
  fail : E → Fallible E T
  done : T → Fallible E T

module _ {ℓ} {E : Type 0} {T : Type ℓ} where
  pub Fallible-cases : (r : Fallible E T) → ((t : T) × (r ≡ done t)) ⊎ ((e : E) × (r ≡ fail e))
  Fallible-cases (fail e) = inr (e, refl)
  Fallible-cases (done t) = inl (t, refl)

  pub done-eq : {t u : T} → ◌≡◌ {A = Fallible E T} (done t) (done u) → t ≡ u
  done-eq h = cc

-- `if err != nil { return err }` between two calls.
infixl 5 ◌>>=◌
abbrev pub ◌>>=◌ {ℓ κ} :
    {E : Type 0} {T : Type ℓ} {U : Type κ} → Fallible E T → (T → Fallible E U) → Fallible E U
fail e >>= next = fail e
done t >>= next = next t

-- A guard: `if b { return e }`.
abbrev pub refuse_if : {E : Type 0} → Bool → E → Fallible E (Unit {0})
refuse_if true e = fail e
refuse_if false e = done tt

infixl 5 ◌>>◌
abbrev pub ◌>>◌ {ℓ} :
    {E : Type 0} {T : Type ℓ} → Fallible E (Unit {0}) → Fallible E T → Fallible E T
first >> next = first >>= λ _. next

-- Where both succeed, the first does and the second does with its value.
pub >>=-done {ℓ κ} :
    {E : Type 0} {T : Type ℓ} {U : Type κ} (r : Fallible E T) (next : T → Fallible E U) {u : U}
    → (r >>= next) ≡ done u
    → (t : T) × (r ≡ done t) × (next t ≡ done u)
>>=-done (fail e) next h = cc
>>=-done (done t) next h = (t, refl, h)

pub refuse_if-done {ℓ} :
    {E : Type 0} {T : Type ℓ} (b : Bool) (e : E) (next : Fallible E T) {u : T}
    → (refuse_if b e >> next) ≡ done u
    → (b ≡ false) × (next ≡ done u)
refuse_if-done true e next h = cc
refuse_if-done false e next h = (refl, h)
