-- ===== src/Text/Laws/Prefix.antt =====
-- `has_prefix` decides whether a text begins with another, and `contains` whether it holds one.
use sudostream.Prelude.{[], ap, arith, Bool-cases, inl, inr, refl, true, ◌++◌, ◌∷◌, ◌≡◌}
use sudostream.Text.{Bytes, contains, has_prefix}

pub has_prefix-append : (p r : Bytes) → has_prefix (p ++ r) p ≡ true
unfolding has_prefix
has_prefix-append [] r = refl
has_prefix-append (c ∷ p) r = ground (arith, has_prefix-append p r)

pub has_prefix→append : (s p : Bytes) → has_prefix s p ≡ true → (r : Bytes) × (s ≡ p ++ r)
unfolding has_prefix
has_prefix→append s [] h = (s, refl)
has_prefix→append [] (b ∷ p) h = absurd (cc)
has_prefix→append (a ∷ s) (b ∷ p) h =
    let (r, e) = has_prefix→append s p (ground arith) in (r, ground arith)

pub contains→append :
    (s p : Bytes) → contains s p ≡ true → (a : Bytes) × (b : Bytes) × (s ≡ a ++ (p ++ b))
unfolding contains
contains→append [] p h = let (r, e) = has_prefix→append [] p h in ([], r, e)
contains→append (c ∷ s) p h = elim (Bool-cases (has_prefix (c ∷ s) p)) [
  | inl here ↦ let (r, e) = has_prefix→append (c ∷ s) p here in ([], r, e)
  | inr later ↦ let (a, b, e) = contains→append s p (rw later at h) in (c ∷ a, b, ap (◌∷◌ c) e)
]
