-- ===== src/Text/Laws/Equality.antt =====
-- `bytes_eq` decides equality.
use sudostream.Prelude.{[], arith, refl, true, ◌↔◌, ◌∷◌, ◌≡◌}
use sudostream.Text.{Bytes, bytes_eq}

pub bytes_eq→eq : (a b : Bytes) → bytes_eq a b ≡ true → a ≡ b
unfolding bytes_eq
bytes_eq→eq [] [] h = refl
bytes_eq→eq [] (b ∷ s) h = cc
bytes_eq→eq (a ∷ r) [] h = cc
bytes_eq→eq (a ∷ r) (b ∷ s) h = ground (arith, bytes_eq→eq r s)

pub bytes_eq_refl : (a : Bytes) → bytes_eq a a ≡ true
unfolding bytes_eq
bytes_eq_refl [] = refl
bytes_eq_refl (a ∷ r) = ground (arith, bytes_eq_refl r)

pub eq→bytes_eq : (a b : Bytes) → a ≡ b → bytes_eq a b ≡ true
eq→bytes_eq a b e = rw e (bytes_eq_refl b)

pub bytes_eq_iff : (a b : Bytes) → (bytes_eq a b ≡ true) ↔ (a ≡ b)
bytes_eq_iff a b = (bytes_eq→eq a b, eq→bytes_eq a b)
