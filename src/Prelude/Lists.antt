-- ===== src/Prelude/Lists.antt =====
-- Lists measured by native numbers, and predicates on lists that compute to tuples.
use mathlib.Core.Bool.{false, Bool, true}
use mathlib.Core.Option.{Option, none, some}
use Prim.Native.Nat.{ℕ, zero, suc, ◌+◌, ◌-◌, min}
use mathlib.Core.Path.{◌≡◌, refl, ap, sym, subst}
use mathlib.Core.Logic.{◌⊎◌, inl, inr}
use mathlib.Core.List.{List, [], ◌∷◌, ◌++◌, reverse, reverse-cons}
use native.Mathlib.Omega.{arith}
use sudostream.Prelude.Tests.{some-eq, if◌then◌else◌, Bool-cases}

module _ {ℓ} {A : Type ℓ} where
  abbrev pub length : List A → ℕ
  length [] = 0
  length (x ∷ xs) = suc (length xs)

  abbrev pub take : ℕ → List A → List A
  take zero xs = []
  take (suc n) [] = []
  take (suc n) (x ∷ xs) = x ∷ take n xs

  abbrev pub drop : ℕ → List A → List A
  drop zero xs = xs
  drop (suc n) [] = []
  drop (suc n) (x ∷ xs) = drop n xs

  pub length-append : (xs ys : List A) → length (xs ++ ys) ≡ length xs + length ys
  length-append [] ys = omega arith
  length-append (x ∷ xs) ys = omega (arith, length-append xs ys)

  pub length-take : (n : ℕ) (xs : List A) → length (take n xs) ≡ min n (length xs)
  length-take zero xs = omega arith
  length-take (suc n) [] = omega arith
  length-take (suc n) (x ∷ xs) = omega (arith, length-take n xs)

  pub length-drop : (n : ℕ) (xs : List A) → length (drop n xs) ≡ length xs - n
  length-drop zero xs = omega arith
  length-drop (suc n) [] = omega arith
  length-drop (suc n) (x ∷ xs) = omega (arith, length-drop n xs)

  pub take-append-drop : (n : ℕ) (xs : List A) → take n xs ++ drop n xs ≡ xs
  take-append-drop zero xs = refl
  take-append-drop (suc n) [] = refl
  take-append-drop (suc n) (x ∷ xs) = ap (◌∷◌ x) (take-append-drop n xs)

-- `P` holds of every entry.
abbrev pub All {ℓ κ} : {A : Type ℓ} → (A → Type κ) → List A → Type κ
All P [] = Unit
All P (x ∷ xs) = P x × All P xs

module _ {ℓ κ} {A : Type ℓ} (P : A → Type κ) where
  pub All-append : (xs ys : List A) → All P xs → All P ys → All P (xs ++ ys)
  All-append [] ys h k = k
  All-append (x ∷ xs) ys h k = (h.0, All-append xs ys h.1 k)

  pub All-reverse : (xs : List A) → All P xs → All P (reverse xs)
  All-reverse [] h = h
  All-reverse (x ∷ xs) h =
      subst (All P) (sym (reverse-cons x xs))
        (All-append (reverse xs) (x ∷ []) (All-reverse xs h.1) (h.0, tt))

-- `P` holds of some entry.
abbrev pub Any {ℓ} : {A : Type ℓ} → (A → Type 0) → List A → Type 0
Any P [] = ⊥
Any P (x ∷ xs) = P x ⊎ Any P xs

module _ {ℓ} {A : Type ℓ} where
  -- What holds of every entry and what holds of one hold together of one.
  pub Any-All : (P Q : A → Type 0) (xs : List A) → Any P xs → All Q xs → Any (λ x. P x × Q x) xs
  Any-All P Q [] a h = absurd a
  Any-All P Q (x ∷ xs) (inl p) h = inl (p, h.0)
  Any-All P Q (x ∷ xs) (inr a) h = inr (Any-All P Q xs a h.1)

  pub Any-map : (P Q : A → Type 0) → ((x : A) → P x → Q x) → (xs : List A) → Any P xs → Any Q xs
  Any-map P Q f [] a = absurd a
  Any-map P Q f (x ∷ xs) (inl p) = inl (f x p)
  Any-map P Q f (x ∷ xs) (inr a) = inr (Any-map P Q f xs a)

  pub All-map : (P Q : A → Type 0) → ((x : A) → P x → Q x) → (xs : List A) → All P xs → All Q xs
  All-map P Q f [] h = tt
  All-map P Q f (x ∷ xs) h = (f x h.0, All-map P Q f xs h.1)

  pub Any-elim : {C : Type 0} (P : A → Type 0) → ((x : A) → P x → C) → (xs : List A) → Any P xs → C
  Any-elim P f [] a = absurd a
  Any-elim P f (x ∷ xs) (inl p) = f x p
  Any-elim P f (x ∷ xs) (inr a) = Any-elim P f xs a

  pub Any-append_right : (P : A → Type 0) (xs ys : List A) → Any P ys → Any P (xs ++ ys)
  Any-append_right P [] ys a = a
  Any-append_right P (x ∷ xs) ys a = inr (Any-append_right P xs ys a)

  pub Any-append_left : (P : A → Type 0) (xs ys : List A) → Any P xs → Any P (xs ++ ys)
  Any-append_left P [] ys a = absurd a
  Any-append_left P (x ∷ xs) ys (inl p) = inl p
  Any-append_left P (x ∷ xs) ys (inr a) = inr (Any-append_left P xs ys a)

module _ {ℓ} {A : Type ℓ} where
  -- The entries that pass a Boolean test.
  abbrev pub keep : (A → Bool) → List A → List A
  keep p [] = []
  keep p (x ∷ xs) = let rest = keep p xs in if p x then x ∷ rest else rest

  -- The first entry that passes.
  abbrev pub first : (A → Bool) → List A → Option A
  first p [] = none
  first p (x ∷ xs) = let rest = first p xs in if p x then some x else rest

  abbrev pub insert_by : (A → A → Bool) → A → List A → List A
  insert_by le x [] = x ∷ []
  insert_by le x (y ∷ ys) =
      let rest = insert_by le x ys in if le x y then x ∷ (y ∷ ys) else y ∷ rest

  -- Insertion sort, for ORDER BY.
  abbrev pub sort_by : (A → A → Bool) → List A → List A
  sort_by le [] = []
  sort_by le (x ∷ xs) = insert_by le x (sort_by le xs)

  pub All-keep : (P : A → Type 0) (p : A → Bool) (xs : List A) → All P xs → All P (keep p xs)
  All-keep P p [] h = tt
  All-keep P p (x ∷ xs) h = elim (Bool-cases (p x)) [
    | inl t ↦ rw t (h.0, All-keep P p xs h.1)
    | inr f ↦ rw f (All-keep P p xs h.1)
  ]

  pub All-keep_test : (p : A → Bool) (xs : List A) → All (λ x. p x ≡ true) (keep p xs)
  All-keep_test p [] = tt
  All-keep_test p (x ∷ xs) = elim (Bool-cases (p x)) [
    | inl t ↦ rw t (t, All-keep_test p xs)
    | inr f ↦ rw f (All-keep_test p xs)
  ]

  All-insert_by :
      (P : A → Type 0) (le : A → A → Bool) (x : A) (xs : List A)
      → P x
      → All P xs
      → All P (insert_by le x xs)
  All-insert_by P le x [] h k = (h, tt)
  All-insert_by P le x (y ∷ ys) h k = elim (Bool-cases (le x y)) [
    | inl t ↦ rw t (h, k)
    | inr f ↦ rw f (k.0, All-insert_by P le x ys h k.1)
  ]

  pub All-sort_by :
      (P : A → Type 0) (le : A → A → Bool) (xs : List A) → All P xs → All P (sort_by le xs)
  All-sort_by P le [] h = tt
  All-sort_by P le (x ∷ xs) h = All-insert_by P le x (sort_by le xs) h.0 (All-sort_by P le xs h.1)

  insert_by-All :
      (P : A → Type 0) (le : A → A → Bool) (x : A) (xs : List A)
      → All P (insert_by le x xs)
      → P x × All P xs
  insert_by-All P le x [] h = h
  insert_by-All P le x (y ∷ ys) h = elim (Bool-cases (le x y)) [
    | inl t ↦ let k : P x × All P (y ∷ ys) = rw t at h in k
    | inr f ↦
        let k : P y × All P (insert_by le x ys) = rw f at h in
        let m = insert_by-All P le x ys k.1 in (m.0, (k.0, m.1))
  ]

  pub sort_by-All :
      (P : A → Type 0) (le : A → A → Bool) (xs : List A) → All P (sort_by le xs) → All P xs
  sort_by-All P le [] h = tt
  sort_by-All P le (x ∷ xs) h =
      let k = insert_by-All P le x (sort_by le xs) h in (k.0, sort_by-All P le xs k.1)

  Any-insert_by :
      (P : A → Type 0) (le : A → A → Bool) (x : A) (xs : List A)
      → P x ⊎ Any P xs
      → Any P (insert_by le x xs)
  Any-insert_by P le x [] h = h
  Any-insert_by P le x (y ∷ ys) h = elim (Bool-cases (le x y)) [
    | inl t ↦ rw t h
    | inr f ↦ rw f (later (λ i. Any-insert_by P le x ys i) h)
  ]
    where
      later :
          (P x ⊎ Any P ys → Any P (insert_by le x ys))
          → P x ⊎ (P y ⊎ Any P ys)
          → P y ⊎ Any P (insert_by le x ys)
      later ih (inl a) = inr (ih (inl a))
      later ih (inr (inl b)) = inl b
      later ih (inr (inr c)) = inr (ih (inr c))

  pub Any-sort_by :
      (P : A → Type 0) (le : A → A → Bool) (xs : List A) → Any P xs → Any P (sort_by le xs)
  Any-sort_by P le [] h = h
  Any-sort_by P le (x ∷ xs) (inl h) = Any-insert_by P le x (sort_by le xs) (inl h)
  Any-sort_by P le (x ∷ xs) (inr h) =
      Any-insert_by P le x (sort_by le xs) (inr (Any-sort_by P le xs h))

module _ {ℓ} {A : Type ℓ} where
  pub All-first :
      (P : A → Type 0) (p : A → Bool) (xs : List A) {x : A} → All P xs → first p xs ≡ some x → P x
  All-first P p [] h e = absurd (cc)
  All-first P p (y ∷ ys) h e = elim (Bool-cases (p y)) [
    | inl t ↦ subst P (some-eq (rw t at e)) h.0
    | inr f ↦ All-first P p ys h.1 (rw f at e)
  ]

  pub first-test : (p : A → Bool) (xs : List A) {x : A} → first p xs ≡ some x → p x ≡ true
  first-test p [] e = absurd (cc)
  first-test p (y ∷ ys) e = elim (Bool-cases (p y)) [
    | inl t ↦ subst (λ z. p z ≡ true) (some-eq (rw t at e)) t
    | inr f ↦ first-test p ys (rw f at e)
  ]

  pub first-none : (p : A → Bool) (xs : List A) → first p xs ≡ none → All (λ x. p x ≡ false) xs
  first-none p [] e = tt
  first-none p (y ∷ ys) e = elim (Bool-cases (p y)) [
    | inl t ↦ absurd (cc (rw t at e))
    | inr f ↦ (f, first-none p ys (rw f at e))
  ]
