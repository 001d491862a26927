-- ===== src/Access/Path/Best.antt =====
-- The two loops of MatchLibrary as one over all roots (internal/access/path.go).
use sudostream.Access.Path.{longer, match_libraries, match_roots, path_within_root}
use sudostream.Access.Types.{Library, root_paths}
use sudostream.Prelude.{
  [], All, Any, ap, arith, Bool-cases, false, if◌then◌else◌, inl, inr, length, List, ltb, none,
  Option, refl, some, subst, sym, true, ℕ, ◌&&◌, ◌++◌, ◌∙◌, ◌∷◌, ◌≡◌, ◌≤◌, ◌⊎◌,
}
use sudostream.Text.{Bytes}

-- Every root with its library, in the order in which the two loops visit them.
abbrev pub candidates_of : Library → List Bytes → List (Library × Bytes)
candidates_of library [] = []
candidates_of library (root ∷ roots) = (library, root) ∷ candidates_of library roots

abbrev pub candidates : List Library → List (Library × Bytes)
candidates [] = []
candidates (library ∷ libraries) =
    candidates_of library (root_paths library) ++ candidates libraries

-- One turn of the inner loop.
step : Bytes → Option (Library × ℕ) → Library × Bytes → Option (Library × ℕ)
step path best (library, root) =
    if path_within_root path root && longer (length root) best
    then some (library, length root)
    else best

-- One loop over the candidates.
pub best_of : Bytes → Option (Library × ℕ) → List (Library × Bytes) → Option (Library × ℕ)
best_of path best [] = best
best_of path best (c ∷ rest) = best_of path (step path best c) rest

best_of-append :
    (path : Bytes) (best : Option (Library × ℕ)) (xs ys : List (Library × Bytes))
    → best_of path best (xs ++ ys) ≡ best_of path (best_of path best xs) ys
unfolding best_of
best_of-append path best [] ys = refl
best_of-append path best (c ∷ rest) ys = best_of-append path (step path best c) rest ys

match_roots-best_of :
    (path : Bytes) (library : Library) (best : Option (Library × ℕ)) (roots : List Bytes)
    → match_roots path library best roots ≡ best_of path best (candidates_of library roots)
unfolding match_roots best_of step
match_roots-best_of path library best [] = refl
match_roots-best_of path library best (root ∷ roots) =
    match_roots-best_of path library (step path best (library, root)) roots

pub match_libraries-best_of :
    (path : Bytes) (best : Option (Library × ℕ)) (libraries : List Library)
    → match_libraries path best libraries ≡ best_of path best (candidates libraries)
unfolding match_libraries
match_libraries-best_of path best [] = unfold best_of in refl
match_libraries-best_of path best (library ∷ libraries) =
    match_libraries-best_of path (match_roots path library best (root_paths library)) libraries
    ∙ ap (λ (b : Option (Library × ℕ)). best_of path b (candidates libraries))
        (match_roots-best_of path library best (root_paths library))
    ∙ sym (
        best_of-append path best (candidates_of library (root_paths library))
          (candidates libraries))

-- The candidate owns the path by a root of length `n`.
abbrev pub Owns : Bytes → Library → ℕ → Library × Bytes → Type 0
Owns path library n c = (c.0 ≡ library) × (path_within_root path c.1 ≡ true) × (length c.1 ≡ n)

-- What the loop has found covers a candidate: none that holds the path is longer.
abbrev pub Covers : Bytes → Option (Library × ℕ) → Library × Bytes → Type 0
Covers path none c = path_within_root path c.1 ≡ false
Covers path (some (library, n)) c = path_within_root path c.1 ≡ true → length c.1 ≤ n

abbrev LeBest : Option (Library × ℕ) → Option (Library × ℕ) → Type 0
LeBest none b = Unit
LeBest (some (l, n)) none = ⊥
LeBest (some (l, n)) (some (k, m)) = n ≤ m

LeBest-refl : (a : Option (Library × ℕ)) → LeBest a a
LeBest-refl none = tt
LeBest-refl (some (l, n)) = omega arith

LeBest-trans : (a b c : Option (Library × ℕ)) → LeBest a b → LeBest b c → LeBest a c
LeBest-trans none b c h k = tt
LeBest-trans (some a) none c h k = absurd h
LeBest-trans (some a) (some b) none h k = absurd k
LeBest-trans (some (l, n)) (some (k, m)) (some (j, o)) h h' = omega arith

Covers-LeBest :
    (path : Bytes) (a b : Option (Library × ℕ)) (c : Library × Bytes)
    → LeBest a b
    → Covers path a c
    → Covers path b c
Covers-LeBest path none none c h k = k
Covers-LeBest path none (some (l, n)) c h k = λ w. absurd (cc)
Covers-LeBest path (some a) none c h k = absurd h
Covers-LeBest path (some (l, n)) (some (j, m)) c h k = λ w. omega (arith, k w)

step-LeBest :
    (path : Bytes) (best : Option (Library × ℕ)) (c : Library × Bytes)
    → LeBest best (step path best c)
unfolding step
step-LeBest path none c = tt
step-LeBest path (some (l, n)) (library, root) = elim (Bool-cases (path_within_root path root)) [
  | inl y ↦ elim (Bool-cases (ltb n (length root))) [
    | inl lt ↦ rw (y, lt) (ground arith)
    | inr ge ↦ rw (y, ge) (omega arith)
  ]
  | inr f ↦ rw f (omega arith)
]

step-Covers :
    (path : Bytes) (best : Option (Library × ℕ)) (c : Library × Bytes)
    → Covers path (step path best c) c
unfolding step
step-Covers path none (library, root) = elim (Bool-cases (path_within_root path root)) [
  | inl y ↦ rw y (λ w. omega arith)
  | inr f ↦ rw f f
]
step-Covers path (some (l, n)) (library, root) = elim (Bool-cases (path_within_root path root)) [
  | inl y ↦ elim (Bool-cases (ltb n (length root))) [
    | inl lt ↦ rw (y, lt) (λ w. omega arith)
    | inr ge ↦ rw (y, ge) (λ w. ground arith)
  ]
  | inr f ↦ rw f (λ w. absurd (cc))
]

pub best_of-LeBest :
    (path : Bytes) (best : Option (Library × ℕ)) (cs : List (Library × Bytes))
    → LeBest best (best_of path best cs)
unfolding best_of
best_of-LeBest path best [] = LeBest-refl best
best_of-LeBest path best (c ∷ rest) =
    LeBest-trans best (step path best c) (best_of path (step path best c) rest)
      (step-LeBest path best c) (best_of-LeBest path (step path best c) rest)

pub best_of-Covers :
    (path : Bytes) (best : Option (Library × ℕ)) (cs : List (Library × Bytes))
    → All (Covers path (best_of path best cs)) cs
unfolding best_of
best_of-Covers path best [] = tt
best_of-Covers path best (c ∷ rest) = (
  Covers-LeBest path (step path best c) (best_of path (step path best c) rest) c
      (best_of-LeBest path (step path best c) rest) (step-Covers path best c),
  best_of-Covers path (step path best c) rest,
)

step_cases :
    (path : Bytes) (best : Option (Library × ℕ)) (c : Library × Bytes)
    → (step path best c ≡ best)
      ⊎ ((path_within_root path c.1 ≡ true) × (step path best c ≡ some (c.0, length c.1)))
unfolding step
step_cases path best (library, root) = elim (Bool-cases (path_within_root path root)) [
  | inl y ↦ elim (Bool-cases (longer (length root) best)) [
    | inl lt ↦ inr (y, rw (y, lt) refl)
    | inr ge ↦ inl (rw (y, ge) refl)
  ]
  | inr f ↦ inl (rw f refl)
]

-- What was found belongs to one of the candidates.
abbrev pub FoundIn : Bytes → Option (Library × ℕ) → List (Library × Bytes) → Type 0
FoundIn path none cs = Unit
FoundIn path (some (library, n)) cs = Any (Owns path library n) cs

FoundIn-cons :
    (path : Bytes) (out : Option (Library × ℕ)) (c : Library × Bytes) (cs : List (Library × Bytes))
    → FoundIn path out cs
    → FoundIn path out (c ∷ cs)
FoundIn-cons path none c cs h = tt
FoundIn-cons path (some (l, n)) c cs h = inr h

pub best_of-FoundIn :
    (path : Bytes) (best : Option (Library × ℕ)) (cs : List (Library × Bytes))
    → (best_of path best cs ≡ best) ⊎ FoundIn path (best_of path best cs) cs
unfolding best_of
best_of-FoundIn path best [] = inl refl
best_of-FoundIn path best (c ∷ rest) = elim (best_of-FoundIn path (step path best c) rest) [
  | inl kept ↦ elim (step_cases path best c) [
    | inl same ↦ inl (kept ∙ same)
    | inr new ↦
        inr (subst (λ o. FoundIn path o (c ∷ rest)) (sym (kept ∙ new.1)) (inl (refl, new.0, refl)))
  ]
  | inr inside ↦ inr (FoundIn-cons path (best_of path (step path best c) rest) c rest inside)
]
