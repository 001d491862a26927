-- ===== src/Access/Path/Within.antt =====
-- PathWithinRoot and RootsOverlap, read by segments (internal/access/path.go).
use mathlib.Core.List.{append-nil, append_assoc}
use sudostream.Access.Path.{normalize_rel_path, path_within_root, roots_overlap}
use sudostream.Prelude.{
  [], ap, arith, Bool, Bool-cases, false, if◌then◌else◌, inl, inr, List, refl, sym, true, ◌++◌,
  ◌||◌, ◌↔◌, ◌∙◌, ◌∷◌, ◌≡◌, ◌≢◌, ◌⊎◌,
}
use sudostream.Text.{Bytes, bytes_eq, has_prefix, is_empty, join, slash, split}
use sudostream.Text.Laws.Equality.{bytes_eq→eq, eq→bytes_eq}
use sudostream.Text.Laws.Prefix.{has_prefix-append, has_prefix→append}
use sudostream.Text.Laws.Split.{join-append, join-split, split-append_sep, split_ne}

-- The segments of one list begin another.
abbrev pub Begins : List Bytes → List Bytes → Type 0
Begins root path = (rest : List Bytes) × (path ≡ root ++ rest)

split-Begins :
    (p r : Bytes)
    → (p ≡ r) ⊎ ((s : Bytes) × (p ≡ r ++ (slash ∷ s)))
    → Begins (split slash r) (split slash p)
split-Begins p r (inl e) = ([], rw (e, append-nil) refl)
split-Begins p r (inr (s, e)) = (split slash s, rw e (split-append_sep slash r s))

joined :
    (p r : Bytes) (xs rest : List Bytes)
    → xs ≢ []
    → join slash xs ≡ r
    → join slash (xs ++ rest) ≡ p
    → (p ≡ r) ⊎ ((s : Bytes) × (p ≡ r ++ (slash ∷ s)))
joined p r [] rest n e q = absurd (n refl)
joined p r (x ∷ xs) [] n e q = inl (sym q ∙ ap (join slash) (append-nil (x ∷ xs)) ∙ e)
joined p r (x ∷ xs) (y ∷ ys) n e q = inr (
  join slash (y ∷ ys),
  sym q ∙ join-append slash x xs y ys ∙ ap (λ (t : Bytes). t ++ (slash ∷ join slash (y ∷ ys))) e,
)

Begins-split :
    (p r : Bytes)
    → Begins (split slash r) (split slash p)
    → (p ≡ r) ⊎ ((s : Bytes) × (p ≡ r ++ (slash ∷ s)))
Begins-split p r (rest, e) =
    joined p r (split slash r) rest (split_ne slash r) (join-split slash r)
      (sym (ap (join slash) e) ∙ join-split slash p)

-- The test of PathWithinRoot on normalized texts.
within_test :
    (p r : Bytes)
    → ((if bytes_eq p r then true else has_prefix p (r ++ (slash ∷ []))) ≡ true)
      ↔ ((p ≡ r) ⊎ ((s : Bytes) × (p ≡ r ++ (slash ∷ s))))
within_test p r = (forward, backward)
  where
    forward :
        (if bytes_eq p r then true else has_prefix p (r ++ (slash ∷ []))) ≡ true
        → (p ≡ r) ⊎ ((s : Bytes) × (p ≡ r ++ (slash ∷ s)))
    forward h = elim (Bool-cases (bytes_eq p r)) [
      | inl e ↦ inl (bytes_eq→eq p r e)
      | inr n ↦
          let (s, q) = has_prefix→append p (r ++ (slash ∷ [])) (rw n at h) in
          inr (s, q ∙ append_assoc r (slash ∷ []) s)
    ]

    backward :
        (p ≡ r) ⊎ ((s : Bytes) × (p ≡ r ++ (slash ∷ s)))
        → (if bytes_eq p r then true else has_prefix p (r ++ (slash ∷ []))) ≡ true
    backward (inl e) = rw (eq→bytes_eq p r e) refl
    backward (inr (s, e)) =
        ground (arith, has_prefix-append (r ++ (slash ∷ [])) s, append_assoc r (slash ∷ []) s, e)

abbrev within_normalized : Bytes → Bytes → Bool
within_normalized p r =
    if is_empty p || is_empty r
    then false
    else if bytes_eq p r
    then true
    else has_prefix p (r ++ (slash ∷ []))

within_normalized_iff :
    (p r : Bytes)
    → (within_normalized p r ≡ true)
      ↔ ((p ≢ []) × (r ≢ []) × Begins (split slash r) (split slash p))
within_normalized_iff [] r = (λ h. absurd (cc), λ k. absurd (k.0 refl))
within_normalized_iff (c ∷ p) [] = (λ h. absurd (cc), λ k. absurd (k.1 refl))
within_normalized_iff (c ∷ p) (d ∷ r) = (
  λ h. ((λ e. cc), (λ e. cc), split-Begins (c ∷ p) (d ∷ r) ((within_test (c ∷ p) (d ∷ r)).0 h)),
  λ k. (within_test (c ∷ p) (d ∷ r)).1 (Begins-split (c ∷ p) (d ∷ r) k.2),
)

-- A path lies within a root exactly when both name something and the root's segments begin the
-- path's.
pub path_within_root_iff :
    (path root : Bytes)
    → (path_within_root path root ≡ true) ↔ (
        (normalize_rel_path path ≢ [])
        × (normalize_rel_path root ≢ [])
        × Begins (split slash (normalize_rel_path root)) (split slash (normalize_rel_path path)))
unfolding path_within_root
path_within_root_iff path root =
    within_normalized_iff (normalize_rel_path path) (normalize_rel_path root)

-- RootsOverlap is symmetric.
pub roots_overlap_comm : (a b : Bytes) → roots_overlap a b ≡ roots_overlap b a
unfolding roots_overlap
roots_overlap_comm a b = or_comm (path_within_root a b) (path_within_root b a)
  where
    or_comm : (x y : Bool) → (x || y) ≡ (y || x)
    or_comm true true = refl
    or_comm true false = refl
    or_comm false true = refl
    or_comm false false = refl
