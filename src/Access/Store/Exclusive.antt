-- ===== src/Access/Store/Exclusive.antt =====
-- No two registered roots overlap, and AddRoot keeps it so (internal/access/postgres/store.go).
use sudostream.Access.Path.{normalize_rel_path, path_within_root, roots_overlap}
use sudostream.Access.Path.Within.{Begins, path_within_root_iff}
use sudostream.Access.Store.{RootRow}
use sudostream.Prelude.{
  [], All, All-keep, All-map, arith, Bool, Bool-cases, false, inl, inr, keep, length, List, refl,
  sym, true, ◌++◌, ◌∙◌, ◌∷◌, ◌≡◌, ◌≤◌, ◌⊎◌,
}
use sudostream.Text.{Bytes, slash, split}

abbrev pub Apart : Bytes → RootRow → Type 0
Apart path r = roots_overlap path r.rel_path ≡ false

-- No two rows hold roots that are equal or nested.
abbrev pub Exclusive : List RootRow → Type 0
Exclusive [] = Unit
Exclusive (r ∷ rs) = All (Apart r.rel_path) rs × Exclusive rs

pub Exclusive-keep :
    (p : RootRow → Bool) (rows : List RootRow) → Exclusive rows → Exclusive (keep p rows)
Exclusive-keep p [] h = tt
Exclusive-keep p (r ∷ rs) h = elim (Bool-cases (p r)) [
  | inl t ↦ rw t (All-keep (Apart r.rel_path) p rs h.0, Exclusive-keep p rs h.1)
  | inr f ↦ rw f (Exclusive-keep p rs h.1)
]

Begins-total : (a b x y : List Bytes) → a ++ x ≡ b ++ y → Begins a b ⊎ Begins b a
Begins-total [] b x y e = inl (b, refl)
Begins-total (s ∷ a) [] x y e = inr (s ∷ a, refl)
Begins-total (s ∷ a) (t ∷ b) x y e =
    let same : s ≡ t = cc in
    elim (Begins-total a b x y (cc)) [ inl (r, q) ↦ inl (r, cc) | inr (r, q) ↦ inr (r, cc) ]

overlap_left : (a b : Bytes) → path_within_root a b ≡ true → roots_overlap a b ≡ true
unfolding roots_overlap
overlap_left a b h = ground arith

overlap_right : (a b : Bytes) → path_within_root b a ≡ true → roots_overlap a b ≡ true
unfolding roots_overlap
overlap_right a b h = ground arith

pub apart_of_within :
    (a b : Bytes)
    → path_within_root a b ≡ false
    → path_within_root b a ≡ false
    → roots_overlap a b ≡ false
unfolding roots_overlap
apart_of_within a b h k = ground arith

-- Two roots that hold one path overlap.
roots_overlap_of_path :
    (path a b : Bytes)
    → path_within_root path a ≡ true
    → path_within_root path b ≡ true
    → roots_overlap a b ≡ true
roots_overlap_of_path path a b h k =
    let ha = (path_within_root_iff path a).0 h in
    let hb = (path_within_root_iff path b).0 k in
    elim (Begins-total (split slash (normalize_rel_path a)) (split slash (normalize_rel_path b))
      ha.2.0 hb.2.0 (sym ha.2.1 ∙ hb.2.1)) [
        | inl ab ↦ overlap_right a b ((path_within_root_iff b a).1 (hb.1, ha.1, ab))
        | inr ba ↦ overlap_left a b ((path_within_root_iff a b).1 (ha.1, hb.1, ba))
      ]

keep_of_none {ℓ} :
    {A : Type ℓ} (p : A → Bool) (xs : List A) → All (λ x. p x ≡ false) xs → keep p xs ≡ []
keep_of_none p [] h = refl
keep_of_none p (x ∷ xs) h = rw (h.0) (keep_of_none p xs h.1)

Apart-holds :
    (path root : Bytes) (r : RootRow)
    → path_within_root path root ≡ true
    → Apart root r
    → path_within_root path r.rel_path ≡ false
Apart-holds path root r h k = elim (Bool-cases (path_within_root path r.rel_path)) [
  | inl t ↦ absurd (ground (arith, roots_overlap_of_path path root r.rel_path h t, k))
  | inr f ↦ f
]

-- In such a registry at most one row holds a path: the owner of a path is unique.
pub Exclusive-owner :
    (path : Bytes) (rows : List RootRow)
    → Exclusive rows
    → length (keep (λ r. path_within_root path r.rel_path) rows) ≤ 1
Exclusive-owner path [] h = omega arith
Exclusive-owner path (r ∷ rs) h = elim (Bool-cases (path_within_root path r.rel_path)) [
  | inl t ↦
      rw
        (
          t,
          keep_of_none (λ s. path_within_root path s.rel_path) rs
              (All-map (Apart r.rel_path) (λ s. path_within_root path s.rel_path ≡ false)
                (λ s k. Apart-holds path r.rel_path s t k) rs h.0),
        )
        (omega arith)
  | inr f ↦ rw f (Exclusive-owner path rs h.1)
]
