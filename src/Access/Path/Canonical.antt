-- ===== src/Access/Path/Canonical.antt =====
-- What CanonicalRelPath accepts and returns (internal/access/path.go).
use sudostream.Access.Path.{
  canonical_of, canonical_rel_path, clean_media_rel_path, climbs, normalize_rel_path,
  unescape_path_limited,
}
use sudostream.Prelude.{
  [], All, Any, Any-All, Any-append_right, Any-elim, ap, arith, Bool-cases, false, inl, inr, List,
  none, Option-cases, refl, some, subst, true, ◌++◌, ◌↔◌, ◌∷◌, ◌≡◌, ◌≢◌, ◌⊎◌,
}
use sudostream.Text.{
  Bytes, bytes_eq, clean_rooted, codes, contains, dot, has_prefix, is_empty, join, slash, split,
  trim_slash,
}
use sudostream.Text.Laws.Clean.{
  cleaned, cleaned-IsProper, cleaned-join, is_empty_of_ne, IsProper, split-join_of_IsProper,
}
use sudostream.Text.Laws.Equality.{bytes_eq→eq}
use sudostream.Text.Laws.Prefix.{contains→append, has_prefix→append}
use sudostream.Text.Laws.Split.{split-append_sep}

-- The cleaned path without its leading slash.
pub clean_media_rel_path-join : (s : Bytes) → clean_media_rel_path s ≡ join slash (cleaned s)
unfolding clean_media_rel_path cleaned clean_rooted bytes_eq trim_slash
clean_media_rel_path-join s = ground arith

-- A canonical path is empty, for the media root, or made of proper segments.
abbrev pub IsCanonical : Bytes → Type 0
IsCanonical p = (p ≡ []) ⊎ All IsProper (split slash p)

join-IsCanonical : (segs : List Bytes) → All IsProper segs → IsCanonical (join slash segs)
join-IsCanonical [] h = inl (unfold join in refl)
join-IsCanonical (x ∷ xs) h = inr (rw (split-join_of_IsProper x xs h) h)

pub clean_media_rel_path-IsCanonical : (s : Bytes) → IsCanonical (clean_media_rel_path s)
clean_media_rel_path-IsCanonical s =
    rw (clean_media_rel_path-join s) (join-IsCanonical (cleaned s) (cleaned-IsProper s))

-- Cleaning a path that is clean already changes nothing.
pub clean_media_rel_path_idem :
    (s : Bytes) → clean_media_rel_path (clean_media_rel_path s) ≡ clean_media_rel_path s
clean_media_rel_path_idem s =
    rw (clean_media_rel_path-join s, clean_media_rel_path-join)
      (ap (join slash) (cleaned-join (cleaned s) (cleaned-IsProper s)))

abbrev IsDots : Bytes → Type 0
IsDots s = s ≡ dot ∷ (dot ∷ [])

Dots-front : (b : Bytes) → Any IsDots (split slash (dot ∷ (dot ∷ (slash ∷ b))))
Dots-front b = rw (split-append_sep slash (dot ∷ (dot ∷ [])) b) (unfold split in inl refl)

Dots-after : (a b : Bytes) → Any IsDots (split slash (a ++ (slash ∷ (dot ∷ (dot ∷ (slash ∷ b))))))
Dots-after a b =
    rw (split-append_sep slash a (dot ∷ (dot ∷ (slash ∷ b))))
      (Any-append_right IsDots (split slash a) _ (Dots-front b))

Dots_of_climbs : (p : Bytes) → climbs p ≡ true → Any IsDots (split slash p)
unfolding climbs
Dots_of_climbs p h = elim (Bool-cases (bytes_eq p (codes ".."))) [
  | inl e ↦ rw (bytes_eq→eq p (codes "..") e) (unfold split in inl refl)
  | inr n ↦ elim (Bool-cases (has_prefix p (codes "../"))) [
    | inl e ↦ let (r, q) = has_prefix→append p (codes "../") e in rw q (Dots-front r)
    | inr m ↦
        let (a, b, q) = contains→append p (codes "/../") (rw (n, m) at h) in rw q (Dots-after a b)
  ]
]

climbs_of_IsCanonical : (p : Bytes) → IsCanonical p → climbs p ≡ false
climbs_of_IsCanonical p (inl e) = rw e (unfold climbs bytes_eq has_prefix contains in refl)
climbs_of_IsCanonical p (inr h) = elim (Bool-cases (climbs p)) [
  | inl t ↦ absurd (
      Any-elim (λ s. IsDots s × IsProper s) (λ s b. b.1.not_dots b.0) (split slash p)
        (Any-All IsDots IsProper _ (Dots_of_climbs p t) h))
  | inr f ↦ f
]

canonical_of-some :
    (path_value : Bytes) → canonical_of (some path_value) ≡ some (clean_media_rel_path path_value)
canonical_of-some s = rw (climbs_of_IsCanonical _ (clean_media_rel_path-IsCanonical s)) refl

-- Whatever CanonicalRelPath returns is empty, or made of segments none of which is empty, a dot or
-- two dots.
pub canonical_rel_path-IsCanonical :
    (raw : Bytes) {p : Bytes} → canonical_rel_path raw ≡ some p → IsCanonical p
unfolding canonical_rel_path
canonical_rel_path-IsCanonical raw {p} h = elim (Bool-cases (is_empty (normalize_rel_path raw))) [
  | inl e ↦ inl (ground (arith, h, e))
  | inr n ↦ elim (Option-cases (unescape_path_limited (normalize_rel_path raw))) [
    | inl e ↦ absurd (ground (arith, h, n, e))
    | inr (u, e) ↦
        let q : clean_media_rel_path u ≡ p = ground (arith, canonical_of-some u) in
        subst IsCanonical q (clean_media_rel_path-IsCanonical u)
  ]
]

-- CanonicalRelPath fails only where the limited unescaping does: its last guard never fires.
pub canonical_rel_path-none :
    (raw : Bytes)
    → (canonical_rel_path raw ≡ none)
      ↔ ((normalize_rel_path raw ≢ []) × (unescape_path_limited (normalize_rel_path raw) ≡ none))
unfolding canonical_rel_path
canonical_rel_path-none raw = elim (Option-cases (unescape_path_limited (normalize_rel_path raw))) [
  | inl e ↦
      (λ h. (λ z. ground (arith, h, ap is_empty z), e), λ k. ground (arith, is_empty_of_ne _ k.0))
  | inr (u, e) ↦ (λ h. absurd (ground (arith, canonical_of-some u)), λ k. absurd (ground arith))
]
