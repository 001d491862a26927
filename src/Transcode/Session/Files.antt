-- ===== src/Transcode/Session/Files.antt =====
-- The files of a rendition: the highest segment, what a restart removes, and which segments are
-- taken to be complete (internal/transcode/session.go).
use sudostream.Prelude.{
  [], All, All-map, Any, Any-map, arith, Bool-cases, inl, inr, List, ltb, none, Option, refl, some,
  subst, sym, ℕ, ◌∙◌, ◌∷◌, ◌≡◌, ◌≤◌, ◌⊎◌,
}
use sudostream.Transcode.Session.{
  Entry, entry_index, Folder, highest_of, highest_segment_index, raise,
}

abbrev pub entries_of : Folder → List Entry
entries_of none = []
entries_of (some entries) = entries

abbrev Bounds : Option ℕ → Option ℕ → Type 0
Bounds none index = index ≡ none
Bounds (some n) none = Unit
Bounds (some n) (some m) = m ≤ n

Bounds-raise_new : (e h : Option ℕ) → Bounds (raise e h) e
Bounds-raise_new none none = refl
Bounds-raise_new none (some h) = tt
Bounds-raise_new (some e) none = omega arith
Bounds-raise_new (some e) (some h) = elim (Bool-cases (ltb h e)) [
  | inl t ↦ rw t (omega arith)
  | inr f ↦ rw f (ground arith)
]

Bounds-raise_old : (e h i : Option ℕ) → Bounds h i → Bounds (raise e h) i
Bounds-raise_old none h i b = b
Bounds-raise_old (some e) none none b = tt
Bounds-raise_old (some e) none (some i) b = absurd (cc)
Bounds-raise_old (some e) (some h) none b = elim (Bool-cases (ltb h e)) [
  | inl t ↦ rw t tt
  | inr f ↦ rw f tt
]
Bounds-raise_old (some e) (some h) (some i) b = elim (Bool-cases (ltb h e)) [
  | inl t ↦ rw t (ground arith)
  | inr f ↦ rw f b
]

Bounds-highest_of :
    (h : Option ℕ) (es : List Entry) (i : Option ℕ) → Bounds h i → Bounds (highest_of h es) i
unfolding highest_of
Bounds-highest_of h [] i b = b
Bounds-highest_of h (e ∷ es) i b =
    Bounds-highest_of (raise (entry_index e) h) es i (Bounds-raise_old (entry_index e) h i b)

Bounds-All :
    (h : Option ℕ) (es : List Entry) → All (λ e. Bounds (highest_of h es) (entry_index e)) es
unfolding highest_of
Bounds-All h [] = tt
Bounds-All h (e ∷ es) = (
  Bounds-highest_of (raise (entry_index e) h) es (entry_index e)
      (Bounds-raise_new (entry_index e) h),
  Bounds-All (raise (entry_index e) h) es,
)

raise_cases : (e h : Option ℕ) → (raise e h ≡ h) ⊎ (raise e h ≡ e)
raise_cases none h = inl refl
raise_cases (some e) none = inr refl
raise_cases (some e) (some h) = elim (Bool-cases (ltb h e)) [
  | inl t ↦ inr (rw t refl)
  | inr f ↦ inl (rw f refl)
]

highest_of-Any :
    (h : Option ℕ) (es : List Entry)
    → (highest_of h es ≡ h) ⊎ Any (λ e. highest_of h es ≡ entry_index e) es
unfolding highest_of
highest_of-Any h [] = inl refl
highest_of-Any h (e ∷ es) = elim (highest_of-Any (raise (entry_index e) h) es) [
  | inr a ↦ inr (inr a)
  | inl same ↦ elim (raise_cases (entry_index e) h) [
    | inl old ↦ inl (same ∙ old)
    | inr new ↦ inr (inl (same ∙ new))
  ]
]

-- Not an index above `n`.
abbrev pub IsAtMost : ℕ → Option ℕ → Type 0
IsAtMost n none = Unit
IsAtMost n (some i) = i ≤ n

IsAtMost-Bounds : (n : ℕ) (index : Option ℕ) → Bounds (some n) index → IsAtMost n index
IsAtMost-Bounds n none b = tt
IsAtMost-Bounds n (some i) b = b

-- highestSegmentIndex returns the index of one of the segment files, and no file has a higher one.
pub highest_segment_index-some :
    (folder : Folder) {n : ℕ}
    → highest_segment_index folder ≡ some n
    → Any (λ e. entry_index e ≡ some n) (entries_of folder)
      × All (λ e. IsAtMost n (entry_index e)) (entries_of folder)
unfolding highest_segment_index
highest_segment_index-some none h = absurd (cc)
highest_segment_index-some (some es) {n} h = (present (highest_of-Any none es), bound)
  where
    present :
        (highest_of none es ≡ none) ⊎ Any (λ e. highest_of none es ≡ entry_index e) es
        → Any (λ e. entry_index e ≡ some n) es
    present (inl nothing) = absurd (cc (sym h ∙ nothing))
    present (inr a) =
        Any-map (λ e. highest_of none es ≡ entry_index e) (λ e. entry_index e ≡ some n)
          (λ e q. sym q ∙ h) es a

    bound : All (λ e. IsAtMost n (entry_index e)) es
    bound =
        All-map (λ e. Bounds (highest_of none es) (entry_index e)) (λ e. IsAtMost n (entry_index e))
          (λ e b. IsAtMost-Bounds n (entry_index e) (subst (λ o. Bounds o (entry_index e)) h b)) es
          (Bounds-All none es)

-- It returns none only where no file of the directory is a segment.
pub highest_segment_index-none :
    (folder : Folder)
    → highest_segment_index folder ≡ none
    → All (λ e. entry_index e ≡ none) (entries_of folder)
unfolding highest_segment_index
highest_segment_index-none none h = tt
highest_segment_index-none (some es) h =
    All-map (λ e. Bounds (highest_of none es) (entry_index e)) (λ e. entry_index e ≡ none)
      (λ e b. subst (λ o. Bounds o (entry_index e)) h b) es (Bounds-All none es)
