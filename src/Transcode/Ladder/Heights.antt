-- ===== src/Transcode/Ladder/Heights.antt =====
-- The heights of the ladder (internal/transcode/playlist_vod.go).
use sudostream.Prelude.{
  sym, subst, ◌∙◌, ap, not, ◌&&◌, ltb, if◌then◌else◌, zero, All-keep_test, refl, suc, inr, leb→le,
  All-keep, ◌==◌, Any, arith, All-map, inl, leb, [], false, true, ◌≤◌, Bool-cases, insert_by, ◌<◌,
  All, ◌≡◌,
}
use sudostream.Transcode.Ladder.{
  keep, map, ◌∷◌, Bool, ℕ, List, QualityRung, all_rungs, or_native, no_upscale, quality_rungs,
  quality_rung_included, highest_first, ladder_heights,
}

-- Every height is above all that follow it.
abbrev pub Descending : List ℕ → Type 0
Descending [] = Unit
Descending (x ∷ xs) = All (λ y. y < x) xs × Descending xs

highest_first-Descending : (xs : List ℕ) → Descending xs → highest_first xs ≡ xs
highest_first-Descending [] h = refl
highest_first-Descending (x ∷ xs) h = rw (highest_first-Descending xs h.1) (in_front xs h.0)
  where
    in_front : (ys : List ℕ) → All (λ y. y < x) ys → insert_by (λ a b. leb b a) x ys ≡ x ∷ ys
    in_front [] k = refl
    in_front (y ∷ ys) k = let e : leb y x ≡ true = ground arith in rw e refl

abbrev heights_of : List QualityRung → List ℕ
heights_of rungs = map (λ (rung : QualityRung). rung.height) rungs

All-heights_of :
    (P : ℕ → Type 0) (rungs : List QualityRung)
    → All (λ (rung : QualityRung). P rung.height) rungs
    → All P (heights_of rungs)
All-heights_of P [] h = tt
All-heights_of P (r ∷ rs) h = (h.0, All-heights_of P rs h.1)

heights_of-All :
    (P : ℕ → Type 0) (rungs : List QualityRung)
    → All P (heights_of rungs)
    → All (λ (rung : QualityRung). P rung.height) rungs
heights_of-All P [] h = tt
heights_of-All P (r ∷ rs) h = (h.0, heights_of-All P rs h.1)

Descending-keep :
    (p : QualityRung → Bool) (rungs : List QualityRung)
    → Descending (heights_of rungs)
    → Descending (heights_of (keep p rungs))
Descending-keep p [] h = tt
Descending-keep p (r ∷ rs) h = elim (Bool-cases (p r)) [
  | inl t ↦ rw t (
    All-heights_of (λ y. y < r.height) (keep p rs)
        (All-keep (λ s. s.height < r.height) p rs (heights_of-All (λ y. y < r.height) rs h.0)),
    Descending-keep p rs h.1,
  )
  | inr f ↦ rw f (Descending-keep p rs h.1)
]

all_rungs-Descending : Descending (heights_of all_rungs)
all_rungs-Descending = ground arith

no_upscale-All : (h : ℕ) → All (λ (rung : QualityRung). rung.height ≤ h) (no_upscale h)
no_upscale-All h =
    All-map (λ (rung : QualityRung). leb rung.height h ≡ true)
      (λ (rung : QualityRung). rung.height ≤ h) (λ rung e. leb→le rung.height h e) (no_upscale h)
      (All-keep_test (λ rung. leb rung.height h) all_rungs)

or_native-ladder :
    (h : ℕ) (rungs : List QualityRung)
    → Descending (heights_of rungs)
    → All (λ (rung : QualityRung). rung.height ≤ h) rungs
    → Descending (heights_of (or_native h rungs))
      × All (λ (rung : QualityRung). rung.height ≤ h) (or_native h rungs)
or_native-ladder h [] d a = ((tt, tt), (omega arith, tt))
or_native-ladder h (r ∷ rs) d a = (d, a)

included-Any :
    (rungs : List QualityRung) (h : ℕ)
    → quality_rung_included rungs h ≡ true
    → Any (λ y. y ≡ h) (heights_of rungs)
unfolding quality_rung_included
included-Any [] h e = absurd (cc)
included-Any (r ∷ rs) h e = elim (Bool-cases (r.height == h)) [
  | inl t ↦ inl (ground arith)
  | inr f ↦ inr (included-Any rs h (rw f at e))
]

below-included :
    (rungs : List QualityRung) (h : ℕ)
    → quality_rung_included rungs h ≡ false
    → All (λ (rung : QualityRung). rung.height ≤ h) rungs
    → All (λ y. y < h) (heights_of rungs)
unfolding quality_rung_included
below-included [] h e a = tt
below-included (r ∷ rs) h e a = elim (Bool-cases (r.height == h)) [
  | inl t ↦ absurd (ground (arith, t, e))
  | inr f ↦ (let le = a.0 in ground (arith, f, le), below-included rs h (rw f at e) a.1)
]

-- For a source with a height, LadderHeights lists heights from the highest down with none twice,
-- none above the source's, and the source's own among them.
pub ladder_heights_lem :
    (source_height : ℕ)
    → 0 < source_height
    → Descending (ladder_heights source_height)
      × All (λ h. h ≤ source_height) (ladder_heights source_height)
      × Any (λ h. h ≡ source_height) (ladder_heights source_height)
unfolding ladder_heights quality_rungs
ladder_heights_lem zero pos_height = absurd (omega arith)
ladder_heights_lem (suc n) pos_height = elim (Bool-cases (quality_rung_included rungs (suc n))) [
  | inl t ↦
      subst IsLadder (sym (sorted false (ground (arith, t)) ladder.0))
        (ladder.0, All-heights_of (λ h. h ≤ suc n) rungs ladder.1, included-Any rungs (suc n) t)
  | inr f ↦
      let under = below-included rungs (suc n) f ladder.1 in
      subst IsLadder (sym (sorted true (ground (arith, f)) (under, ladder.0)))
        ((under, ladder.0), (omega arith, All-heights_of (λ h. h ≤ suc n) rungs ladder.1), inl refl)
]
  where
    rungs : List QualityRung
    rungs = quality_rungs (suc n)

    IsLadder : List ℕ → Type 0
    IsLadder heights =
        Descending heights × All (λ h. h ≤ suc n) heights × Any (λ h. h ≡ suc n) heights

    heights_with : Bool → List ℕ
    heights_with native = if native then suc n ∷ heights_of rungs else heights_of rungs

    sorted :
        (native : Bool)
        → (ltb 0 (suc n) && not (quality_rung_included rungs (suc n))) ≡ native
        → Descending (heights_with native)
        → ladder_heights (suc n) ≡ heights_with native
    sorted native e d =
        ap (λ b. highest_first (heights_with b)) e
        ∙ highest_first-Descending (heights_with native) d

    ladder : Descending (heights_of rungs) × All (λ (rung : QualityRung). rung.height ≤ suc n) rungs
    ladder =
        or_native-ladder (suc n) (no_upscale (suc n))
          (Descending-keep (λ rung. leb rung.height (suc n)) all_rungs all_rungs-Descending)
          (no_upscale-All (suc n))
