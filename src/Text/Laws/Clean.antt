-- ===== src/Text/Laws/Clean.antt =====
-- What filepath.Clean leaves of a rooted path: proper segments, and nothing else to clean.
use mathlib.Core.List.{append-nil, append_assoc, reverse-cons}
use sudostream.Prelude.{
  [], All, All-reverse, ap, arith, Bool-cases, false, inl, inr, List, refl, reverse, sym, true,
  ◌++◌, ◌||◌, ◌∙◌, ◌∷◌, ◌≡◌, ◌≢◌,
}
use sudostream.Text.{
  Bytes, bytes_eq, clean_segments, clean_step, dot, is_empty, join, pop, slash, split,
}
use sudostream.Text.Laws.Equality.{bytes_eq→eq, eq→bytes_eq}
use sudostream.Text.Laws.Split.{SepFree, split-join, split-SepFree}

-- A segment that names an entry of a directory.
pub record IsProper (seg : Bytes) : Type 0 where
  pub nonempty : seg ≢ []
  pub not_dot : seg ≢ dot ∷ []
  pub not_dots : seg ≢ dot ∷ (dot ∷ [])
  pub slash_free : SepFree slash seg

pub All-pop {κ} : (P : Bytes → Type κ) (out : List Bytes) → All P out → All P (pop out)
All-pop P [] h = h
All-pop P (x ∷ out) h = h.1

pub is_empty→eq : (s : Bytes) → is_empty s ≡ true → s ≡ []
is_empty→eq [] h = refl
is_empty→eq (c ∷ s) h = cc

kept-IsProper :
    (seg : Bytes)
    → (is_empty seg || bytes_eq seg (dot ∷ [])) ≡ false
    → bytes_eq seg (dot ∷ (dot ∷ [])) ≡ false
    → SepFree slash seg
    → IsProper seg
kept-IsProper seg keep down free = record {
  nonempty = λ e. ground (arith, ap is_empty e);
  not_dot = λ e. ground (arith, eq→bytes_eq _ _ e);
  not_dots = λ e. cc (down, eq→bytes_eq _ _ e);
  slash_free = free;
}

clean_step-IsProper :
    (out : List Bytes) (seg : Bytes)
    → All IsProper out
    → SepFree slash seg
    → All IsProper (clean_step out seg)
unfolding clean_step
clean_step-IsProper out seg h free = elim (Bool-cases (is_empty seg || bytes_eq seg (dot ∷ []))) [
  | inl skip ↦ rw skip h
  | inr keep ↦ elim (Bool-cases (bytes_eq seg (dot ∷ (dot ∷ [])))) [
    | inl up ↦ rw (keep, up) (All-pop IsProper out h)
    | inr down ↦ rw (keep, down) (kept-IsProper seg keep down free, h)
  ]
]

pub clean_segments-IsProper :
    (out segs : List Bytes)
    → All IsProper out
    → All (SepFree slash) segs
    → All IsProper (clean_segments out segs)
unfolding clean_segments
clean_segments-IsProper out [] h k = All-reverse IsProper out h
clean_segments-IsProper out (seg ∷ segs) h k =
    clean_segments-IsProper (clean_step out seg) segs (clean_step-IsProper out seg h k.0) k.1

pub bytes_eq_of_ne : (a b : Bytes) → a ≢ b → bytes_eq a b ≡ false
bytes_eq_of_ne a b n = elim (Bool-cases (bytes_eq a b)) [
  | inl e ↦ absurd (n (bytes_eq→eq a b e))
  | inr f ↦ f
]

pub is_empty_of_ne : (a : Bytes) → a ≢ [] → is_empty a ≡ false
is_empty_of_ne [] n = absurd (n refl)
is_empty_of_ne (c ∷ s) n = refl

clean_step_of_IsProper :
    (out : List Bytes) (seg : Bytes) → IsProper seg → clean_step out seg ≡ seg ∷ out
unfolding clean_step
clean_step_of_IsProper out seg p =
    rw
      (
        is_empty_of_ne seg p.nonempty,
        bytes_eq_of_ne seg (dot ∷ []) p.not_dot,
        bytes_eq_of_ne seg (dot ∷ (dot ∷ [])) p.not_dots,
      )
      refl

-- Proper segments are left as they are.
pub clean_segments_of_IsProper :
    (out segs : List Bytes) → All IsProper segs → clean_segments out segs ≡ reverse out ++ segs
unfolding clean_segments
clean_segments_of_IsProper out [] h = sym (append-nil (reverse out))
clean_segments_of_IsProper out (seg ∷ segs) h = rw (clean_step_of_IsProper out seg h.0) (
    clean_segments_of_IsProper (seg ∷ out) segs h.1
    ∙ (rw (reverse-cons seg out, append_assoc) refl))

All-SepFree : (segs : List Bytes) → All IsProper segs → All (SepFree slash) segs
All-SepFree [] h = tt
All-SepFree (x ∷ xs) h = (h.0.slash_free, All-SepFree xs h.1)

-- The segments of a text, cleaned.
unfoldable pub cleaned : Bytes → List Bytes
cleaned s = clean_segments [] (split slash s)

pub cleaned-IsProper : (s : Bytes) → All IsProper (cleaned s)
unfolding cleaned
cleaned-IsProper s = clean_segments-IsProper [] (split slash s) tt (split-SepFree slash s)

-- A list of proper segments is found again in the text that it joins to.
pub cleaned-join : (segs : List Bytes) → All IsProper segs → cleaned (join slash segs) ≡ segs
unfolding cleaned
cleaned-join [] h = unfold join split clean_segments clean_step in refl
cleaned-join (x ∷ xs) h =
    rw (split-join slash x xs h.0.slash_free (All-SepFree xs h.1))
      (clean_segments_of_IsProper [] (x ∷ xs) h)

pub split-join_of_IsProper :
    (x : Bytes) (xs : List Bytes)
    → All IsProper (x ∷ xs)
    → split slash (join slash (x ∷ xs)) ≡ x ∷ xs
split-join_of_IsProper x xs h = split-join slash x xs h.0.slash_free (All-SepFree xs h.1)
