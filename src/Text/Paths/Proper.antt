-- ===== src/Text/Paths/Proper.antt =====
-- path.Join of names leaves them as they are.
use sudostream.Text.Laws.Clean.{split-join_of_IsProper, bytes_eq_of_ne, is_empty_of_ne, IsProper}
use mathlib.Core.List.{reverse, List, append_assoc, append-nil, reverse-cons}
use sudostream.Prelude.{ap, arith, sym, refl, ◌++◌, ◌∙◌, ◌≡◌, ◌≢◌, All, ℕ, [], ◌∷◌}
use sudostream.Text.{dot, split, slash, join, Bytes}
use sudostream.Text.Paths.{clean, relative_segments, relative_step, or_dot, cleaned_or_empty}

relative_step_of_IsProper :
    (out : List Bytes) (seg : Bytes) → IsProper seg → relative_step out seg ≡ seg ∷ out
unfolding relative_step
relative_step_of_IsProper out seg p =
    rw
      (
        is_empty_of_ne seg p.nonempty,
        bytes_eq_of_ne seg (dot ∷ []) p.not_dot,
        bytes_eq_of_ne seg (dot ∷ (dot ∷ [])) p.not_dots,
      )
      refl

relative_segments_of_IsProper :
    (out segs : List Bytes) → All IsProper segs → relative_segments out segs ≡ reverse out ++ segs
unfolding relative_segments
relative_segments_of_IsProper out [] h = sym (append-nil (reverse out))
relative_segments_of_IsProper out (x ∷ xs) h =
    ap (λ z. relative_segments z xs) (relative_step_of_IsProper out x h.0)
    ∙ relative_segments_of_IsProper (x ∷ out) xs h.1
    ∙ ap (λ z. z ++ xs) (reverse-cons x out)
    ∙ append_assoc (reverse out) (x ∷ []) xs

clean-slash :
    (c : ℕ) (s : Bytes)
    → c ≢ slash
    → clean (c ∷ s) ≡ or_dot (join slash (relative_segments [] (split slash (c ∷ s))))
unfolding clean
clean-slash c s h = ground arith

or_dot_of : (c : ℕ) (s t : Bytes) → t ≡ c ∷ s → or_dot t ≡ t
or_dot_of c s t e = rw e refl

clean_text :
    (c : ℕ) (s : Bytes) (x : Bytes) (xs : List Bytes)
    → join slash (x ∷ xs) ≡ c ∷ s
    → c ≢ slash
    → All IsProper (x ∷ xs)
    → cleaned_or_empty (join slash (x ∷ xs)) ≡ join slash (x ∷ xs)
clean_text c s x xs e n h =
    rw e (clean-slash c s n)
    ∙ ap (λ z. or_dot (join slash (relative_segments [] (split slash z)))) (sym e)
    ∙ rw (split-join_of_IsProper x xs h, relative_segments_of_IsProper [] (x ∷ xs) h)
        (or_dot_of c s (join slash (x ∷ xs)) e)

-- What joins proper names is clean.
pub cleaned_or_empty-join :
    (x : Bytes) (xs : List Bytes)
    → All IsProper (x ∷ xs)
    → cleaned_or_empty (join slash (x ∷ xs)) ≡ join slash (x ∷ xs)
unfolding join
cleaned_or_empty-join [] xs h = absurd (h.0.nonempty refl)
cleaned_or_empty-join (c ∷ x) [] h = clean_text c x (c ∷ x) [] refl h.0.slash_free.0 h
cleaned_or_empty-join (c ∷ x) (y ∷ ys) h =
    clean_text c (x ++ (slash ∷ join slash (y ∷ ys))) (c ∷ x) (y ∷ ys) refl h.0.slash_free.0 h
