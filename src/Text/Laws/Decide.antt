-- ===== src/Text/Laws/Decide.antt =====
-- Boolean tests for what is assumed of names, so that it can be checked on a given one.
use sudostream.Text.Laws.Equality.{eq→bytes_eq}
use sudostream.Text.Laws.Clean.{IsProper}
use sudostream.Text.Laws.Split.{SepFree}
use sudostream.Prelude.{
  refl, ap, ◌==◌, arith, All-append, some, ◌≢◌, not, true, ◌++◌, ◌&&◌, All, ◌≡◌, Bool, ℕ, [], ◌∷◌,
  false,
}
use sudostream.Text.{slash, dot, bytes_eq, is_empty, has_prefix, contains, path_unescape, Bytes}

abbrev pub free_of : ℕ → Bytes → Bool
free_of sep [] = true
free_of sep (c ∷ s) = not (c == sep) && free_of sep s

free_of→SepFree : (sep : ℕ) (s : Bytes) → free_of sep s ≡ true → SepFree sep s
free_of→SepFree sep [] h = tt
free_of→SepFree sep (c ∷ s) h = (λ e. ground arith, free_of→SepFree sep s (ground arith))

abbrev pub is_proper : Bytes → Bool
is_proper s =
    not (is_empty s)
    && not (bytes_eq s (dot ∷ []))
    && not (bytes_eq s (dot ∷ (dot ∷ [])))
    && free_of slash s

pub is_proper→IsProper : (s : Bytes) → is_proper s ≡ true → IsProper s
is_proper→IsProper s h = record {
  nonempty = λ e. ground (arith, ap is_empty e);
  not_dot = λ e. ground (arith, eq→bytes_eq _ _ e);
  not_dots = λ e. ground (arith, eq→bytes_eq _ _ e);
  slash_free = free_of→SepFree slash s (ground arith);
}

-- No percent sign, so that unescaping again changes nothing, and no NUL, which no name has.
abbrev pub IsLiteral : Bytes → Type 0
IsLiteral s = All (λ c. (c ≢ b'%') × (c ≢ 0)) s

pub free_of→IsLiteral : (s : Bytes) → (free_of b'%' s && free_of 0 s) ≡ true → IsLiteral s
free_of→IsLiteral [] h = tt
free_of→IsLiteral (c ∷ s) h =
    ((λ e. ground arith, λ e. ground arith), free_of→IsLiteral s (ground arith))

pub path_unescape_of_IsLiteral : (s : Bytes) → IsLiteral s → path_unescape s ≡ some s
unfolding path_unescape
path_unescape_of_IsLiteral [] h = refl
path_unescape_of_IsLiteral (c ∷ []) h = ground (arith, h.0.0)
path_unescape_of_IsLiteral (c ∷ (a ∷ [])) h =
    ground (arith, h.0.0, path_unescape_of_IsLiteral (a ∷ []) h.1)
path_unescape_of_IsLiteral (c ∷ (a ∷ (b ∷ s))) h =
    ground (arith, h.0.0, path_unescape_of_IsLiteral (a ∷ (b ∷ s)) h.1)

pub contains-nul_of_IsLiteral : (s : Bytes) → IsLiteral s → contains s (0 ∷ []) ≡ false
unfolding contains has_prefix
contains-nul_of_IsLiteral [] h = refl
contains-nul_of_IsLiteral (c ∷ s) h = ground (arith, h.0.1, contains-nul_of_IsLiteral s h.1)

pub IsLiteral-append : (a b : Bytes) → IsLiteral a → IsLiteral b → IsLiteral (a ++ b)
IsLiteral-append a b h k = All-append (λ c. (c ≢ b'%') × (c ≢ 0)) a b h k
