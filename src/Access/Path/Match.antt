-- ===== src/Access/Path/Match.antt =====
-- MatchLibrary picks the longest root that holds the path (internal/access/path.go).
use sudostream.Access.Path.Best.{
  best_of-FoundIn, best_of-Covers, FoundIn, match_libraries-best_of, best_of, candidates, Owns,
  Covers,
}
use sudostream.Access.Path.{
  canonical_rel_path, found, match_libraries, match_library, path_within_root,
}
use sudostream.Access.Types.{Library}
use sudostream.Prelude.{
  [], All, All-map, Any, ap, arith, Bool-cases, false, inl, inr, length, List, none, Option,
  Option-cases, refl, some, subst, sym, ℕ, ◌∙◌, ◌≡◌, ◌≢◌, ◌≤◌, ◌⊎◌,
}
use sudostream.Text.{Bytes, is_empty}
use sudostream.Text.Laws.Clean.{is_empty_of_ne}

-- A candidate that does not hold the path, or has no longer a root than `n`.
abbrev pub NotLonger : Bytes → ℕ → Library × Bytes → Type 0
NotLonger path n c = (path_within_root path c.1 ≡ false) ⊎ (length c.1 ≤ n)

NotLonger-Covers :
    (path : Bytes) (library : Library) (n : ℕ) (c : Library × Bytes)
    → Covers path (some (library, n)) c
    → NotLonger path n c
NotLonger-Covers path library n c h = elim (Bool-cases (path_within_root path c.1)) [
  | inl t ↦ inr (h t)
  | inr f ↦ inl f
]

-- MatchLibrary: the library returned owns the canonical path by a root, and no registered root
-- that holds this path is longer.
pub match_library-some :
    (libraries : List Library) (raw : Bytes) {library : Library}
    → match_library libraries raw ≡ some library
    → (path : Bytes) × (n : ℕ) × (canonical_rel_path raw ≡ some path)
      × Any (Owns path library n) (candidates libraries)
      × All (NotLonger path n) (candidates libraries)
unfolding match_library
match_library-some libraries raw {library} h = elim (Option-cases (canonical_rel_path raw)) [
  | inl e ↦ absurd (ground (arith, h, e))
  | inr (path, e) ↦ elim (Bool-cases (is_empty path)) [
    | inl root ↦ absurd (ground (arith, h, e, root))
    | inr sub ↦ found_cases path e (match_libraries path none libraries) refl (ground arith)
  ]
]
  where
    known :
        (path : Bytes) (n : ℕ)
        → canonical_rel_path raw ≡ some path
        → best_of path none (candidates libraries) ≡ some (library, n)
        → (best_of path none (candidates libraries) ≡ none)
          ⊎ FoundIn path (best_of path none (candidates libraries)) (candidates libraries)
        → (path : Bytes) × (n : ℕ) × (canonical_rel_path raw ≡ some path)
          × Any (Owns path library n) (candidates libraries)
          × All (NotLonger path n) (candidates libraries)
    known path n e q (inl nothing) = absurd (cc (sym q ∙ nothing))
    known path n e q (inr inside) = (
      path,
      n,
      e,
      subst (λ o. FoundIn path o (candidates libraries)) q inside,
      All-map (Covers path (some (library, n))) (NotLonger path n) (NotLonger-Covers path library n)
          (candidates libraries)
          (subst (λ o. All (Covers path o) (candidates libraries)) q
            (best_of-Covers path none (candidates libraries))),
    )

    found_cases :
        (path : Bytes)
        → canonical_rel_path raw ≡ some path
        → (out : Option (Library × ℕ)) → match_libraries path none libraries ≡ out
        → found out ≡ some library
        → (path : Bytes) × (n : ℕ) × (canonical_rel_path raw ≡ some path)
          × Any (Owns path library n) (candidates libraries)
          × All (NotLonger path n) (candidates libraries)
    found_cases path e none q f = absurd (cc)
    found_cases path e (some (l, n)) q f =
        let same : l ≡ library = cc in
        known path n e
          (sym (match_libraries-best_of path none libraries)
            ∙ q
            ∙ ap (λ (k : Library). some (k, n)) same)
          (best_of-FoundIn path none (candidates libraries))

-- Where MatchLibrary fails on a path with a canonical form other than the media root, no
-- registered root holds it.
pub match_library-none :
    (libraries : List Library) (raw : Bytes)
    → match_library libraries raw ≡ none
    → (path : Bytes) → canonical_rel_path raw ≡ some path
    → path ≢ []
    → All (λ c. path_within_root path c.1 ≡ false) (candidates libraries)
unfolding match_library
match_library-none libraries raw h path e n =
    none_cases (match_libraries path none libraries) refl
      (ground (arith, h, e, is_empty_of_ne path n))
  where
    none_cases :
        (out : Option (Library × ℕ))
        → match_libraries path none libraries ≡ out
        → found out ≡ none
        → All (λ c. path_within_root path c.1 ≡ false) (candidates libraries)
    none_cases none q f =
        subst (λ o. All (Covers path o) (candidates libraries))
          (sym (match_libraries-best_of path none libraries) ∙ q)
          (best_of-Covers path none (candidates libraries))
    none_cases (some (l, k)) q f = absurd (cc)
