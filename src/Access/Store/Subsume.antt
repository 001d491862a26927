-- ===== src/Access/Store/Subsume.antt =====
-- The two loops of AddRoot over the roots that the library has (internal/access/postgres/store.go).
use sudostream.Access.Path.{path_within_root}
use sudostream.Access.Store.{is_root, of_library, RootRow}
use sudostream.Access.Store.Exclusive.{Apart, apart_of_within, Exclusive, Exclusive-keep}
use sudostream.Access.Store.Roots.{already_covered, subsume}
use sudostream.Prelude.{
  [], All, All-map, Any, arith, Bool-cases, false, inl, inr, keep, List, none, not, sym, true, ◌&&◌,
  ◌∷◌, ◌≡◌, ◌⊎◌,
}
use sudostream.Text.{Bytes, bytes_eq}
use sudostream.Text.Laws.Equality.{eq→bytes_eq}

-- The roots of the library that gains one, as AddRoot has read them, are all there.
abbrev pub Listed : Bytes → List Bytes → RootRow → Type 0
Listed id existing r = of_library id r ≡ true → Any (λ e. e ≡ r.rel_path) existing

-- What the first loop of AddRoot leaves undecided.
abbrev pub Undecided : Bytes → Bytes → Type 0
Undecided path e = (bytes_eq e path ≡ false) × (path_within_root path e ≡ false)

pub already_covered-none :
    (path : Bytes) (existing : List Bytes)
    → already_covered path existing ≡ none
    → All (Undecided path) existing
unfolding already_covered
already_covered-none path [] h = tt
already_covered-none path (e ∷ rest) h =
    (ground (arith, h), already_covered-none path rest (ground (arith, h)))

-- A row that the second loop has still to look at, or one that is apart from the new root.
abbrev pub Pending : Bytes → Bytes → List Bytes → RootRow → Type 0
Pending id path existing r =
    (Any (λ e. e ≡ r.rel_path) existing × (of_library id r ≡ true)) ⊎ Apart path r

pub subsume-Exclusive :
    (id path : Bytes) (existing : List Bytes) (rows : List RootRow)
    → Exclusive rows
    → Exclusive (subsume id path existing rows)
unfolding subsume
subsume-Exclusive id path [] rows h = h
subsume-Exclusive id path (e ∷ rest) rows h =
    elim (Bool-cases (path_within_root e path && not (bytes_eq e path))) [
      | inl t ↦ rw t (subsume-Exclusive id path rest _ (Exclusive-keep _ rows h))
      | inr f ↦ rw f (subsume-Exclusive id path rest rows h)
    ]

Pending-drop :
    (id path e : Bytes) (rest : List Bytes) (r : RootRow)
    → Pending id path (e ∷ rest) r
    → not (is_root id e r) ≡ true
    → Pending id path rest r
Pending-drop id path e rest r (inl (inl same, mine)) kept =
    absurd (ground (arith, kept, mine, eq→bytes_eq r.rel_path e (sym same)))
Pending-drop id path e rest r (inl (inr later, mine)) kept = inl (later, mine)
Pending-drop id path e rest r (inr apart) kept = inr apart

Pending-keep :
    (id path e : Bytes) (rest : List Bytes) (rows : List RootRow)
    → All (Pending id path (e ∷ rest)) rows
    → All (Pending id path rest) (keep (λ r. not (is_root id e r)) rows)
Pending-keep id path e rest [] h = tt
Pending-keep id path e rest (r ∷ rs) h = elim (Bool-cases (not (is_root id e r))) [
  | inl t ↦ rw t (Pending-drop id path e rest r h.0 t, Pending-keep id path e rest rs h.1)
  | inr f ↦ rw f (Pending-keep id path e rest rs h.1)
]

Pending-pass :
    (id path e : Bytes) (rest : List Bytes) (r : RootRow)
    → Undecided path e
    → (path_within_root e path && not (bytes_eq e path)) ≡ false
    → Pending id path (e ∷ rest) r
    → Pending id path rest r
Pending-pass id path e rest r u f (inl (inl same, mine)) =
    let outside : path_within_root e path ≡ false = ground (arith, u, f) in
    inr (rw (← same) (apart_of_within path e u.1 outside))
Pending-pass id path e rest r u f (inl (inr later, mine)) = inl (later, mine)
Pending-pass id path e rest r u f (inr apart) = inr apart

-- After the second loop every row that is left is apart from the new root.
pub subsume-Apart :
    (id path : Bytes) (existing : List Bytes) (rows : List RootRow)
    → All (Undecided path) existing
    → All (Pending id path existing) rows
    → All (Apart path) (subsume id path existing rows)
unfolding subsume
subsume-Apart id path [] rows u h = All-map (Pending id path []) (Apart path) done rows h
  where
    done : (r : RootRow) → Pending id path [] r → Apart path r
    done r (inl (no_more, mine)) = absurd no_more
    done r (inr apart) = apart
subsume-Apart id path (e ∷ rest) rows u h =
    elim (Bool-cases (path_within_root e path && not (bytes_eq e path))) [
      | inl t ↦ rw t (subsume-Apart id path rest _ u.1 (Pending-keep id path e rest rows h))
      | inr f ↦ rw f (
          subsume-Apart id path rest rows u.1 (
            All-map (Pending id path (e ∷ rest)) (Pending id path rest)
              (λ r. Pending-pass id path e rest r u.0 f) rows h))
    ]
