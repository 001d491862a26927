-- ===== src/Access/Store/Claim.antt =====
-- What AddRoot takes from other libraries before it inserts a root
-- (internal/access/postgres/store.go).
use sudostream.Access.Path.{roots_overlap}
use sudostream.Access.Path.Within.{roots_overlap_comm}
use sudostream.Access.Store.{cascade_library, Database, is_root, of_library, RootRow, Server}
use sudostream.Access.Store.Exclusive.{Apart, Exclusive, Exclusive-keep}
use sudostream.Access.Store.Roots.{
  has_roots, claim_root, conflicting_root, delete_library_if_empty, exact_root, reassign_prefix,
}
use sudostream.Access.Store.Subsume.{Listed, Pending, Undecided}
use sudostream.Access.Types.{ok, ok-eq}
use sudostream.Prelude.{
  [], All, All-first, All-keep, All-map, Any-All, Any-elim, arith, Bool-cases, false, first,
  first-none, first-test, inl, inr, keep, List, none, not, Option, Option-cases, refl, some,
  some-eq, subst, true, ◌&&◌, ◌∙◌, ◌∷◌, ◌≡◌, ◌⊎◌,
}
use sudostream.Text.{Bytes, bytes_eq}
use sudostream.Text.Laws.Equality.{bytes_eq_refl, bytes_eq→eq}

isolated :
    (path : Bytes) (rows : List RootRow) {owner : RootRow}
    → Exclusive rows
    → first (λ r. bytes_eq r.rel_path path) rows ≡ some owner
    → All (λ s. (s ≡ owner) ⊎ Apart path s) rows
isolated path [] h e = tt
isolated path (r ∷ rs) {owner} h e = elim (Bool-cases (bytes_eq r.rel_path path)) [
  | inl t ↦
      let same : r ≡ owner = some-eq (rw t at e) in
      (
        inl same,
        All-map (Apart r.rel_path) (λ s. (s ≡ owner) ⊎ Apart path s)
            (λ s a.
              inr (subst (λ (q : Bytes). roots_overlap q s.rel_path ≡ false) (bytes_eq→eq _ _ t) a))
            rs h.0,
      )
  | inr f ↦
      let later : first (λ s. bytes_eq s.rel_path path) rs ≡ some owner = rw f at e in
      let at_path =
        bytes_eq→eq owner.rel_path path (first-test (λ s. bytes_eq s.rel_path path) rs later) in
      let apart = All-first (Apart r.rel_path) (λ s. bytes_eq s.rel_path path) rs h.0 later in
      (
        inr (
            roots_overlap_comm path r.rel_path
            ∙ subst (λ (q : Bytes). roots_overlap r.rel_path q ≡ false) at_path apart),
        isolated path rs h.1 later,
      )
]

-- What a library gains or loses when it is emptied is no root of another.
delete_library_if_empty-roots :
    (db : Database) (id : Bytes)
    → ((delete_library_if_empty db id).roots ≡ db.roots)
      ⊎ ((delete_library_if_empty db id).roots ≡ keep (λ r. not (of_library id r)) db.roots)
unfolding delete_library_if_empty cascade_library
delete_library_if_empty-roots db id = elim (Bool-cases (has_roots id db.roots)) [
  | inl t ↦ inl (rw t refl)
  | inr f ↦ inr (rw f refl)
]

delete_library_if_empty-All :
    (P : RootRow → Type 0) (db : Database) (id : Bytes)
    → All P db.roots
    → All P (delete_library_if_empty db id).roots
delete_library_if_empty-All P db id h = elim (delete_library_if_empty-roots db id) [
  | inl e ↦ rw e h
  | inr e ↦ rw e (All-keep P _ db.roots h)
]

pub delete_library_if_empty-Exclusive :
    (db : Database) (id : Bytes)
    → Exclusive db.roots
    → Exclusive (delete_library_if_empty db id).roots
delete_library_if_empty-Exclusive db id h = elim (delete_library_if_empty-roots db id) [
  | inl e ↦ rw e h
  | inr e ↦ rw e (Exclusive-keep _ db.roots h)
]

-- Without its one row at this path a registry is apart from the path.
Apart-without :
    (path : Bytes) (owner : RootRow) (rows : List RootRow)
    → bytes_eq owner.rel_path path ≡ true
    → All (λ s. (s ≡ owner) ⊎ Apart path s) rows
    → All (Apart path) (keep (λ r. not (is_root owner.library_id path r)) rows)
Apart-without path owner [] at_path h = tt
Apart-without path owner (r ∷ rs) at_path h =
    elim (Bool-cases (not (is_root owner.library_id path r))) [
      | inl t ↦ rw t (kept h.0 t, Apart-without path owner rs at_path h.1)
      | inr f ↦ rw f (Apart-without path owner rs at_path h.1)
    ]
  where
    kept : (r ≡ owner) ⊎ Apart path r → not (is_root owner.library_id path r) ≡ true → Apart path r
    kept (inl e) t = absurd (ground (arith, e, t, at_path, bytes_eq_refl owner.library_id))
    kept (inr a) t = a

Pending-free :
    (id path : Bytes) (existing : List Bytes) (r : RootRow)
    → Listed id existing r
    → (not (of_library id r) && roots_overlap r.rel_path path) ≡ false
    → Pending id path existing r
Pending-free id path existing r listed free = elim (Bool-cases (of_library id r)) [
  | inl mine ↦ inl (listed mine, mine)
  | inr not_mine ↦ inr (roots_overlap_comm path r.rel_path ∙ ground (arith, free, not_mine))
]

Pending-All :
    (id path : Bytes) (existing : List Bytes) (rows : List RootRow)
    → All (Listed id existing) rows
    → All (λ r. (not (of_library id r) && roots_overlap r.rel_path path) ≡ false) rows
    → All (Pending id path existing) rows
Pending-All id path existing [] h k = tt
Pending-All id path existing (r ∷ rs) h k =
    (Pending-free id path existing r h.0 k.0, Pending-All id path existing rs h.1 k.1)

not-Listed :
    (id path : Bytes) (existing : List Bytes) (owner : RootRow)
    → Listed id existing owner
    → All (Undecided path) existing
    → bytes_eq owner.rel_path path ≡ true
    → of_library id owner ≡ true
    → ⊥
not-Listed id path existing owner listed u at_path mine =
    Any-elim (λ e. (e ≡ owner.rel_path) × Undecided path e)
      (λ e b. ground (arith, b.1.0, at_path, b.0)) existing
      (Any-All (λ e. e ≡ owner.rel_path) (Undecided path) existing (listed mine) u)

-- The roots of `c` are apart, and each is apart from the new root too or is to be looked at.
abbrev Claimed : Bytes → Bytes → List Bytes → Database → Type 0
Claimed id path existing c = Exclusive c.roots × All (Pending id path existing) c.roots

claim_root_free :
    (server : Server) (db : Database) (id path : Bytes) {c : Database}
    → claim_root server db id path none ≡ ok c
    → (db ≡ c) × (conflicting_root db id path ≡ none)
unfolding claim_root
claim_root_free server db id path h = elim (Option-cases (conflicting_root db id path)) [
  | inl e ↦ (ground (arith, h, e), e)
  | inr (r, e) ↦ absurd (ground (arith, h, e))
]

claim_root_free-Claimed :
    (server : Server) (db : Database) (id path : Bytes) (existing : List Bytes) {c : Database}
    → Exclusive db.roots
    → All (Listed id existing) db.roots
    → claim_root server db id path none ≡ ok c
    → Claimed id path existing c
unfolding conflicting_root
claim_root_free-Claimed server db id path existing ex listed h =
    let (same, free) = claim_root_free server db id path h in
    subst (Claimed id path existing) same
      (ex, Pending-All id path existing db.roots listed (first-none _ db.roots free))

-- The tables after the root was taken from another library.
taken : Server → Database → Bytes → Bytes → RootRow → Database
taken server db id path owner =
    let moved = reassign_prefix server db owner.library_id id path in
    delete_library_if_empty
      (record moved { roots = keep (λ r. not (is_root owner.library_id path r)) moved.roots })
      owner.library_id

claim_root_owned :
    (server : Server) (db : Database) (id path : Bytes) (owner : RootRow) {c : Database}
    → bytes_eq owner.library_id id ≡ false
    → claim_root server db id path (some owner) ≡ ok c
    → taken server db id path owner ≡ c
unfolding claim_root taken
claim_root_owned server db id path owner other h = ok-eq (rw (other, claim_root) at h)

taken-Claimed :
    (server : Server) (db : Database) (id path : Bytes) (existing : List Bytes) (owner : RootRow)
    → Exclusive db.roots
    → exact_root db path ≡ some owner
    → Claimed id path existing (taken server db id path owner)
unfolding taken reassign_prefix exact_root
taken-Claimed server db id path existing owner ex e = (
  delete_library_if_empty-Exclusive _ owner.library_id (Exclusive-keep _ db.roots ex),
  delete_library_if_empty-All (Pending id path existing) _ owner.library_id (
      All-map (Apart path) (Pending id path existing) (λ r a. inr a) _
        (Apart-without path owner db.roots (first-test (λ r. bytes_eq r.rel_path path) db.roots e)
          (isolated path db.roots ex e))),
)

pub claim_root-Claimed :
    (server : Server) (db : Database) (id path : Bytes) (existing : List Bytes) {c : Database}
    → Exclusive db.roots
    → All (Listed id existing) db.roots
    → All (Undecided path) existing
    → claim_root server db id path (exact_root db path) ≡ ok c
    → Claimed id path existing c
unfolding exact_root
claim_root-Claimed server db id path existing {c} ex listed u h =
    elim (Option-cases (exact_root db path)) [
      | inl e ↦
          claim_root_free-Claimed server db id path existing ex listed
            (subst (λ (o : Option RootRow). claim_root server db id path o ≡ ok c) e h)
      | inr (owner, e) ↦ elim (Bool-cases (bytes_eq owner.library_id id)) [
        | inl mine ↦ absurd (
            not-Listed id path existing owner
              (All-first (Listed id existing) (λ r. bytes_eq r.rel_path path) db.roots listed e) u
              (first-test (λ r. bytes_eq r.rel_path path) db.roots e) mine)
        | inr other ↦
            subst (Claimed id path existing)
              (claim_root_owned server db id path owner other
                (subst (λ (o : Option RootRow). claim_root server db id path o ≡ ok c) e h))
              (taken-Claimed server db id path existing owner ex e)
      ]
    ]
