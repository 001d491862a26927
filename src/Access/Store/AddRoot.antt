-- ===== src/Access/Store/AddRoot.antt =====
-- AddRoot and RemoveRoot keep the roots apart (internal/access/postgres/store.go).
use sudostream.Access.Store.Claim.{claim_root-Claimed}
use sudostream.Access.Store.Listing.{Listed-roots_of, get_library-root_paths}
use sudostream.Access.Store.{Database, get_library, Server}
use sudostream.Access.Store.Exclusive.{Exclusive}
use sudostream.Access.Store.Roots.{
  add_root, add_root_rows, already_covered, claim_root, exact_root, insert_root, subsume,
}
use sudostream.Access.Store.Subsume.{already_covered-none, Listed, subsume-Apart, subsume-Exclusive}
use sudostream.Access.Types.{>>=-eq-ok, Library, ok, ok-eq, root_paths, ◌>>=◌}
use sudostream.Prelude.{
  All, ap, arith, false, inl, inr, List, none, Option-cases, subst, true, ◌∷◌, ◌≡◌,
}
use sudostream.Text.{Bytes}

insert_root-roots :
    (db : Database) (id path : Bytes) {db' : Database}
    → insert_root db id path ≡ ok db'
    → db'.roots ≡ record { library_id = id; rel_path = path } ∷ db.roots
unfolding insert_root
insert_root-roots db id path h = elim (Option-cases (exact_root db path)) [
  | inl e ↦ ground (arith, h, e)
  | inr (r, e) ↦ absurd (ground (arith, h, e))
]

-- AddRoot keeps the roots of a registry apart, whatever library the root comes from, where the
-- roots of the library were read before.
pub add_root_rows-Exclusive :
    (server : Server) (db : Database) (id path : Bytes) (existing : List Bytes) {db' : Database}
    → Exclusive db.roots
    → All (Listed id existing) db.roots
    → add_root_rows server db id path existing ≡ ok db'
    → Exclusive db'.roots
unfolding add_root_rows
add_root_rows-Exclusive server db id path existing {db'} ex listed h =
    elim (Option-cases (already_covered path existing)) [
      | inl e ↦ added e
      | inr (true, e) ↦
          let same : db ≡ db' = ground (arith, h, e) in
          subst (λ (d : Database). Exclusive d.roots) same ex
      | inr (false, e) ↦ absurd (ground (arith, h, e))
    ]
  where
    added : already_covered path existing ≡ none → Exclusive db'.roots
    added e =
        let u = already_covered-none path existing e in
        let (c, claimed, inserted) =
          >>=-eq-ok (claim_root server db id path (exact_root db path))
            (λ c. insert_root (record c { roots = subsume id path existing c.roots }) id path)
            (rw (e, add_root_rows) at h) in
        let ready = claim_root-Claimed server db id path existing ex listed u claimed in
        rw (insert_root-roots _ id path inserted) (
          subsume-Apart id path existing c.roots u ready.1,
          subsume-Exclusive id path existing c.roots ready.0,
        )

-- The store's AddRoot keeps the registered roots apart.
pub add_root-Exclusive :
    (server : Server) (db : Database) (id path : Bytes) {db' : Database} {library : Library}
    → Exclusive db.roots
    → add_root server db id path ≡ ok (db', library)
    → Exclusive db'.roots
unfolding add_root
add_root-Exclusive server db id path {db'} {library} ex h =
    let (dest, got, rest) =
      >>=-eq-ok (get_library server db id)
        (λ dest. add_root_rows server db id path (root_paths dest) >>= λ d.
          get_library server d id >>= λ l. ok (d, l))
        h in
    let (d, rows, last) =
      >>=-eq-ok (add_root_rows server db id path (root_paths dest))
        (λ d. get_library server d id >>= λ l. ok (d, l)) rest in
    let (l, read, same) = >>=-eq-ok (get_library server d id) (λ l. ok (d, l)) last in
    let e : d ≡ db' = ap (λ (p : Database × Library). p.0) (ok-eq same) in
    subst (λ (x : Database). Exclusive x.roots) e
      (add_root_rows-Exclusive server db id path (root_paths dest) ex
        (rw (get_library-root_paths server db id got) (Listed-roots_of server db id)) rows)
