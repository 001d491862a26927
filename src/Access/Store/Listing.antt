-- ===== src/Access/Store/Listing.antt =====
-- The roots of a library read from the tables (internal/access/postgres/store.go).
use sudostream.Access.Store.{
  Database, get_library, has_id, head_or_empty, library_from_model, LibraryRow, of_library, RootRow,
  roots_of, Server,
}
use sudostream.Access.Store.Subsume.{Listed}
use sudostream.Access.Types.{Library, ok, root_paths, roots_or}
use sudostream.Prelude.{
  [], All, All-map, Any-sort_by, ap, arith, Bool-cases, first, first-test, inl, inr, keep, List,
  map, Option-cases, refl, sym, ◌∙◌, ◌∷◌, ◌≡◌,
}
use sudostream.Text.{Bytes, trim_space}
use sudostream.Text.Laws.Equality.{bytes_eq→eq}

Listed-head :
    (id : Bytes) (x : RootRow) (xs : List RootRow) (r : RootRow)
    → Listed id (map (λ s. s.rel_path) (keep (of_library id) xs)) r
    → Listed id (map (λ s. s.rel_path) (keep (of_library id) (x ∷ xs))) r
Listed-head id x xs r h mine = elim (Bool-cases (of_library id x)) [
  | inl t ↦ rw t (inr (h mine))
  | inr f ↦ rw f (h mine)
]

Listed-All :
    (id : Bytes) (rows : List RootRow)
    → All (Listed id (map (λ s. s.rel_path) (keep (of_library id) rows))) rows
Listed-All id [] = tt
Listed-All id (x ∷ xs) = (
  λ mine. rw mine (inl refl),
  All-map (Listed id (map (λ s. s.rel_path) (keep (of_library id) xs)))
      (Listed id (map (λ s. s.rel_path) (keep (of_library id) (x ∷ xs)))) (Listed-head id x xs) xs
      (Listed-All id xs),
)

pub Listed-roots_of :
    (server : Server) (db : Database) (id : Bytes)
    → All (Listed id (roots_of server db id)) db.roots
unfolding roots_of
Listed-roots_of server db id =
    All-map (Listed id (map (λ s. s.rel_path) (keep (of_library id) db.roots)))
      (Listed id (roots_of server db id))
      (λ r h mine.
        Any-sort_by (λ e. e ≡ r.rel_path) server.collate
          (map (λ s. s.rel_path) (keep (of_library id) db.roots)) (h mine))
      db.roots (Listed-All id db.roots)

roots_or-head : (rs : List Bytes) → roots_or (head_or_empty rs) rs ≡ rs
unfolding trim_space
roots_or-head [] = refl
roots_or-head (r ∷ rs) = refl

root_paths_of_model :
    (server : Server) (db : Database) (row : LibraryRow)
    → root_paths (library_from_model server db row) ≡ roots_of server db row.id
unfolding root_paths library_from_model
root_paths_of_model server db row = roots_or-head (roots_of server db row.id)

-- The roots that a library read from the tables has are its rows'.
pub get_library-root_paths :
    (server : Server) (db : Database) (id : Bytes) {dest : Library}
    → get_library server db id ≡ ok dest
    → root_paths dest ≡ roots_of server db id
unfolding get_library
get_library-root_paths server db id {dest} h =
    elim (Option-cases (first (has_id id) db.libraries)) [
      | inl e ↦ absurd (ground (arith, h, e))
      | inr (row, e) ↦
          let same : library_from_model server db row ≡ dest = ground (arith, h, e) in
          let named : row.id ≡ id = bytes_eq→eq row.id id (first-test (has_id id) db.libraries e) in
          sym (ap root_paths same)
          ∙ root_paths_of_model server db row
          ∙ ap (λ (i : Bytes). roots_of server db i) named
    ]
