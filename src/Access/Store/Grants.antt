-- ===== src/Access/Store/Grants.antt =====
-- The grants of a user: what is written is read back, and a library that goes takes its grants
-- with it (internal/access/postgres/store.go).
use mathlib.Core.List.{append-nil, append_assoc}
use sudostream.Access.Store.{
  get_library, allocate_slug, Library, Server, create_library, false, cascade_library, Database,
  delete_library, GrantRow, has_id,
}
use sudostream.Access.Store.UserGrants.{
  insert_grant, insert_grants, lookup_grant, replace_user_grants, user_grant_map,
}
use sudostream.Access.Types.{
  ok-eq, >>=-eq-ok, GrantInput, is_empty_permissions, LibraryPermissions, ok,
}
use sudostream.Prelude.{
  [], ap, arith, Bool, Bool-cases, first, if◌then◌else◌, inl, inr, keep, List, map, none, not,
  Option-cases, refl, subst, sym, ◌&&◌, ◌++◌, ◌∙◌, ◌∷◌, ◌≡◌, ◌≢◌,
}
use sudostream.Text.{Bytes, bytes_eq}
use sudostream.Text.Laws.Clean.{bytes_eq_of_ne}
use sudostream.Text.Laws.Equality.{eq→bytes_eq, bytes_eq_refl, bytes_eq→eq}

abbrev pair_of : GrantRow → Bytes × LibraryPermissions
pair_of r = (r.library_id, r.permissions)

abbrev of_user : Bytes → GrantRow → Bool
of_user user r = bytes_eq r.user_id user

-- The grants asked for that give some permission.
abbrev pub requested : List GrantInput → List (Bytes × LibraryPermissions)
requested [] = []
requested (g ∷ gs) =
    let rest = requested gs in
    if is_empty_permissions g.permissions then rest else (g.library_id, g.permissions) ∷ rest

map-keep-append :
    (user : Bytes) (xs : List GrantRow) (r : GrantRow)
    → map pair_of (keep (of_user user) (xs ++ (r ∷ [])))
      ≡ map pair_of (keep (of_user user) xs) ++ map pair_of (keep (of_user user) (r ∷ []))
map-keep-append user [] r = refl
map-keep-append user (x ∷ xs) r = elim (Bool-cases (of_user user x)) [
  | inl t ↦ rw t (ap (λ l. pair_of x ∷ l) (map-keep-append user xs r))
  | inr f ↦ rw f (map-keep-append user xs r)
]

abbrev row_of : Bytes → GrantInput → GrantRow
row_of user g = record { user_id = user; library_id = g.library_id; permissions = g.permissions }

-- An insertion that succeeds appends its row.
insert_grant-rows :
    (db : Database) (user : Bytes) (g : GrantInput) {db' : Database}
    → insert_grant db user g ≡ ok db'
    → db'.grants ≡ db.grants ++ (row_of user g ∷ [])
unfolding insert_grant
insert_grant-rows db user g h = elim (Option-cases (first (has_id g.library_id) db.libraries)) [
  | inl e ↦ absurd (ground (arith, h, e))
  | inr (l, e) ↦
      elim (Option-cases
        (first (λ r. bytes_eq r.user_id user && bytes_eq r.library_id g.library_id) db.grants)) [
          | inl new ↦ ground (arith, h, e, new)
          | inr (row, old) ↦ absurd (ground (arith, h, e, old))
        ]
]

-- One insertion adds one pair to the user's map, and none to another's.
insert_grant-own :
    (db : Database) (user : Bytes) (g : GrantInput) {db' : Database}
    → insert_grant db user g ≡ ok db'
    → user_grant_map db' user ≡ user_grant_map db user ++ ((g.library_id, g.permissions) ∷ [])
unfolding user_grant_map
insert_grant-own db user g h =
    ap (λ (l : List GrantRow). map pair_of (keep (of_user user) l)) (insert_grant-rows db user g h)
    ∙ map-keep-append user db.grants (row_of user g)
    ∙ rw (bytes_eq_refl user) refl

insert_grant-other :
    (db : Database) (user other : Bytes) (g : GrantInput) {db' : Database}
    → user ≢ other
    → insert_grant db user g ≡ ok db'
    → user_grant_map db' other ≡ user_grant_map db other
unfolding user_grant_map
insert_grant-other db user other g n h =
    ap (λ (l : List GrantRow). map pair_of (keep (of_user other) l)) (insert_grant-rows db user g h)
    ∙ map-keep-append other db.grants (row_of user g)
    ∙ rw (bytes_eq_of_ne user other n) (append-nil _)

insert_grants-own :
    (db : Database) (user : Bytes) (gs : List GrantInput) {db' : Database}
    → insert_grants db user gs ≡ ok db'
    → user_grant_map db' user ≡ user_grant_map db user ++ requested gs
unfolding insert_grants
insert_grants-own db user [] {db'} h =
    let e : db ≡ db' = cc in rw append-nil (ap (λ (d : Database). user_grant_map d user) (sym e))
insert_grants-own db user (g ∷ gs) {db'} h =
    elim (Bool-cases (is_empty_permissions g.permissions)) [
      | inl skip ↦ rw skip (insert_grants-own db user gs (ground (arith, h, skip)))
      | inr some_flag ↦
          let (mid, one, rest) =
            >>=-eq-ok (insert_grant db user g) (λ d. insert_grants d user gs)
              (rw (some_flag, insert_grants) at h) in
          rw some_flag (
            insert_grants-own mid user gs rest
            ∙ ap (λ (l : List (Bytes × LibraryPermissions)). l ++ requested gs)
                (insert_grant-own db user g one)
            ∙ append_assoc (user_grant_map db user) _ (requested gs))
    ]

cleared : Database → Bytes → Database
cleared db user = record db { grants = keep (λ r. not (bytes_eq r.user_id user)) db.grants }

map-keep-cleared :
    (user : Bytes) (xs : List GrantRow)
    → map pair_of (keep (of_user user) (keep (λ r. not (of_user user r)) xs)) ≡ []
map-keep-cleared user [] = refl
map-keep-cleared user (x ∷ xs) = elim (Bool-cases (of_user user x)) [
  | inl t ↦ rw t (map-keep-cleared user xs)
  | inr f ↦ rw f (rw f (map-keep-cleared user xs))
]

map-keep-cleared_other :
    (user other : Bytes) (xs : List GrantRow)
    → user ≢ other
    → map pair_of (keep (of_user other) (keep (λ r. not (of_user user r)) xs))
      ≡ map pair_of (keep (of_user other) xs)
map-keep-cleared_other user other [] n = refl
map-keep-cleared_other user other (x ∷ xs) n = elim (Bool-cases (of_user user x)) [
  | inl t ↦
      rw (t, bytes_eq_of_ne x.user_id other (λ e. n (sym (bytes_eq→eq _ _ t) ∙ e)))
        (map-keep-cleared_other user other xs n)
  | inr f ↦ elim (Bool-cases (of_user other x)) [
    | inl s ↦ rw f (rw s (ap (λ l. pair_of x ∷ l) (map-keep-cleared_other user other xs n)))
    | inr s ↦ rw f (rw s (map-keep-cleared_other user other xs n))
  ]
]

insert_grants-other :
    (db : Database) (user other : Bytes) (gs : List GrantInput) {db' : Database}
    → user ≢ other
    → insert_grants db user gs ≡ ok db'
    → user_grant_map db' other ≡ user_grant_map db other
unfolding insert_grants
insert_grants-other db user other [] {db'} n h =
    let e : db ≡ db' = cc in ap (λ (d : Database). user_grant_map d other) (sym e)
insert_grants-other db user other (g ∷ gs) {db'} n h =
    elim (Bool-cases (is_empty_permissions g.permissions)) [
      | inl skip ↦ insert_grants-other db user other gs n (rw (skip, insert_grants) at h)
      | inr some_flag ↦
          let (mid, one, rest) =
            >>=-eq-ok (insert_grant db user g) (λ d. insert_grants d user gs)
              (rw (some_flag, insert_grants) at h) in
          insert_grants-other mid user other gs n rest ∙ insert_grant-other db user other g n one
    ]

-- ReplaceUserGrants, where it succeeds, leaves the user with exactly the grants asked for that give
-- some permission, and any other user with the grants they had.
pub replace_user_grants_lem :
    (db : Database) (user other : Bytes) (gs : List GrantInput) {db' : Database}
    → user ≢ other
    → replace_user_grants db user gs ≡ ok db'
    → (user_grant_map db' user ≡ requested gs)
      × (user_grant_map db' other ≡ user_grant_map db other)
unfolding replace_user_grants cleared user_grant_map
replace_user_grants_lem db user other gs n h = (
  insert_grants-own (cleared db user) user gs h
      ∙ ap (λ (l : List (Bytes × LibraryPermissions)). l ++ requested gs)
          (map-keep-cleared user db.grants),
  insert_grants-other (cleared db user) user other gs n h
      ∙ map-keep-cleared_other user other db.grants n,
)

lookup_grant-cascade :
    (id user : Bytes) (rows : List GrantRow)
    → lookup_grant id
        (map pair_of (keep (of_user user) (keep (λ r. not (bytes_eq r.library_id id)) rows)))
      ≡ none
unfolding lookup_grant
lookup_grant-cascade id user [] = refl
lookup_grant-cascade id user (r ∷ rows) = elim (Bool-cases (bytes_eq r.library_id id)) [
  | inl gone ↦ rw gone (lookup_grant-cascade id user rows)
  | inr kept ↦ elim (Bool-cases (of_user user r)) [
    | inl mine ↦ rw kept (rw mine (rw (lookup_grant-cascade id user rows) (rw kept refl)))
    | inr not_mine ↦ rw kept (rw not_mine (lookup_grant-cascade id user rows))
  ]
]

-- Once a library is deleted no user has a grant for it.
pub delete_library-lookup_grant :
    (db : Database) (id user : Bytes) {db' : Database}
    → delete_library db id ≡ ok db'
    → lookup_grant id (user_grant_map db' user) ≡ none
unfolding delete_library
delete_library-lookup_grant db id user {db'} h =
    elim (Option-cases (first (has_id id) db.libraries)) [
      | inl e ↦ absurd (ground (arith, h, e))
      | inr (row, e) ↦
          let same : cascade_library db id ≡ db' = ground (arith, h, e) in
          subst (λ (d : Database). lookup_grant id (user_grant_map d user) ≡ none) same
            (unfold cascade_library user_grant_map in lookup_grant-cascade id user db.grants)
    ]

lookup_grant-cascade_other :
    (id other user : Bytes) (rows : List GrantRow)
    → bytes_eq other id ≡ false
    → lookup_grant other
        (map pair_of (keep (of_user user) (keep (λ r. not (bytes_eq r.library_id id)) rows)))
      ≡ lookup_grant other (map pair_of (keep (of_user user) rows))
unfolding lookup_grant
lookup_grant-cascade_other id other user [] n = refl
lookup_grant-cascade_other id other user (r ∷ rows) n =
    let back = lookup_grant-cascade_other id other user rows n in
    elim (Bool-cases (bytes_eq r.library_id id)) [
      | inl gone ↦
          let not_it : bytes_eq r.library_id other ≡ false =
            elim (Bool-cases (bytes_eq r.library_id other)) [
              | inl it ↦ absurd (
                  ground (
                    arith,
                    bytes_eq→eq r.library_id other it,
                    bytes_eq→eq r.library_id id gone,
                    eq→bytes_eq other id (
                        sym (bytes_eq→eq r.library_id other it) ∙ bytes_eq→eq r.library_id id gone),
                  ))
              | inr f ↦ f
            ] in
          elim (Bool-cases (of_user user r)) [
            | inr not_mine ↦ rw gone (rw not_mine back)
            | inl mine ↦
                elim (Option-cases (lookup_grant other (map pair_of (keep (of_user user) rows)))) [
                  | inl e ↦ rw gone (rw mine (rw (e, not_it) (back ∙ e)))
                  | inr (l, e) ↦ rw gone (rw mine (rw e (back ∙ e)))
                ]
          ]
      | inr kept ↦ elim (Bool-cases (of_user user r)) [
        | inl mine ↦ rw kept (rw mine (rw back refl))
        | inr not_mine ↦ rw kept (rw not_mine back)
      ]
    ]

store_create_library-grants :
    (server : Server) (new_id : Bytes) (db : Database) (library : Library) {db' : Database}
    {created : Library}
    → create_library server new_id db library ≡ ok (db', created)
    → db'.grants ≡ db.grants
unfolding create_library
store_create_library-grants server new_id db library h =
    let (slug, allocated, rest) = >>=-eq-ok (allocate_slug server db library.slug) _ h in
    let (l, got, same) = >>=-eq-ok (get_library server _ new_id) _ rest in
    sym (ap (λ (p : Database × Library). p.0.grants) (ok-eq same))

delete_library-grants :
    (db : Database) (id : Bytes) {db' : Database}
    → delete_library db id ≡ ok db'
    → keep (λ (r : GrantRow). not (bytes_eq r.library_id id)) db.grants ≡ db'.grants
unfolding delete_library
delete_library-grants db id {db'} h = elim (Option-cases (first (has_id id) db.libraries)) [
  | inl e ↦ absurd (ground (arith, h, e))
  | inr (row, e) ↦
      let same : cascade_library db id ≡ db' = ground (arith, h, e) in
      unfold cascade_library in ap (λ (d : Database). d.grants) same
]

-- Where a library is deleted, and the next one that is created even draws its id, no user has a grant
-- for that id, and the grants of each user for any other library are as they were before.
pub delete_library-create_library :
    (server : Server) (db : Database) (id other user : Bytes) (library : Library)
    {db' made : Database} {created : Library}
    → delete_library db id ≡ ok db'
    → create_library server id db' library ≡ ok (made, created)
    → bytes_eq other id ≡ false
    → (lookup_grant id (user_grant_map made user) ≡ none)
      × (lookup_grant other (user_grant_map made user)
          ≡ lookup_grant other (user_grant_map db user))
unfolding user_grant_map
delete_library-create_library server db id other user library {db'} {made} {created} h k n =
    let left : keep (λ (r : GrantRow). not (bytes_eq r.library_id id)) db.grants ≡ made.grants =
      delete_library-grants db id {db' = db'} h
      ∙ sym
          (store_create_library-grants server id db' library {db' = made} {created = created} k) in
    (
      subst (λ (g : List GrantRow). lookup_grant id (map pair_of (keep (of_user user) g)) ≡ none)
          left (lookup_grant-cascade id user db.grants),
      subst
          (λ (g : List GrantRow).
            lookup_grant other (map pair_of (keep (of_user user) g))
            ≡ lookup_grant other (map pair_of (keep (of_user user) db.grants)))
          left (lookup_grant-cascade_other id other user db.grants n),
    )
