-- ===== src/Auth/Admin/Never.antt =====
-- internal/auth/admin.go: what the calls of an administrator leave of the administrators.
use sudostream.Auth.Seed.{seed_admin}
use sudostream.Auth.Admin.Kept.{Kept-patch_email, Kept-update_user_row}
use sudostream.Prelude.{
  length, ltb, subst, ◌∙◌, ◌∷◌, ◌++◌, ◌||◌, ◌⊎◌, arith, refl, ◌≤◌, Option-cases, Bool-cases, inl,
  inr, Fallible-cases, first, ◌≡◌,
}
use mathlib.Core.Bool.{false}
use sudostream.Auth.Admin.{
  [], none, demotes, disables, patch_email, some, enabled_user, fail, update_user_row, done,
  Fallible, Bytes, Outside, UserPatch, CreateUserInput, create_user, update_user, delete_user,
  guard_last_admin_mutation, prepared_user, activated, checked, disabling,
}
use sudostream.Auth.Admin.Count.{
  admins_most, admins-delete_row_other, admins-delete_row_most, admins-append, admin_at-first,
}
use sudostream.Auth.Admin.Steps.{
  count_admins-users, Safe, guard_last_admin_mutation-passed, after_email, HasAdmin-Kept, HasAdmin,
}
use sudostream.Auth.Store.{
  with_users, has_email, taken, has_id, Accounts, User, count_admins, delete_user_row, is_admin,
  AuthError, get_user_by_id, get_user_by_email, insert_user,
}

pub get_user_by_id-first :
    (id : Bytes) (db : Accounts) {t : User}
    → get_user_by_id id db ≡ done t
    → first (has_id id) db.users ≡ some t
unfolding get_user_by_id
get_user_by_id-first id db {t} h = elim (Option-cases (first (has_id id) db.users)) [
  | inl e ↦ absurd (ground arith)
  | inr (x, e) ↦ ground arith
]

guarded :
    (uid : Bytes) (target : User) (patch : UserPatch) (db : Accounts)
    → first (has_id uid) db.users ≡ some target
    → (2 ≤ count_admins db)
      ⊎ ((is_admin target ≡ false)
          ⊎ ((disables patch.enabled ≡ false) × (demotes patch.role ≡ false)))
    → Safe uid patch.role db
guarded uid target patch db g (inl two) = let n = count_admins-users db in inl (ground arith)
guarded uid target patch db g (inr (inl other)) =
    inr (inl (admin_at-first uid db.users {t = target} g ∙ other))
guarded uid target patch db g (inr (inr (a, b))) = inr (inr b)

-- UpdateUser never takes the last administrator.
pub update_user-HasAdmin :
    (o : Outside) (uid : Bytes) (patch : UserPatch) (db : Accounts)
    → HasAdmin db
    → HasAdmin (update_user o uid patch db).1
unfolding update_user
update_user-HasAdmin o uid patch db h = elim (Fallible-cases (get_user_by_id uid db)) [
  | inr (e, g) ↦ rw g h
  | inl (target, g) ↦ rw g (elim (Fallible-cases (guard_last_admin_mutation target patch db)) [
    | inr (e, k) ↦ rw k h
    | inl (u, k) ↦ rw k (
        after_email uid patch db (patch_email o target patch.email db)
          (Kept-patch_email o uid target patch.email db)
          (guarded uid target patch db (get_user_by_id-first uid db {t = target} g)
            (guard_last_admin_mutation-passed target patch db {u = u} k))
          h)
  ])
]

delete_user_row-HasAdmin :
    (uid : Bytes) (target : User) (db : Accounts)
    → first (has_id uid) db.users ≡ some target
    → (2 ≤ count_admins db)
      ⊎ ((is_admin target ≡ false) ⊎ ((disables (some false) ≡ false) × (demotes none ≡ false)))
    → HasAdmin db
    → HasAdmin (delete_user_row uid db)
unfolding delete_user_row count_admins
delete_user_row-HasAdmin uid target db g (inl two) h =
    let most = admins-delete_row_most uid db.users in omega arith
delete_user_row-HasAdmin uid target db g (inr (inl other)) h =
    let least =
      admins-delete_row_other uid db.users (admin_at-first uid db.users {t = target} g ∙ other) in
    omega arith
delete_user_row-HasAdmin uid target db g (inr (inr (a, b))) h = absurd (ground arith)

-- Nor does DeleteUser.
pub delete_user-HasAdmin :
    (uid : Bytes) (db : Accounts) → HasAdmin db → HasAdmin (delete_user uid db).1
unfolding delete_user count_admins guard_last_admin_mutation
delete_user-HasAdmin uid db h = elim (Fallible-cases (get_user_by_id uid db)) [
  | inr (e, g) ↦ rw g h
  | inl (target, g) ↦ rw g (elim (Bool-cases target.enabled) [
    | inl on ↦ rw on h
    | inr off ↦ rw off (elim (Fallible-cases (guard_last_admin_mutation target disabling db)) [
      | inr (e, k) ↦ rw k h
      | inl (u, k) ↦ rw k (
          delete_user_row-HasAdmin uid target db (get_user_by_id-first uid db {t = target} g)
            (guard_last_admin_mutation-passed target disabling db {u = u} k) h)
    ])
  ])
]

activated-HasAdmin :
    (created : User) (db : Accounts) → HasAdmin db → HasAdmin (activated created db).1
activated-HasAdmin created db h =
    HasAdmin-Kept created.id db (update_user_row created.id enabled_user db)
      (Kept-update_user_row created.id created.id enabled_user (λ u. refl) (λ u. refl) db) h

insert_user-HasAdmin :
    (user : User) (db added : Accounts)
    → insert_user user db ≡ done added
    → HasAdmin db
    → HasAdmin added
unfolding insert_user count_admins
insert_user-HasAdmin user db added g h =
    let more = admins-append db.users user in
    elim (Bool-cases
      (taken (first (has_id user.id) db.users) || taken (first (has_email user.email) db.users))) [
        | inl t ↦ absurd (ground arith)
        | inr t ↦
            let same : with_users db (db.users ++ (user ∷ [])) ≡ added = ground arith in
            subst HasAdmin same (omega arith)
      ]

added-HasAdmin :
    (user : User) (db : Accounts) (r : Fallible AuthError Accounts)
    → insert_user user db ≡ r
    → HasAdmin db
    → HasAdmin
        (checked r db λ added.
          checked (get_user_by_email user.email added) added λ created. activated created added).1
added-HasAdmin user db (fail e) g h = h
added-HasAdmin user db (done added) g h =
    let more : HasAdmin added = insert_user-HasAdmin user db added g h in
    elim (Fallible-cases (get_user_by_email user.email added)) [
      | inr (e, k) ↦ rw k more
      | inl (created, k) ↦ rw k (activated-HasAdmin created added more)
    ]

pub create_user-HasAdmin :
    (o : Outside) (id : Bytes) (input : CreateUserInput) (db : Accounts)
    → HasAdmin db
    → HasAdmin (create_user o id input db).1
unfolding create_user
create_user-HasAdmin o id input db h = elim (Fallible-cases (prepared_user o id input db)) [
  | inr (e, g) ↦ rw g h
  | inl (user, g) ↦ rw g (added-HasAdmin user db (insert_user user db) refl h)
]

seed_admin-HasAdmin :
    (o : Outside) (id email password : Bytes) (db : Accounts)
    → HasAdmin db
    → HasAdmin (seed_admin o id email password db).1
unfolding seed_admin
seed_admin-HasAdmin o id email password db h = elim (Bool-cases (ltb 0 (length db.users))) [
  | inl some_user ↦ rw some_user h
  | inr empty ↦ absurd (ground (arith, admins_most db.users, count_admins-users db))
]

-- One call of an administrator, or a start of the server.
pub data Step : Accounts → Accounts → Type 0 where
  creates :
      {db : Accounts} (o : Outside) (id : Bytes) (input : CreateUserInput)
      → Step db (create_user o id input db).1
  updates :
      {db : Accounts} (o : Outside) (uid : Bytes) (patch : UserPatch)
      → Step db (update_user o uid patch db).1
  deletes : {db : Accounts} (uid : Bytes) → Step db (delete_user uid db).1
  seeds :
      {db : Accounts} (o : Outside) (id email password : Bytes)
      → Step db (seed_admin o id email password db).1

-- Any number of calls.
pub data Steps : Accounts → Accounts → Type 0 where
  no_step : {db : Accounts} → Steps db db
  then_step : {a b c : Accounts} → Steps a b → Step b c → Steps a c

step-HasAdmin : {a b : Accounts} → Step a b → HasAdmin a → HasAdmin b
step-HasAdmin (creates {db} o id input) h = create_user-HasAdmin o id input db h
step-HasAdmin (updates {db} o uid patch) h = update_user-HasAdmin o uid patch db h
step-HasAdmin (deletes {db} uid) h = delete_user-HasAdmin uid db h
step-HasAdmin (seeds {db} o id email password) h = seed_admin-HasAdmin o id email password db h

-- Where there is an account of an administrator, there is one after any sequence of calls of
-- CreateUser, UpdateUser, DeleteUser and SeedAdmin, whatever they are given and whether they fail.
pub steps-HasAdmin : {a b : Accounts} → Steps a b → HasAdmin a → HasAdmin b
steps-HasAdmin no_step h = h
steps-HasAdmin (then_step steps step) h = step-HasAdmin step (steps-HasAdmin steps h)
