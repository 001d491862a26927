-- ===== src/Auth/Admin/Steps.antt =====
-- internal/auth/admin.go: administrators never run out, whatever is created, changed and deleted.
use sudostream.Auth.Roles.{normalize_role}
use sudostream.Text.Laws.Equality.{bytes_eq→eq}
use sudostream.Prelude.{
  none, sym, subst, ◌||◌, ◌∙◌, arith, inr, inl, refl, Bool-cases, ◌⊎◌, ◌≡◌, ◌≤◌,
}
use mathlib.Core.Bool.{true, false}
use sudostream.Auth.Roles.{valid_role, normalize_role, allows_web_login}
use sudostream.Auth.Admin.{
  some, bytes_eq, fail, done, Fallible, Option, Bytes, UserPatch, OnAccounts,
  guard_last_admin_mutation, disables, demotes, role_set, patch_role, patch_enabled, set_normalized,
  answer, then_accounts,
}
use sudostream.Auth.Admin.Count.{
  admins-update_row_made, admins-update_row_other, admins-update_row_most, admins, admin_at,
}
use sudostream.Auth.Admin.Kept.{Kept, Kept-patch_enabled, Kept-trans}
use sudostream.Auth.Store.{
  update_row, Accounts, User, count_admins, update_user_row, delete_all_sessions, is_admin,
  role_admin, set_role, AuthError,
}

-- What the accounts never lose.
abbrev pub HasAdmin : Accounts → Type 0
HasAdmin db = 1 ≤ count_admins db

-- No call takes the last administrator with the row of `uid`, if it is one of these.
abbrev pub Safe : Bytes → Option Bytes → Accounts → Type 0
Safe uid role db =
    (2 ≤ admins db.users) ⊎ ((admin_at uid db.users ≡ false) ⊎ (demotes role ≡ false))

pub count_admins-users : (db : Accounts) → count_admins db ≡ admins db.users
unfolding count_admins
count_admins-users db = refl

count_admins-role_set :
    (uid role : Bytes) (db : Accounts)
    → count_admins (role_set uid role db) ≡ admins (update_row uid (set_role role) db.users)
unfolding count_admins update_user_row delete_all_sessions
count_admins-role_set uid role db = elim (Bool-cases (allows_web_login role)) [
  | inl h ↦ rw h refl
  | inr h ↦ rw h refl
]

normalize_role-admin : normalize_role role_admin ≡ done role_admin
unfolding normalize_role valid_role sudostream.Text.bytes_eq
normalize_role-admin = refl

is_admin-role_admin : bytes_eq role_admin role_admin ≡ true
unfolding sudostream.Text.bytes_eq
is_admin-role_admin = refl

set_normalized-HasAdmin :
    (uid : Bytes) (db : Accounts) (r : Fallible AuthError Bytes)
    → (2 ≤ admins db.users) ⊎ (admin_at uid db.users ≡ false)
    → HasAdmin db
    → HasAdmin (set_normalized uid db r).1
set_normalized-HasAdmin uid db (fail e) safe h = h
set_normalized-HasAdmin uid db (done role) (inl two) h =
    let most = admins-update_row_most uid (set_role role) db.users in
    let c = count_admins-role_set uid role db in omega arith
set_normalized-HasAdmin uid db (done role) (inr other) h =
    let least = admins-update_row_other uid (set_role role) db.users other in
    let c = count_admins-role_set uid role db in let n = count_admins-users db in omega arith

role_set_admin-HasAdmin :
    (uid : Bytes) (db : Accounts) → HasAdmin db → HasAdmin (role_set uid role_admin db)
role_set_admin-HasAdmin uid db h =
    let least =
      admins-update_row_made uid (set_role role_admin) (λ u. is_admin-role_admin) db.users in
    let c = count_admins-role_set uid role_admin db in let n = count_admins-users db in omega arith

patch_role-HasAdmin :
    (uid : Bytes) (role : Option Bytes) (db : Accounts)
    → Safe uid role db
    → HasAdmin db
    → HasAdmin (patch_role uid role db).1
patch_role-HasAdmin uid none db safe h = h
patch_role-HasAdmin uid (some role) db (inl two) h =
    set_normalized-HasAdmin uid db (normalize_role role) (inl two) h
patch_role-HasAdmin uid (some role) db (inr (inl other)) h =
    set_normalized-HasAdmin uid db (normalize_role role) (inr other) h
patch_role-HasAdmin uid (some role) db (inr (inr kept)) h =
    let same : role ≡ role_admin = bytes_eq→eq role role_admin (ground arith) in
    subst (λ r. HasAdmin (set_normalized uid db (normalize_role r)).1) (sym same)
      (subst (λ r. HasAdmin (set_normalized uid db r).1) (sym normalize_role-admin)
        (role_set_admin-HasAdmin uid db h))

-- What the guard lets pass.
pub guard_last_admin_mutation-passed :
    (target : User) (patch : UserPatch) (db : Accounts) {u : Unit {0}}
    → guard_last_admin_mutation target patch db ≡ done u
    → (2 ≤ count_admins db)
      ⊎ ((is_admin target ≡ false)
          ⊎ ((disables patch.enabled ≡ false) × (demotes patch.role ≡ false)))
unfolding guard_last_admin_mutation
guard_last_admin_mutation-passed target patch db h = elim (Bool-cases (is_admin target)) [
  | inr a ↦ inr (inl a)
  | inl a ↦ elim (Bool-cases (disables patch.enabled || demotes patch.role)) [
    | inl b ↦ inl (ground arith)
    | inr b ↦ inr (inr (ground arith, ground arith))
  ]
]

Safe-Kept :
    (uid : Bytes) (role : Option Bytes) (db db' : Accounts)
    → Kept uid db db'
    → Safe uid role db
    → Safe uid role db'
unfolding Kept
Safe-Kept uid role db db' (n, a) (inl two) = inl (ground arith)
Safe-Kept uid role db db' (n, a) (inr (inl other)) = inr (inl (a ∙ other))
Safe-Kept uid role db db' (n, a) (inr (inr kept)) = inr (inr kept)

pub HasAdmin-Kept : (uid : Bytes) (db db' : Accounts) → Kept uid db db' → HasAdmin db → HasAdmin db'
unfolding Kept count_admins
HasAdmin-Kept uid db db' (n, a) h = ground arith

then_answer :
    (uid : Bytes) (r : OnAccounts (Unit {0}))
    → HasAdmin r.1
    → HasAdmin (then_accounts r (answer uid)).1
then_answer uid (fail e, db) h = h
then_answer uid (done u, db) h = h

-- The part of UpdateUser after the guard.
pub after_email :
    (uid : Bytes) (patch : UserPatch) (db : Accounts) (r : OnAccounts (Unit {0}))
    → Kept uid db r.1
    → Safe uid patch.role db
    → HasAdmin db
    → HasAdmin
        (then_accounts r λ changed db1.
          then_accounts
            (patch_role uid patch.role (patch_enabled uid patch.enabled db1))
            (answer uid)).1
after_email uid patch db (fail e, db') kept safe h = HasAdmin-Kept uid db db' kept h
after_email uid patch db (done u, db1) kept safe h =
    let db2 = patch_enabled uid patch.enabled db1 in
    let kept' = Kept-trans uid db db1 db2 kept (Kept-patch_enabled uid patch.enabled db1) in
    then_answer uid (patch_role uid patch.role db2) (
      patch_role-HasAdmin uid patch.role db2 (Safe-Kept uid patch.role db db2 kept' safe)
        (HasAdmin-Kept uid db db2 kept' h))
