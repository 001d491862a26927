-- ===== src/Auth/Admin/Kept.antt =====
-- internal/auth/admin.go: the calls that leave every role as it is.
use sudostream.Prelude.{true, none, inr, refl, inl, Bool-cases, ◌≡◌}
use sudostream.Auth.Admin.{
  bytes_eq, is_empty, to_lower, set_email, trim_space, fail, set_enabled, done, some, enabled_user,
  Fallible, Option, Bool, Bytes, Outside, patch_email, patch_enabled, admin_change_email,
  change_email_to, send_confirm_email, invalidate_all, apply_enabled_patch,
}
use mathlib.Core.Bool.{true, false}
use sudostream.Auth.Admin.Count.{admin_at-update_row, admins-update_row, admins, admin_at}
use sudostream.Auth.Store.{
  has_id, Accounts, User, update_user_row, delete_all_sessions, is_admin, AuthError,
  get_user_by_email, invalidate_unused_tokens, create_auth_token,
}

-- The same administrators are left, and the row of `uid` keeps its role.
unfoldable pub Kept : Bytes → Accounts → Accounts → Type 0
Kept uid db db' =
    (admins db'.users ≡ admins db.users) × (admin_at uid db'.users ≡ admin_at uid db.users)

pub Kept-refl : (uid : Bytes) (db : Accounts) → Kept uid db db
unfolding Kept
Kept-refl uid db = (refl, refl)

pub Kept-trans : (uid : Bytes) (a b c : Accounts) → Kept uid a b → Kept uid b c → Kept uid a c
unfolding Kept
Kept-trans uid a b c (h, i) (k, l) = (cc, cc)

pub Kept-update_user_row :
    (uid id : Bytes) (f : User → User)
    → ((u : User) → is_admin (f u) ≡ is_admin u)
    → ((u : User) → has_id uid (f u) ≡ has_id uid u)
    → (db : Accounts) → Kept uid db (update_user_row id f db)
unfolding Kept update_user_row
Kept-update_user_row uid id f same held db =
    (admins-update_row id f same db.users, admin_at-update_row uid id f same held db.users)

Kept-delete_all_sessions :
    (uid id : Bytes) (db : Accounts) → Kept uid db (delete_all_sessions id db)
unfolding Kept delete_all_sessions
Kept-delete_all_sessions uid id db = (refl, refl)

Kept-apply_enabled_patch :
    (uid id : Bytes) (enabled : Bool) (db : Accounts)
    → Kept uid db (apply_enabled_patch id enabled db)
unfolding apply_enabled_patch
Kept-apply_enabled_patch uid id true db =
    Kept-update_user_row uid id enabled_user (λ u. refl) (λ u. refl) db
Kept-apply_enabled_patch uid id false db =
    Kept-trans uid db (delete_all_sessions id db)
      (update_user_row id (set_enabled false) (delete_all_sessions id db))
      (Kept-delete_all_sessions uid id db)
      (Kept-update_user_row uid id (set_enabled false) (λ u. refl) (λ u. refl)
        (delete_all_sessions id db))

pub Kept-patch_enabled :
    (uid : Bytes) (enabled : Option Bool) (db : Accounts)
    → Kept uid db (patch_enabled uid enabled db)
Kept-patch_enabled uid none db = Kept-refl uid db
Kept-patch_enabled uid (some enabled) db = Kept-apply_enabled_patch uid uid enabled db

Kept-send_confirm_email :
    (o : Outside) (uid id email : Bytes) (db : Accounts)
    → Kept uid db (send_confirm_email o id email db).1
unfolding send_confirm_email create_auth_token Kept
Kept-send_confirm_email o uid id email db = elim (Bool-cases (o.send_confirm email o.raw_token)) [
  | inl h ↦ rw h (refl, refl)
  | inr h ↦ rw h (refl, refl)
]

Kept-invalidate_all : (uid email : Bytes) (db : Accounts) → Kept uid db (invalidate_all email db)
unfolding invalidate_unused_tokens Kept
Kept-invalidate_all uid email db = (refl, refl)

Kept-change_email_to :
    (o : Outside) (uid : Bytes) (target : User) (email : Bytes) (db : Accounts)
    (r : Fallible AuthError User)
    → Kept uid db (change_email_to o target email db r).1
Kept-change_email_to o uid target email db (done u) = Kept-refl uid db
Kept-change_email_to o uid target email db (fail e) =
    let a = update_user_row target.id (set_email email true) db in
    let b = invalidate_all target.email a in
    let c = invalidate_all email b in
    Kept-trans uid db a (send_confirm_email o target.id email c).1
      (Kept-update_user_row uid target.id (set_email email true) (λ u. refl) (λ u. refl) db)
      (Kept-trans uid a b (send_confirm_email o target.id email c).1
        (Kept-invalidate_all uid target.email a)
        (Kept-trans uid b c (send_confirm_email o target.id email c).1
          (Kept-invalidate_all uid email b) (Kept-send_confirm_email o uid target.id email c)))

pub Kept-patch_email :
    (o : Outside) (uid : Bytes) (target : User) (email : Option Bytes) (db : Accounts)
    → Kept uid db (patch_email o target email db).1
unfolding admin_change_email
Kept-patch_email o uid target none db = Kept-refl uid db
Kept-patch_email o uid target (some raw) db =
    let email = trim_space (to_lower raw) in
    elim (Bool-cases (is_empty email)) [
      | inl h ↦ rw h (Kept-refl uid db)
      | inr h ↦ elim (Bool-cases (bytes_eq email (to_lower target.email))) [
        | inl g ↦ rw (h, g) (Kept-refl uid db)
        | inr g ↦
            rw (h, g) (Kept-change_email_to o uid target email db (get_user_by_email email db))
      ]
    ]
