-- ===== src/Auth/Admin.antt =====
-- internal/auth/admin.go and roles.go: how administrators create, change and delete accounts.
mod Count
mod Kept
pub mod Steps
pub mod Never
pub mod Disabled
use sudostream.Auth.Roles.{normalize_role, allows_web_login}
use sudostream.Prelude.{
  leb, ℕ, done, not, ◌||◌, true, refuse_if, some, if◌then◌else◌, false, fail, Option, Fallible,
  Bool, [], none, ◌>>=◌, ◌>>◌,
}
use sudostream.Text.{to_lower, trim_space, Bytes, bytes_eq, codes, is_empty}
use sudostream.Auth.Store.{
  Accounts, AuthError, User, get_user_by_id, get_user_by_email, count_admins, insert_user, set_role,
  set_enabled, enabled_user, set_email, update_user_row, delete_all_sessions, delete_user_row,
  invalidate_unused_tokens, create_auth_token, role_admin, is_admin, missing_credentials,
  invalid_role, user_exists, forbidden, user_not_disabled, missing_email, mail_failed, hash_failed,
}

-- What the calls take from outside: bcrypt, the mail server, and a fresh confirmation token with
-- the end of its life.
pub record Outside : Type 0 where
  pub bcrypt : Bytes → Option Bytes
  pub send_confirm : Bytes → Bytes → Bool
  pub token_id : Bytes
  pub raw_token : Bytes
  pub token_hash : Bytes
  pub token_expires_at : ℕ

-- UserPatch
pub record UserPatch : Type 0 where
  pub email : Option Bytes
  pub enabled : Option Bool
  pub role : Option Bytes

-- CreateUserInput
pub record CreateUserInput : Type 0 where
  pub email : Bytes
  pub password : Bytes
  pub role : Bytes

abbrev pub OnAccounts : Type 0 → Type 0
OnAccounts T = Fallible AuthError T × Accounts

abbrev pub checked :
    {S : Type 0} {T : Type 0} → Fallible AuthError S → Accounts → (S → OnAccounts T) → OnAccounts T
checked (fail e) db next = (fail e, db)
checked (done v) db next = next v

abbrev pub then_accounts :
    {S : Type 0} {T : Type 0} → OnAccounts S → (S → Accounts → OnAccounts T) → OnAccounts T
then_accounts (fail e, db) next = (fail e, db)
then_accounts (done v, db) next = next v db

abbrev pub token_purpose_confirm_email : Bytes
token_purpose_confirm_email = codes "confirm_email"

abbrev pub token_purpose_change_email : Bytes
token_purpose_change_email = codes "change_email"

abbrev pub token_purpose_invite : Bytes
token_purpose_invite = codes "invite"

-- guardLastAdminMutation
abbrev pub disables : Option Bool → Bool
disables none = false
disables (some enabled) = not enabled

abbrev pub demotes : Option Bytes → Bool
demotes none = false
demotes (some role) = not (bytes_eq role role_admin)

unfoldable pub guard_last_admin_mutation :
    User → UserPatch → Accounts → Fallible AuthError (Unit {0})
guard_last_admin_mutation target patch db =
    if not (is_admin target) || not (disables patch.enabled || demotes patch.role)
    then done tt
    else refuse_if (leb (count_admins db) 1) forbidden

-- sendConfirmEmail
unfoldable pub send_confirm_email : Outside → Bytes → Bytes → Accounts → OnAccounts (Unit {0})
send_confirm_email o user_id email db =
    let stored =
      create_auth_token
        (record {
          id = o.token_id;
          user_id = user_id;
          email = email;
          purpose = token_purpose_confirm_email;
          token_hash = o.token_hash;
          role = [];
          expires_at = o.token_expires_at;
          used = false;
        })
        db in
    if o.send_confirm email o.raw_token then (done tt, stored) else (fail mail_failed, stored)

abbrev pub invalidate_all : Bytes → Accounts → Accounts
invalidate_all email db = invalidate_unused_tokens email token_purpose_change_email (
    invalidate_unused_tokens email token_purpose_confirm_email
      (invalidate_unused_tokens email token_purpose_invite db))

-- adminChangeEmail, from the lookup of the new address on.
abbrev pub change_email_to :
    Outside → User → Bytes → Accounts → Fallible AuthError User → OnAccounts (Unit {0})
change_email_to o target email db (done other) = (fail user_exists, db)
change_email_to o target email db (fail e) = send_confirm_email o target.id email (
    invalidate_all email
      (invalidate_all target.email (update_user_row target.id (set_email email true) db)))

unfoldable pub admin_change_email : Outside → User → Bytes → Accounts → OnAccounts (Unit {0})
admin_change_email o target raw_email db =
    let email = trim_space (to_lower raw_email) in
    if is_empty email
    then (fail missing_email, db)
    else if bytes_eq email (to_lower target.email)
    then (done tt, db)
    else change_email_to o target email db (get_user_by_email email db)

-- applyEnabledPatch
unfoldable pub apply_enabled_patch : Bytes → Bool → Accounts → Accounts
apply_enabled_patch user_id enabled db =
    if enabled
    then update_user_row user_id enabled_user db
    else update_user_row user_id (set_enabled false) (delete_all_sessions user_id db)

abbrev pub patch_email : Outside → User → Option Bytes → Accounts → OnAccounts (Unit {0})
patch_email o target none db = (done tt, db)
patch_email o target (some email) db = admin_change_email o target email db

abbrev pub patch_enabled : Bytes → Option Bool → Accounts → Accounts
patch_enabled user_id none db = db
patch_enabled user_id (some enabled) db = apply_enabled_patch user_id enabled db

-- The part of UpdateUser on the role; a role that may not log in loses its sessions.
abbrev pub role_set : Bytes → Bytes → Accounts → Accounts
role_set user_id role db =
    let db' = update_user_row user_id (set_role role) db in
    if allows_web_login role then db' else delete_all_sessions user_id db'

abbrev pub set_normalized : Bytes → Accounts → Fallible AuthError Bytes → OnAccounts (Unit {0})
set_normalized user_id db (fail e) = (fail e, db)
set_normalized user_id db (done role) = (done tt, role_set user_id role db)

abbrev pub patch_role : Bytes → Option Bytes → Accounts → OnAccounts (Unit {0})
patch_role user_id none db = (done tt, db)
patch_role user_id (some role) db = set_normalized user_id db (normalize_role role)

-- UpdateUser, which answers with the row of the account.
abbrev pub answer : Bytes → Unit {0} → Accounts → OnAccounts User
answer user_id u db = (get_user_by_id user_id db, db)

unfoldable pub update_user : Outside → Bytes → UserPatch → Accounts → OnAccounts User
update_user o user_id patch db = checked (get_user_by_id user_id db) db λ target.
    checked (guard_last_admin_mutation target patch db) db λ allowed.
      then_accounts (patch_email o target patch.email db) λ changed db1.
        then_accounts (patch_role user_id patch.role (patch_enabled user_id patch.enabled db1))
          (answer user_id)

abbrev pub disabling : UserPatch
disabling = record { email = none; enabled = some false; role = none }

-- DeleteUser
unfoldable pub delete_user : Bytes → Accounts → OnAccounts (Unit {0})
delete_user user_id db = checked (get_user_by_id user_id db) db λ target.
    checked
      (refuse_if target.enabled user_not_disabled >> guard_last_admin_mutation target disabling db)
      db λ allowed. (done tt, delete_user_row user_id db)

-- CreateUser, with the id that the database draws: from the lookup of the address on.
abbrev pub new_user : Bytes → Bytes → Bytes → Bytes → User
new_user id email role hash = record {
  id = id;
  email = email;
  role = role;
  enabled = true;
  verified = false;
  must_change_password = true;
  password_hash = hash;
}

abbrev free_email : Fallible AuthError User → Fallible AuthError (Unit {0})
free_email (done other) = fail user_exists
free_email (fail e) = done tt

abbrev pub hashed : Option Bytes → Fallible AuthError Bytes
hashed none = fail hash_failed
hashed (some hash) = done hash

unfoldable pub prepared_user :
    Outside → Bytes → CreateUserInput → Accounts → Fallible AuthError User
prepared_user o id input db = do
  let email = trim_space (to_lower input.email)
  refuse_if (is_empty email || is_empty input.password) missing_credentials
  role ← normalize_role input.role
  free_email (get_user_by_email email db)
  hash ← hashed (o.bcrypt input.password)
  done (new_user id email role hash)

abbrev pub activated : User → Accounts → OnAccounts User
activated created db =
    let db' = update_user_row created.id enabled_user db in (get_user_by_id created.id db', db')

unfoldable pub create_user : Outside → Bytes → CreateUserInput → Accounts → OnAccounts User
unfolding prepared_user
create_user o id input db = checked (prepared_user o id input db) db λ user.
    checked (insert_user user db) db
      λ added. checked (get_user_by_email user.email added) added λ created. activated created added
