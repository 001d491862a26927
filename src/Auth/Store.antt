-- ===== src/Auth/Store.antt =====
-- internal/auth/postgres/store.go: the tables of users, tokens and sessions. The id is the key of
-- a row, so a query by id is about one row; of a unique email a second is refused. Queries that
-- fail for reasons of their own (a lost connection) are left out.
use sudostream.Prelude.{
  ◌&&◌, ◌++◌, done, some, not, false, if◌then◌else◌, fail, ◌||◌, true, Fallible, Option, List, ℕ,
  Bool, [], ◌∷◌, none, length, first, keep, map,
}
use sudostream.Text.{trim_space, to_lower, Bytes, bytes_eq, codes}

-- User with its password hash; `verified` is whether EmailVerifiedAt is set.
pub record User : Type 0 where
  pub id : Bytes
  pub email : Bytes
  pub role : Bytes
  pub enabled : Bool
  pub verified : Bool
  pub must_change_password : Bool
  pub password_hash : Bytes

-- Token; `used` is whether UsedAt is set.
pub record Token : Type 0 where
  pub id : Bytes
  pub user_id : Bytes
  pub email : Bytes
  pub purpose : Bytes
  pub token_hash : Bytes
  pub role : Bytes
  pub expires_at : ℕ
  pub used : Bool

-- SessionRecord
pub record Session : Type 0 where
  pub id : Bytes
  pub user_id : Bytes
  pub token_hash : Bytes
  pub ip : Bytes
  pub user_agent : Bytes
  pub created_at : ℕ
  pub expires_at : ℕ

pub record Accounts : Type 0 where
  pub users : List User
  pub tokens : List Token
  pub sessions : List Session

-- The errors of the package that these calls return.
pub data AuthError : Type 0 where
  missing_credentials invalid_role user_exists managed_user_not_found forbidden : AuthError
  user_not_disabled missing_email mail_failed hash_failed insert_failed update_failed : AuthError
  invalid_token token_used token_expired password_unchanged session_missing : AuthError

abbrev pub role_admin : Bytes
role_admin = codes "admin"

abbrev pub is_admin : User → Bool
is_admin user = bytes_eq user.role role_admin

abbrev pub has_id : Bytes → User → Bool
has_id id user = bytes_eq user.id id

abbrev pub has_email : Bytes → User → Bool
has_email email user = bytes_eq user.email email

abbrev pub or_not_found {ℓ} : {T : Type ℓ} → Option T → Fallible AuthError T
or_not_found none = fail managed_user_not_found
or_not_found (some t) = done t

-- UPDATE and DELETE of the row with a key.
unfoldable pub update_row : Bytes → (User → User) → List User → List User
update_row id f [] = []
update_row id f (u ∷ us) =
    let rest = update_row id f us in if has_id id u then f u ∷ us else u ∷ rest

unfoldable pub delete_row : Bytes → List User → List User
delete_row id [] = []
delete_row id (u ∷ us) = let rest = delete_row id us in if has_id id u then us else u ∷ rest

abbrev pub with_users : Accounts → List User → Accounts
with_users db us = record db { users = us }

-- Store.GetUserByID
unfoldable pub get_user_by_id : Bytes → Accounts → Fallible AuthError User
get_user_by_id id db = or_not_found (first (has_id id) db.users)

-- Store.GetUserByEmail
unfoldable pub get_user_by_email : Bytes → Accounts → Fallible AuthError User
get_user_by_email email db = or_not_found (first (has_email email) db.users)

-- Store.CountAdmins
unfoldable pub count_admins : Accounts → ℕ
count_admins db = length (keep is_admin db.users)

abbrev pub taken : Option User → Bool
taken none = false
taken (some u) = true

-- Store.CreateUser, with the id that the database draws.
unfoldable pub insert_user : User → Accounts → Fallible AuthError Accounts
insert_user user db =
    if taken (first (has_id user.id) db.users) || taken (first (has_email user.email) db.users)
    then fail insert_failed
    else done (with_users db (db.users ++ (user ∷ [])))

-- Store.UpdateUser, of a role or of the flag enabled.
abbrev pub set_role : Bytes → User → User
set_role role u = record u { role = role }

abbrev pub set_enabled : Bool → User → User
set_enabled enabled u = record u { enabled = enabled }

-- Store.EnableUser with its mark of verification.
abbrev pub enabled_user : User → User
enabled_user u = record u { enabled = true; verified = true }

-- Store.UpdateUserEmail, clearing the verification where asked.
abbrev pub set_email : Bytes → Bool → User → User
set_email email clear u = record u { email = email; verified = if clear then false else u.verified }

-- Store.UpdatePasswordHash
abbrev pub set_password : Bytes → Bool → User → User
set_password hash must_change u = record u {
  password_hash = hash;
  must_change_password = must_change;
}

unfoldable pub update_user_row : Bytes → (User → User) → Accounts → Accounts
unfolding update_row
update_user_row id f db = with_users db (update_row id f db.users)

abbrev pub of_other_user : Bytes → Session → Bool
of_other_user user_id session = not (bytes_eq session.user_id user_id)

-- Store.DeleteAllSessionsByUserID
unfoldable pub delete_all_sessions : Bytes → Accounts → Accounts
delete_all_sessions user_id db = record db { sessions = keep (of_other_user user_id) db.sessions }

abbrev of_other_owner : Bytes → Token → Bool
of_other_owner user_id token = not (bytes_eq token.user_id user_id)

-- Store.DeleteUser, where the sessions and tokens of the user go with the row.
unfoldable pub delete_user_row : Bytes → Accounts → Accounts
unfolding delete_row delete_all_sessions
delete_user_row id db = record {
  users = delete_row id db.users;
  tokens = keep (of_other_owner id) db.tokens;
  sessions = keep (of_other_user id) db.sessions;
}

-- Store.InvalidateUnusedTokens
abbrev spent : Bytes → Bytes → Token → Token
spent email purpose token = record token {
  used =
      token.used
      || (bytes_eq token.email (to_lower (trim_space email)) && bytes_eq token.purpose purpose);
}

unfoldable pub invalidate_unused_tokens : Bytes → Bytes → Accounts → Accounts
invalidate_unused_tokens email purpose db = record db {
  tokens = map (spent email purpose) db.tokens;
}

-- Store.CreateAuthToken
unfoldable pub create_auth_token : Token → Accounts → Accounts
create_auth_token token db = record db { tokens = token ∷ db.tokens }
