-- ===== src/Auth/Tokens.antt =====
-- internal/auth/tokens.go: the links that are sent by mail, for a new password and for an address.
pub mod Once
pub mod Revived
use sudostream.Prelude.{
  ◌>>=◌, not, Bool, true, false, none, ltb, some, ◌>>◌, fail, first, ◌&&◌, ◌||◌, refuse_if, done,
  if◌then◌else◌, map, Option, Fallible, ℕ,
}
use sudostream.Text.{trim_space, is_empty, bytes_eq, codes, Bytes}
use sudostream.Auth.Admin.{
  OnAccounts, checked, then_accounts, hashed, token_purpose_confirm_email,
  token_purpose_change_email,
}
use sudostream.Auth.Store.{
  Accounts, AuthError, Token, User, get_user_by_id, update_user_row, delete_all_sessions,
  set_password, set_email, enabled_user, invalidate_unused_tokens, has_id, has_email, invalid_token,
  token_used, token_expired, password_unchanged, update_failed, taken,
}

abbrev pub token_purpose_reset_password : Bytes
token_purpose_reset_password = codes "reset_password"

-- The hashes that the calls use: SHA-256 of a token, bcrypt of a password and its comparison.
pub record Hashing : Type 0 where
  pub hash_token : Bytes → Bytes
  pub hash_password : Bytes → Option Bytes
  pub matches : Bytes → Bytes → Bool

-- Store.GetAuthTokenByHash
abbrev pub is_token : Bytes → Bytes → Token → Bool
is_token hash purpose token = bytes_eq token.token_hash hash && bytes_eq token.purpose purpose

unfoldable pub get_auth_token_by_hash : Bytes → Bytes → Accounts → Option Token
get_auth_token_by_hash hash purpose db = first (is_token hash purpose) db.tokens

-- Store.MarkAuthTokenUsed
abbrev pub marked : Bytes → Token → Token
marked id token = record token { used = token.used || bytes_eq token.id id }

unfoldable pub mark_auth_token_used : Bytes → Accounts → Accounts
mark_auth_token_used id db = record db { tokens = map (marked id) db.tokens }

-- Store.UpdateUserEmail, which the unique index on addresses can refuse.
abbrev holds_email : Bytes → Bytes → User → Bool
holds_email id email user = has_email email user && not (has_id id user)

unfoldable pub update_user_email : Bytes → Bytes → Accounts → Fallible AuthError Accounts
update_user_email id email db =
    if taken (first (holds_email id email) db.users)
    then fail update_failed
    else done (update_user_row id (set_email email false) db)

-- validateToken
abbrev pub checked_token : ℕ → Option Token → Fallible AuthError Token
checked_token now none = fail invalid_token
checked_token now (some token) =
    if token.used
    then fail token_used
    else if ltb token.expires_at now
    then fail token_expired
    else done token

unfoldable pub validate_token : Hashing → ℕ → Bytes → Bytes → Accounts → Fallible AuthError Token
unfolding get_auth_token_by_hash
validate_token g now raw_token purpose db =
    if is_empty (trim_space raw_token)
    then fail invalid_token
    else checked_token now (get_auth_token_by_hash (g.hash_token raw_token) purpose db)

-- consumeToken
unfoldable pub consume_token : Hashing → ℕ → Bytes → Bytes → Accounts → OnAccounts Token
consume_token g now raw_token purpose db =
    checked (validate_token g now raw_token purpose db) db
      λ token. (done token, mark_auth_token_used token.id db)

-- ResetPassword
abbrev pub new_hash : Hashing → Bytes → User → Fallible AuthError Bytes
new_hash g password user =
    refuse_if (g.matches user.password_hash password) password_unchanged
    >> hashed (g.hash_password password)

abbrev pub password_reset : Token → Bytes → Accounts → Accounts
password_reset token hash db =
    delete_all_sessions token.user_id
      (update_user_row token.user_id (set_password hash false) (mark_auth_token_used token.id db))

unfoldable pub reset_password : Hashing → ℕ → Bytes → Bytes → Accounts → OnAccounts (Unit {0})
reset_password g now raw_token password db =
    checked (validate_token g now raw_token token_purpose_reset_password db) db λ token.
      checked (get_user_by_id token.user_id db) db λ user.
        checked (new_hash g password user) db λ hash. (done tt, password_reset token hash db)

-- confirmEmailPurpose
abbrev pub moved_email : Token → Accounts → Fallible AuthError Accounts
moved_email token db = do
  changed ← update_user_email token.user_id token.email db
  done (invalidate_unused_tokens token.email token_purpose_change_email changed)

abbrev pub changed_email : Bytes → Token → Accounts → Fallible AuthError Accounts
changed_email purpose token db =
    if bytes_eq purpose token_purpose_change_email then moved_email token db else done db

unfoldable pub confirm_email_purpose :
    Hashing → ℕ → Bytes → Bytes → Accounts → OnAccounts (Unit {0})
unfolding consume_token
confirm_email_purpose g now raw_token purpose db =
    then_accounts (consume_token g now raw_token purpose db) λ token consumed.
      checked (changed_email purpose token consumed) consumed
        λ changed. (done tt, update_user_row token.user_id enabled_user changed)

-- ConfirmEmail: a link that was used before is taken for a success.
abbrev is_token_used : AuthError → Bool
is_token_used token_used = true
is_token_used _ = false

abbrev is_invalid_token : AuthError → Bool
is_invalid_token invalid_token = true
is_invalid_token _ = false

abbrev pub or_used : OnAccounts (Unit {0}) → OnAccounts (Unit {0})
or_used (done u, db) = (done u, db)
or_used (fail e, db) = if is_token_used e then (done tt, db) else (fail e, db)

abbrev pub or_change :
    OnAccounts (Unit {0}) → (Accounts → OnAccounts (Unit {0})) → OnAccounts (Unit {0})
or_change (done u, db) change = (done u, db)
or_change (fail e, db) change = if is_invalid_token e then change db else (fail e, db)

unfoldable pub confirm_email : Hashing → ℕ → Bytes → Accounts → OnAccounts (Unit {0})
unfolding confirm_email_purpose
confirm_email g now raw_token db =
    or_change (or_used (confirm_email_purpose g now raw_token token_purpose_confirm_email db))
      λ db'. or_used (confirm_email_purpose g now raw_token token_purpose_change_email db')
