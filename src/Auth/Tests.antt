-- ===== src/Auth/Tests.antt =====
-- Accounts at concrete rows, with the theorems of the tree applied to them.
use sudostream.Auth.Tokens.Once.{reset_password-once}
use sudostream.Auth.Tokens.Revived.{confirm_email-disabled, disabled}
use sudostream.Auth.Tokens.{
  mark_auth_token_used, confirm_email, token_purpose_reset_password, get_auth_token_by_hash,
  validate_token, reset_password, Hashing,
}
use sudostream.Prelude.{
  first, fail, done, refl, ◌∷◌, false, ◌≡◌, [], none, true, Bool, All, arith, some,
}
use sudostream.Text.{trim_space, is_empty, bytes_eq, codes, Bytes}
use sudostream.Auth.Admin.{
  token_purpose_confirm_email, Outside, UserPatch, CreateUserInput, update_user, create_user,
  delete_user, disabling,
}
use sudostream.Auth.Admin.Never.{
  Steps, steps-HasAdmin, updates, deletes, creates, no_step, then_step,
}
use sudostream.Auth.Admin.Disabled.{is_active_admin, update_user-disabling}
use sudostream.Auth.Admin.Steps.{HasAdmin}
use sudostream.Auth.Store.{
  delete_all_sessions, update_user_row, has_id, token_used, update_row, get_user_by_id, Token,
  Accounts, User, role_admin,
}

abbrev account : Bytes → Bytes → Bytes → Bool → User
account id email role enabled = record {
  id = id;
  email = email;
  role = role;
  enabled = enabled;
  verified = true;
  must_change_password = false;
  password_hash = codes "hash";
}

-- One administrator who can log in, one who cannot, and a user.
abbrev house : Accounts
house = record {
  users =
      account (codes "1") (codes "a@x.org") role_admin true
      ∷ account (codes "2") (codes "b@x.org") role_admin false
      ∷ account (codes "3") (codes "c@x.org") (codes "user") true
      ∷ [];
  tokens = [];
  sessions = [];
}

abbrev outside : Outside
outside = record {
  bcrypt = λ password. some password;
  send_confirm = λ email token. true;
  token_id = codes "t";
  raw_token = codes "r";
  token_hash = codes "h";
  token_expires_at = 100;
}

abbrev demoting : UserPatch
demoting = record { email = some (codes "d@x.org"); enabled = none; role = some (codes "tv") }

abbrev newcomer : CreateUserInput
newcomer = record { email = codes " E@x.org"; password = codes "secret"; role = [] }

abbrev demoted : Accounts
demoted = (update_user outside (codes "1") demoting house).1

abbrev deleted : Accounts
deleted = (delete_user (codes "2") demoted).1

abbrev calls : Steps house (create_user outside (codes "4") newcomer deleted).1
calls =
    then_step
      (then_step (then_step no_step (updates outside (codes "1") demoting)) (deletes (codes "2")))
      (creates outside (codes "4") newcomer)

house-HasAdmin : HasAdmin house
unfolding sudostream.Auth.Store.count_admins sudostream.Text.bytes_eq
house-HasAdmin = omega arith

steps-HasAdmin_example : HasAdmin (create_user outside (codes "4") newcomer deleted).1
steps-HasAdmin_example = steps-HasAdmin calls house-HasAdmin

update_user-disabling_example :
    ((update_user outside (codes "1") disabling house).0
      ≡ done (account (codes "1") (codes "a@x.org") role_admin false))
    × (first (has_id (codes "1")) (update_user outside (codes "1") disabling house).1.users
        ≡ some (account (codes "1") (codes "a@x.org") role_admin false))
    × All (λ u. is_active_admin u ≡ false) (update_user outside (codes "1") disabling house).1.users
unfolding sudostream.Auth.Store.count_admins sudostream.Auth.Store.delete_row
    sudostream.Text.bytes_eq
update_user-disabling_example =
    update_user-disabling outside (codes "1") house
      {t = account (codes "1") (codes "a@x.org") role_admin true} refl refl (omega arith)
      (refl, (refl, tt))

-- A link for a new password and one for an address.
abbrev link : Bytes → Bytes → Bytes → Token
link id user_id purpose = record {
  id = id;
  user_id = user_id;
  email = codes "c@x.org";
  purpose = purpose;
  token_hash = codes "r";
  role = [];
  expires_at = 50;
  used = false;
}

abbrev mailed : Accounts
mailed = record house {
  tokens =
      link (codes "8") (codes "3") (codes "confirm_email")
      ∷ link (codes "9") (codes "3") (codes "reset_password")
      ∷ [];
  sessions =
      record {
        id = codes "5";
        user_id = codes "3";
        token_hash = codes "s";
        ip = [];
        user_agent = [];
        created_at = 5;
        expires_at = 80;
      }
      ∷ [];
}

abbrev hashing : Hashing
hashing = record {
  hash_token = λ raw. raw;
  hash_password = λ password. some password;
  matches = λ hash password. bytes_eq hash password;
}

abbrev after_reset : Accounts
after_reset = (reset_password hashing 10 (codes "r") (codes "fresh") mailed).1

good_reset : reset_password hashing 10 (codes "r") (codes "fresh") mailed ≡ (done tt, after_reset)
unfolding reset_password validate_token get_auth_token_by_hash mark_auth_token_used get_user_by_id
    update_row update_user_row delete_all_sessions bytes_eq trim_space
good_reset = refl

reset_password-once_example :
    (token : Token) × (validate_token hashing 10 (codes "r") token_purpose_reset_password mailed
      ≡ done token)
    × All (λ s. bytes_eq s.user_id token.user_id ≡ false) after_reset.sessions
    × (reset_password hashing 20 (codes "r") (codes "again") after_reset
        ≡ (fail token_used, after_reset))
reset_password-once_example =
    reset_password-once hashing 10 20 (codes "r") (codes "fresh") (codes "again") mailed good_reset

good_confirmation :
    validate_token hashing 10 (codes "r") token_purpose_confirm_email mailed
    ≡ done (link (codes "8") (codes "3") (codes "confirm_email"))
unfolding validate_token get_auth_token_by_hash bytes_eq trim_space
good_confirmation = refl

confirm_email-disabled_example :
    ((confirm_email hashing 10 (codes "r") (disabled outside (codes "3") mailed)).0 ≡ done tt)
    × (first
          (has_id (codes "3"))
          (confirm_email hashing 10 (codes "r") (disabled outside (codes "3") mailed)).1.users
        ≡ some (account (codes "3") (codes "c@x.org") (codes "user") true))
unfolding bytes_eq
confirm_email-disabled_example =
    confirm_email-disabled outside hashing 10 (codes "r") mailed
      {user = account (codes "3") (codes "c@x.org") (codes "user") true}
      {token = link (codes "8") (codes "3") (codes "confirm_email")} refl refl good_confirmation
