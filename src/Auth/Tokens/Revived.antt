-- ===== src/Auth/Tokens/Revived.antt =====
-- internal/auth/tokens.go: what a link for the confirmation of an address does to an account.
use sudostream.Text.{bytes_eq}
use sudostream.Prelude.{ap, sym, subst, ◌∙◌, refl, ◌≡◌}
use sudostream.Auth.Admin.{
  answer, patch_enabled, patch_role, patch_email, then_accounts, UserPatch, Outside, OnAccounts,
  update_user, guard_last_admin_mutation, disabling, apply_enabled_patch,
  token_purpose_confirm_email, token_purpose_change_email,
}
use sudostream.Auth.Admin.Disabled.{get_user_by_id-some, first-update_row}
use sudostream.Auth.Store.{
  get_user_by_id, Accounts, Token, User, has_id, is_admin, update_row, update_user_row, set_enabled,
  enabled_user, delete_all_sessions,
}
use sudostream.Auth.Tokens.{
  some, first, false, done, Bytes, ℕ, bytes_eq, Hashing, validate_token, confirm_email,
  confirm_email_purpose, consume_token, get_auth_token_by_hash, mark_auth_token_used,
}

confirm_is_no_change : bytes_eq token_purpose_confirm_email token_purpose_change_email ≡ false
unfolding bytes_eq
confirm_is_no_change = refl

confirm_email-done :
    (g : Hashing) (now : ℕ) (raw : Bytes) (db : Accounts) {token : Token}
    → validate_token g now raw token_purpose_confirm_email db ≡ done token
    → confirm_email g now raw db
      ≡ (done tt, update_user_row token.user_id enabled_user (mark_auth_token_used token.id db))
unfolding confirm_email confirm_email_purpose consume_token
confirm_email-done g now raw db valid = rw (valid, confirm_is_no_change) refl

guard_last_admin_mutation-other :
    (target : User) (db : Accounts)
    → is_admin target ≡ false
    → guard_last_admin_mutation target disabling db ≡ done tt
unfolding guard_last_admin_mutation
guard_last_admin_mutation-other target db h = rw h refl

-- The accounts after UpdateUser has disabled one.
abbrev pub disabled : Outside → Bytes → Accounts → Accounts
disabled o uid db = (update_user o uid disabling db).1

update_user-allowed :
    (o : Outside) (uid : Bytes) (patch : UserPatch) (db : Accounts) {target : User}
    → get_user_by_id uid db ≡ done target
    → guard_last_admin_mutation target patch db ≡ done tt
    → update_user o uid patch db
      ≡ then_accounts (patch_email o target patch.email db) (λ changed db1.
        then_accounts
          (patch_role uid patch.role (patch_enabled uid patch.enabled db1))
          (answer uid))
unfolding update_user
update_user-allowed o uid patch db found allowed = rw (found, allowed) refl

disabled_lem :
    (o : Outside) (uid : Bytes) (db : Accounts) {user : User}
    → first (has_id uid) db.users ≡ some user
    → is_admin user ≡ false
    → disabled o uid db ≡ update_user_row uid (set_enabled false) (delete_all_sessions uid db)
unfolding apply_enabled_patch
disabled_lem o uid db {user} found other =
    ap (λ (p : OnAccounts User). p.1)
      (update_user-allowed o uid disabling db {target = user}
        (get_user_by_id-some uid db {t = user} found)
        (guard_last_admin_mutation-other user db other))

validate_token-disabled :
    (g : Hashing) (now : ℕ) (raw purpose uid : Bytes) (db : Accounts)
    → validate_token g now raw purpose
        (update_user_row uid (set_enabled false) (delete_all_sessions uid db))
      ≡ validate_token g now raw purpose db
unfolding validate_token get_auth_token_by_hash update_user_row delete_all_sessions
validate_token-disabled g now raw purpose uid db = refl

twice-first :
    (uid id : Bytes) (db : Accounts) {user : User}
    → first (has_id uid) db.users ≡ some user
    → first
        (has_id uid)
        (update_user_row uid enabled_user (
          mark_auth_token_used id
            (update_user_row uid (set_enabled false) (delete_all_sessions uid db)))).users
      ≡ some (enabled_user user)
unfolding update_user_row mark_auth_token_used delete_all_sessions
twice-first uid id db {user} found =
    first-update_row uid enabled_user (λ u. refl) (update_row uid (set_enabled false) db.users)
      {t = set_enabled false user}
      (first-update_row uid (set_enabled false) (λ u. refl) db.users {t = user} found)

-- Where an account is no administrator's and there is a valid link to confirm its address, the link
-- stays good when UpdateUser disables the account: ConfirmEmail then succeeds, and the account is
-- enabled again.
pub confirm_email-disabled :
    (o : Outside) (g : Hashing) (now : ℕ) (raw : Bytes) (db : Accounts) {user : User}
    {token : Token}
    → first (has_id token.user_id) db.users ≡ some user
    → is_admin user ≡ false
    → validate_token g now raw token_purpose_confirm_email db ≡ done token
    → ((confirm_email g now raw (disabled o token.user_id db)).0 ≡ done tt)
      × (first
            (has_id token.user_id)
            (confirm_email g now raw (disabled o token.user_id db)).1.users
          ≡ some (enabled_user user))
confirm_email-disabled o g now raw db {user} {token} found other valid =
    let left =
      update_user_row token.user_id (set_enabled false) (delete_all_sessions token.user_id db) in
    let r =
      confirm_email-done g now raw left {token = token}
        (validate_token-disabled g now raw token_purpose_confirm_email token.user_id db ∙ valid) in
    subst
      (λ z.
        ((confirm_email g now raw z).0 ≡ done tt)
        × (first (has_id token.user_id) (confirm_email g now raw z).1.users
            ≡ some (enabled_user user)))
      (sym (disabled_lem o token.user_id db {user = user} found other))
      (
        ap (λ p. p.0) r,
        ap (λ p. first (has_id token.user_id) p.1.users) r
            ∙ twice-first token.user_id token.id db {user = user} found,
      )
