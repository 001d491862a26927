-- ===== src/Auth/Tokens/Once.antt =====
-- internal/auth/tokens.go: a link for a new password works once.
use sudostream.Text.{bytes_eq, trim_space, is_empty, Bytes}
use sudostream.Prelude.{
  ◌∙◌, All-keep_test, subst, All-map, keep, ltb, map, fail, some, done, first, Option, ℕ, true,
  false, All, refl, none, [], ◌||◌, inr, ap, inl, ◌∷◌, Bool-cases, arith, ◌≡◌, List,
}
use sudostream.Text.Laws.Equality.{eq→bytes_eq}
use sudostream.Auth.Tokens.{
  checked, OnAccounts, Fallible, Hashing, reset_password, validate_token, checked_token,
  get_auth_token_by_hash, mark_auth_token_used, marked, is_token, token_purpose_reset_password,
  new_hash, password_reset,
}
use sudostream.Auth.Store.{
  get_user_by_id, update_user_row, delete_all_sessions, Accounts, AuthError, Token, Session,
  token_used, of_other_user,
}

-- The first token that is found is found again, marked, after it was used.
first-marked :
    (hash purpose : Bytes) (ts : List Token) {t : Token}
    → first (is_token hash purpose) ts ≡ some t
    → first (is_token hash purpose) (map (marked t.id) ts) ≡ some (marked t.id t)
first-marked hash purpose [] h = absurd (ground arith)
first-marked hash purpose (x ∷ xs) {t} h = elim (Bool-cases (is_token hash purpose x)) [
  | inl g ↦ let same : x ≡ t = ground arith in rw g (ap (λ (z : Token). some (marked t.id z)) same)
  | inr g ↦ let back = first-marked hash purpose xs {t = t} (ground arith) in rw g back
]

checked_token-done :
    (now : ℕ) (r : Option Token) {t : Token} → checked_token now r ≡ done t → r ≡ some t
checked_token-done now none h = absurd (ground arith)
checked_token-done now (some x) h = elim (Bool-cases x.used) [
  | inl u ↦ absurd (ground arith)
  | inr u ↦ elim (Bool-cases (ltb x.expires_at now)) [
    | inl l ↦ absurd (ground arith)
    | inr l ↦ ground arith
  ]
]

-- A token that was validated, and is marked, is refused as used at any later time.
pub validate_token-marked :
    (g : Hashing) (now later : ℕ) (raw purpose : Bytes) (db : Accounts) {t : Token}
    → validate_token g now raw purpose db ≡ done t
    → validate_token g later raw purpose (mark_auth_token_used t.id db) ≡ fail token_used
unfolding validate_token get_auth_token_by_hash mark_auth_token_used
validate_token-marked g now later raw purpose db {t} h =
    elim (Bool-cases (is_empty (trim_space raw))) [
      | inl e ↦ absurd (ground arith)
      | inr e ↦
          let valid : checked_token now (first (is_token (g.hash_token raw) purpose) db.tokens)
              ≡ done t =
            ground arith in
          let found = first-marked (g.hash_token raw) purpose db.tokens {t = t} (
            checked_token-done now (first (is_token (g.hash_token raw) purpose) db.tokens) {t = t}
              valid) in
          let used : (t.used || bytes_eq t.id t.id) ≡ true =
            ground (arith, eq→bytes_eq t.id t.id refl) in
          rw (e, found, used) refl
    ]

-- A chain that succeeds went on past its first call.
pub checked-done :
    {S : Type 0} {T : Type 0} (r : Fallible AuthError S) (db : Accounts) (next : S → OnAccounts T)
    {v : T} {db' : Accounts}
    → checked r db next ≡ (done v, db')
    → (s : S) × (r ≡ done s) × (next s ≡ (done v, db'))
checked-done (fail e) db next {v} {db'} h = absurd (ground (arith, ap (λ p. p.0) h))
checked-done (done s) db next h = (s, refl, h)

All-other_user :
    (id : Bytes) (ss : List Session)
    → All (λ s. bytes_eq s.user_id id ≡ false) (keep (of_other_user id) ss)
All-other_user id ss =
    All-map (λ s. of_other_user id s ≡ true) (λ s. bytes_eq s.user_id id ≡ false)
      (λ s h. ground arith) (keep (of_other_user id) ss) (All-keep_test (of_other_user id) ss)

password_reset-sessions :
    (token : Token) (hash : Bytes) (db : Accounts)
    → All (λ s. bytes_eq s.user_id token.user_id ≡ false) (password_reset token hash db).sessions
unfolding delete_all_sessions update_user_row mark_auth_token_used
password_reset-sessions token hash db = All-other_user token.user_id db.sessions

password_reset-validate_token :
    (g : Hashing) (later : ℕ) (raw purpose : Bytes) (token : Token) (hash : Bytes) (db : Accounts)
    → validate_token g later raw purpose (password_reset token hash db)
      ≡ validate_token g later raw purpose (mark_auth_token_used token.id db)
unfolding validate_token get_auth_token_by_hash delete_all_sessions update_user_row
    mark_auth_token_used
password_reset-validate_token g later raw purpose token hash db = refl

reset_password-refused :
    (g : Hashing) (later : ℕ) (raw password : Bytes) (db : Accounts) {e : AuthError}
    → validate_token g later raw token_purpose_reset_password db ≡ fail e
    → reset_password g later raw password db ≡ (fail e, db)
unfolding reset_password
reset_password-refused g later raw password db h = rw h refl

-- Where ResetPassword succeeds, the token was valid, no session of its user is left, and a second
-- ResetPassword with the same link fails, at any time and with any password, as the link is used.
pub reset_password-once :
    (g : Hashing) (now later : ℕ) (raw password other : Bytes) (db : Accounts) {db' : Accounts}
    → reset_password g now raw password db ≡ (done tt, db')
    → (token : Token) × (validate_token g now raw token_purpose_reset_password db ≡ done token)
      × All (λ s. bytes_eq s.user_id token.user_id ≡ false) db'.sessions
      × (reset_password g later raw other db' ≡ (fail token_used, db'))
unfolding reset_password
reset_password-once g now later raw password other db {db'} h =
    let (token, valid, h1) =
      checked-done (validate_token g now raw token_purpose_reset_password db) db _ h in
    let (user, found, h2) = checked-done (get_user_by_id token.user_id db) db _ h1 in
    let (hash, hashed, h3) = checked-done (new_hash g password user) db _ h2 in
    let left : password_reset token hash db ≡ db' = ap (λ p. p.1) h3 in
    (
      token,
      valid,
      subst (λ (z : Accounts). All (λ s. bytes_eq s.user_id token.user_id ≡ false) z.sessions) left
          (password_reset-sessions token hash db),
      subst (λ z. reset_password g later raw other z ≡ (fail token_used, z)) left
          (reset_password-refused g later raw other (password_reset token hash db) (
            password_reset-validate_token g later raw token_purpose_reset_password token hash db
            ∙ validate_token-marked g now later raw token_purpose_reset_password db {t = token}
                valid)),
    )
