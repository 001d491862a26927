-- ===== src/Auth/Sessions/Own.antt =====
-- internal/auth/sessions.go: nobody revokes the session of another.
use sudostream.Auth.Sessions.{
  not, done, keep, List, Bytes, Bool, revoke_user_session, get_session_by_id, delete_session_by_id,
  session_has_id, of_user,
}
use sudostream.Auth.Store.{Accounts, Session, of_other_user}
use sudostream.Prelude.{
  arith, subst, [], ◌∙◌, sym, ap, inl, Bool-cases, inr, ◌∷◌, Fallible-cases, true, ◌≡◌, All, refl,
}

keep-keep {ℓ} :
    {A : Type ℓ} (p q : A → Bool) (xs : List A)
    → All (λ x. p x ≡ true → q x ≡ true) xs
    → keep p (keep q xs) ≡ keep p xs
keep-keep p q [] a = refl
keep-keep p q (x ∷ xs) (h, a) =
    let back = keep-keep p q xs a in
    elim (Bool-cases (p x)) [
      | inl t ↦ rw (h t, t) (ap (λ z. x ∷ z) back)
      | inr n ↦ elim (Bool-cases (q x)) [ inl t ↦ rw (t, n) back | inr f ↦ rw (f, n) back ]
    ]

-- The id is the key of a row: a row that has it is the one that is found.
abbrev Keyed : Bytes → Accounts → Type 0
Keyed id db = All (λ s. session_has_id id s ≡ true → get_session_by_id id db ≡ done s) db.sessions

others_lem :
    (user_id session_id : Bytes) (db : Accounts) {found : Session}
    → get_session_by_id session_id db ≡ done found
    → of_user user_id found ≡ true
    → (ss : List Session)
    → All (λ s. session_has_id session_id s ≡ true → get_session_by_id session_id db ≡ done s) ss
    → All (λ s. of_other_user user_id s ≡ true → not (session_has_id session_id s) ≡ true) ss
others_lem user_id session_id db {found} g own [] a = tt
others_lem user_id session_id db {found} g own (s ∷ ss) (h, a) = (
  λ other. elim (Bool-cases (session_has_id session_id s)) [
    | inl t ↦
        let same : done found ≡ done s = sym g ∙ h t in
        let one : found ≡ s = ground arith in
        let mine : of_user user_id s ≡ true =
          subst (λ (z : Session). of_user user_id z ≡ true) one own in
        absurd (ground arith)
    | inr f ↦ ground arith
  ],
  others_lem user_id session_id db {found = found} g own ss a,
)

-- Where the id is the key of a session, RevokeUserSession leaves every session of other users as it
-- is, whether it fails or not.
pub revoke_user_session-others :
    (user_id session_id current : Bytes) (db : Accounts)
    → Keyed session_id db
    → keep (of_other_user user_id) (revoke_user_session user_id session_id current db).1.sessions
      ≡ keep (of_other_user user_id) db.sessions
unfolding revoke_user_session delete_session_by_id
revoke_user_session-others user_id session_id current db keyed =
    elim (Fallible-cases (get_session_by_id session_id db)) [
      | inr (e, g) ↦ rw g refl
      | inl (found, g) ↦ rw g (elim (Bool-cases (of_user user_id found)) [
        | inr f ↦ rw f refl
        | inl t ↦ rw t (
            keep-keep (of_other_user user_id) (λ s. not (session_has_id session_id s)) db.sessions
              (others_lem user_id session_id db {found = found} g t db.sessions keyed))
      ])
    ]
