-- ===== src/Auth/Admin/Disabled.antt =====
-- internal/auth/admin.go: the guard of the last administrator counts disabled accounts too.
use sudostream.Prelude.{
  refl, List, [], sym, if◌then◌else◌, inr, subst, arith, ◌∷◌, ap, inl, Bool-cases, first, All, ◌≡◌,
  ◌&&◌, ◌≤◌,
}
use sudostream.Auth.Admin.{
  true, set_enabled, some, false, done, delete_all_sessions, update_user_row, get_user_by_id, Bytes,
  Bool, Outside, update_user, guard_last_admin_mutation, disabling, apply_enabled_patch,
}
use sudostream.Auth.Store.{
  or_not_found, delete_all_sessions, update_user_row, get_user_by_id, Accounts, User, count_admins,
  is_admin, has_id, update_row, delete_row,
}

-- Whether an account can act as an administrator.
abbrev pub is_active_admin : User → Bool
is_active_admin u = is_admin u && u.enabled

update_row-disabled :
    (id : Bytes) (us : List User)
    → All (λ u. is_active_admin u ≡ false) (delete_row id us)
    → All (λ u. is_active_admin u ≡ false) (update_row id (set_enabled false) us)
unfolding update_row delete_row
update_row-disabled id [] a = a
update_row-disabled id (u ∷ us) a = elim (Bool-cases (has_id id u)) [
  | inl h ↦
      let rest : All (λ v. is_active_admin v ≡ false) us =
        subst (λ b. All (λ v. is_active_admin v ≡ false) (if b then us else u ∷ delete_row id us)) h
          a in
      subst
        (λ b.
          All (λ v. is_active_admin v ≡ false)
            (if b then set_enabled false u ∷ us else u ∷ update_row id (set_enabled false) us))
        (sym h) (ground arith, rest)
  | inr h ↦
      let rest : All (λ v. is_active_admin v ≡ false) (u ∷ delete_row id us) =
        subst (λ b. All (λ v. is_active_admin v ≡ false) (if b then us else u ∷ delete_row id us)) h
          a in
      subst
        (λ b.
          All (λ v. is_active_admin v ≡ false)
            (if b then set_enabled false u ∷ us else u ∷ update_row id (set_enabled false) us))
        (sym h) (rest.0, update_row-disabled id us rest.1)
]

guard_last_admin_mutation-two :
    (target : User) (db : Accounts)
    → 2 ≤ count_admins db
    → guard_last_admin_mutation target disabling db ≡ done tt
unfolding guard_last_admin_mutation
guard_last_admin_mutation-two target db two = elim (Bool-cases (is_admin target)) [
  | inl a ↦ ground arith
  | inr a ↦ ground arith
]

pub get_user_by_id-some :
    (id : Bytes) (db : Accounts) {t : User}
    → first (has_id id) db.users ≡ some t
    → get_user_by_id id db ≡ done t
unfolding get_user_by_id
get_user_by_id-some id db h = ap or_not_found h

pub first-update_row :
    (id : Bytes) (f : User → User)
    → ((u : User) → has_id id (f u) ≡ has_id id u)
    → (us : List User) {t : User} → first (has_id id) us ≡ some t
    → first (has_id id) (update_row id f us) ≡ some (f t)
unfolding update_row
first-update_row id f held [] h = absurd (ground arith)
first-update_row id f held (u ∷ us) {t} h = elim (Bool-cases (has_id id u)) [
  | inl g ↦ let same : u ≡ t = ground arith in rw (g, held u, g) (ap (λ z. some (f z)) same)
  | inr g ↦ let back = first-update_row id f held us {t = t} (ground arith) in rw (g, g) back
]

-- Where an account is an enabled administrator's, no other account is, and there are two
-- administrators, disabled ones counted, UpdateUser with the patch that disables the account
-- succeeds, the account is then there and disabled, and no account is an enabled administrator's.
pub update_user-disabling :
    (o : Outside) (uid : Bytes) (db : Accounts) {t : User}
    → first (has_id uid) db.users ≡ some t
    → is_active_admin t ≡ true
    → 2 ≤ count_admins db
    → All (λ u. is_active_admin u ≡ false) (delete_row uid db.users)
    → ((update_user o uid disabling db).0 ≡ done (set_enabled false t))
      × (first (has_id uid) (update_user o uid disabling db).1.users ≡ some (set_enabled false t))
      × All (λ u. is_active_admin u ≡ false) (update_user o uid disabling db).1.users
unfolding update_user apply_enabled_patch update_user_row delete_all_sessions
update_user-disabling o uid db {t} found active two others =
    let there = first-update_row uid (set_enabled false) (λ u. refl) db.users {t = t} found in
    rw (get_user_by_id-some uid db {t = t} found, guard_last_admin_mutation-two t db two)
      (
        unfold get_user_by_id in ap or_not_found there,
        there,
        update_row-disabled uid db.users others,
      )
