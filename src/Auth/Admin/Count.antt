-- ===== src/Auth/Admin/Count.antt =====
-- internal/auth/postgres/store.go: how the number of administrators moves with the rows.
use sudostream.Prelude.{
  some, ◌⊎◌, first, ◌++◌, length, keep, refl, inr, [], inl, arith, ◌+◌, Bool-cases, if◌then◌else◌,
  true, false, ◌≤◌, ◌∷◌, Bool, ℕ, ◌≡◌, List,
}
use sudostream.Auth.Store.{User, has_id, is_admin, update_row, delete_row}
use sudostream.Text.{Bytes}

abbrev pub admins : List User → ℕ
admins us = length (keep is_admin us)

-- Whether the first row with an id is an administrator's.
unfoldable pub admin_at : Bytes → List User → Bool
admin_at id [] = false
admin_at id (u ∷ us) = let rest = admin_at id us in if has_id id u then is_admin u else rest

admins-cons :
    (u : User) (us : List User)
    → ((is_admin u ≡ true) × (admins (u ∷ us) ≡ admins us + 1))
      ⊎ ((is_admin u ≡ false) × (admins (u ∷ us) ≡ admins us))
admins-cons u us = elim (Bool-cases (is_admin u)) [
  | inl h ↦ inl (h, ground arith)
  | inr h ↦ inr (h, ground arith)
]

pub admins-update_row :
    (id : Bytes) (f : User → User)
    → ((u : User) → is_admin (f u) ≡ is_admin u)
    → (us : List User) → admins (update_row id f us) ≡ admins us
unfolding update_row
admins-update_row id f same [] = refl
admins-update_row id f same (u ∷ us) =
    let back = admins-update_row id f same us in
    let s = same u in
    let c1 = admins-cons u us in
    let c2 = admins-cons (f u) us in
    let c3 = admins-cons u (update_row id f us) in
    elim (Bool-cases (has_id id u)) [ inl h ↦ ground arith | inr h ↦ ground arith ]

pub admins-update_row_most :
    (id : Bytes) (f : User → User) (us : List User) → admins us ≤ admins (update_row id f us) + 1
unfolding update_row
admins-update_row_most id f [] = omega arith
admins-update_row_most id f (u ∷ us) =
    let back = admins-update_row_most id f us in
    let c1 = admins-cons u us in
    let c2 = admins-cons (f u) us in
    let c3 = admins-cons u (update_row id f us) in
    elim (Bool-cases (has_id id u)) [ inl h ↦ ground arith | inr h ↦ ground arith ]

pub admins-update_row_other :
    (id : Bytes) (f : User → User) (us : List User)
    → admin_at id us ≡ false
    → admins us ≤ admins (update_row id f us)
unfolding update_row admin_at
admins-update_row_other id f [] h = omega arith
admins-update_row_other id f (u ∷ us) h =
    let c1 = admins-cons u us in
    let c2 = admins-cons (f u) us in
    let c3 = admins-cons u (update_row id f us) in
    elim (Bool-cases (has_id id u)) [
      | inl g ↦ ground arith
      | inr g ↦ let back = admins-update_row_other id f us (ground arith) in ground arith
    ]

pub admins-update_row_made :
    (id : Bytes) (f : User → User)
    → ((u : User) → is_admin (f u) ≡ true)
    → (us : List User) → admins us ≤ admins (update_row id f us)
unfolding update_row
admins-update_row_made id f made [] = omega arith
admins-update_row_made id f made (u ∷ us) =
    let back = admins-update_row_made id f made us in
    let m = made u in
    let c1 = admins-cons u us in
    let c2 = admins-cons (f u) us in
    let c3 = admins-cons u (update_row id f us) in
    elim (Bool-cases (has_id id u)) [ inl h ↦ ground arith | inr h ↦ ground arith ]

pub admins-delete_row_most :
    (id : Bytes) (us : List User) → admins us ≤ admins (delete_row id us) + 1
unfolding delete_row
admins-delete_row_most id [] = omega arith
admins-delete_row_most id (u ∷ us) =
    let back = admins-delete_row_most id us in
    let c1 = admins-cons u us in
    let c3 = admins-cons u (delete_row id us) in
    elim (Bool-cases (has_id id u)) [ inl h ↦ ground arith | inr h ↦ ground arith ]

pub admins-delete_row_other :
    (id : Bytes) (us : List User) → admin_at id us ≡ false → admins us ≤ admins (delete_row id us)
unfolding delete_row admin_at
admins-delete_row_other id [] h = omega arith
admins-delete_row_other id (u ∷ us) h =
    let c1 = admins-cons u us in
    let c3 = admins-cons u (delete_row id us) in
    elim (Bool-cases (has_id id u)) [
      | inl g ↦ ground arith
      | inr g ↦ let back = admins-delete_row_other id us (ground arith) in ground arith
    ]

pub admins-append : (us : List User) (u : User) → admins us ≤ admins (us ++ (u ∷ []))
admins-append [] u = omega arith
admins-append (v ∷ us) u =
    let back = admins-append us u in
    let c1 = admins-cons v us in let c2 = admins-cons v (us ++ (u ∷ [])) in ground arith

-- An update that keeps ids and roles leaves whose row is an administrator's.
pub admin_at-update_row :
    (k : Bytes) (id : Bytes) (f : User → User)
    → ((u : User) → is_admin (f u) ≡ is_admin u)
    → ((u : User) → has_id k (f u) ≡ has_id k u)
    → (us : List User) → admin_at k (update_row id f us) ≡ admin_at k us
unfolding update_row admin_at
admin_at-update_row k id f same held [] = refl
admin_at-update_row k id f same held (u ∷ us) =
    let back = admin_at-update_row k id f same held us in
    let s = same u in
    let g = held u in
    elim (Bool-cases (has_id id u)) [ inl h ↦ rw (h, s, g) refl | inr h ↦ rw (h, back) refl ]

pub admin_at-first :
    (id : Bytes) (us : List User) {t : User}
    → first (has_id id) us ≡ some t
    → admin_at id us ≡ is_admin t
unfolding admin_at
admin_at-first id [] h = absurd (ground arith)
admin_at-first id (u ∷ us) {t} h = elim (Bool-cases (has_id id u)) [
  | inl g ↦ ground arith
  | inr g ↦ let back = admin_at-first id us {t = t} (ground arith) in ground arith
]

pub admins_most : (us : List User) → admins us ≤ length us
admins_most [] = omega arith
admins_most (u ∷ us) = let back = admins_most us in let c = admins-cons u us in ground arith
