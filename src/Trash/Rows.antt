-- ===== src/Trash/Rows.antt =====
-- The table of the recycle bin after an insertion and a deletion (internal/trash/postgres/store.go).
use sudostream.Text.Laws.Equality.{bytes_eq_refl}
use sudostream.Prelude.{
  first-none, sym, subst, inr, refl, arith, inl, not, Option-cases, keep, first, false, true, All,
  done, List, ◌≡◌, Bool, [], ◌∷◌, none,
}
use sudostream.Trash.Store.{delete_row, get, has_id, insert, Item, Table, with_rows}

keep_of_All :
    (p : Item → Bool) (xs : List Item) → All (λ x. p x ≡ false) xs → keep (λ x. not (p x)) xs ≡ xs
keep_of_All p [] h = refl
keep_of_All p (x ∷ xs) h = rw (h.0, keep_of_All p xs h.1) refl

pub insert-done :
    (item : Item) (t : Table) {t' : Table}
    → insert item t ≡ done t'
    → (t.online ≡ true)
      × (first (has_id item.id) t.rows ≡ none)
      × (t' ≡ with_rows t (item ∷ t.rows))
unfolding insert
insert-done item t h = elim (Option-cases (first (has_id item.id) t.rows)) [
  | inl e ↦ ground arith
  | inr (x, e) ↦ absurd (ground arith)
]

get-consed :
    (item : Item) (t : Table)
    → t.online ≡ true
    → get item.id (with_rows t (item ∷ t.rows)) ≡ done item
unfolding get
get-consed item t on = ground (arith, bytes_eq_refl item.id)

delete_row-consed :
    (item : Item) (t : Table)
    → t.online ≡ true
    → All (λ x. has_id item.id x ≡ false) t.rows
    → delete_row item.id (with_rows t (item ∷ t.rows)) ≡ done t
unfolding delete_row
delete_row-consed item t on fresh =
    rw (bytes_eq_refl item.id, keep_of_All (has_id item.id) t.rows fresh) (ground arith)

-- A row that was inserted is found, and its deletion leaves the table as it was.
pub get-insert :
    (item : Item) (t : Table) {t' : Table}
    → insert item t ≡ done t'
    → (get item.id t' ≡ done item) × (delete_row item.id t' ≡ done t)
get-insert item t {t'} h =
    let (on, fresh, e) = insert-done item t h in
    (
      subst (λ z. get item.id z ≡ done item) (sym e) (get-consed item t on),
      subst (λ z. delete_row item.id z ≡ done t) (sym e)
          (delete_row-consed item t on (first-none (has_id item.id) t.rows fresh)),
    )
