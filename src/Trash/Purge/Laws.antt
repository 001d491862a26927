-- ===== src/Trash/Purge/Laws.antt =====
-- What emptying and purging the recycle bin leave (internal/trash/service.go).
use sudostream.Text.Laws.Equality.{bytes_eq→eq}
use sudostream.Prelude.{
  All-keep_test, true, ap, All-map, Any-keep, refl, first-test, ◌%◌, ◌+◌, sym, subst, first, ◌≤◌,
  All-keep, false, All, Any, List, Fallible-cases, Fallible, Option-cases, ◌<◌, ℕ, arith, inr, inl,
  Bool-cases, done, ◌⊎◌, fail, not, ◌≡◌, keep, [], ◌∷◌, none,
}
use sudostream.MediaFs.{FsError, Service}
use sudostream.MediaFs.Trash.{remove_trash_item}
use sudostream.Text.{Bytes}
use sudostream.Trash.{Disk, Codecs, World, delete_forever, then_media, then_table}
use sudostream.Trash.Store.{
  query_failed, Item, Table, TrashError, delete_row, get, has_id, with_rows,
}
use sudostream.Trash.Purge.{Count, purge_items, counted, is_expired, next_utc_midnight, day}

-- The next midnight is a midnight after `now`, by no more than a day.
pub next_utc_midnight_lem :
    (now : ℕ)
    → (now < next_utc_midnight now)
      × (next_utc_midnight now ≤ now + day)
      × (next_utc_midnight now % day ≡ 0)
unfolding next_utc_midnight
next_utc_midnight_lem now = omega arith

-- What a deletion makes of the rows: those with the id go, or none.
abbrev pub without : Bytes → Table → Table
without id t = with_rows t (keep (λ x. not (has_id id x)) t.rows)

delete_row-cases :
    (id : Bytes) (t : Table)
    → ((e : TrashError) × (delete_row id t ≡ fail e)) ⊎ (delete_row id t ≡ done (without id t))
unfolding delete_row
delete_row-cases id t = elim (Bool-cases t.online) [
  | inl h ↦ inr (ground arith)
  | inr h ↦ inl (query_failed, ground arith)
]

get-has_id : (id : Bytes) (t : Table) {item : Item} → get id t ≡ done item → item.id ≡ id
unfolding get
get-has_id id t {item} h = elim (Option-cases (first (has_id id) t.rows)) [
  | inl e ↦ absurd (ground arith)
  | inr (x, e) ↦
      let same : x ≡ item = ground arith in
      subst (λ (z : Item). z.id ≡ id) same (bytes_eq→eq x.id id (first-test (has_id id) t.rows e))
]

-- A deletion from the bin fails and leaves the table, or removes the rows of its id.
abbrev pub Removal : Bytes → World → Fallible TrashError (Unit {0}) × World → Type 0
Removal id w (fail e, w') = w'.table ≡ w.table
Removal id w (done u, w') = w'.table ≡ without id w.table

after_media :
    (s : Service) (id : Bytes) (w : World) (r : Fallible FsError (Unit {0}) × Disk)
    → Removal id w (
        then_media r w
          λ u removed. then_table (delete_row id w.table) removed λ left. (done tt, left))
after_media s id w (fail e, d) = refl
after_media s id w (done u, d) = elim (delete_row-cases id w.table) [
  | inl (e, g) ↦ rw g refl
  | inr g ↦ rw g refl
]

pub delete_forever-Removal :
    (c : Codecs) (s : Service) (id : Bytes) (w : World) → Removal id w (delete_forever c s id w)
unfolding delete_forever
delete_forever-Removal c s id w = elim (Fallible-cases (get id w.table)) [
  | inr (e, g) ↦ rw g refl
  | inl (item, g) ↦ rw g (
      subst
        (λ z. Removal id w (
          then_media (remove_trash_item s z w.disk) w
            λ u removed. then_table (delete_row z w.table) removed λ left. (done tt, left)))
        (sym (get-has_id id w.table g)) (after_media s id w (remove_trash_item s id w.disk)))
]

-- What the loop of PurgeExpired promises of the rows: one whose id no expired item of the list has
-- stays; and where no error ends the loop, no row has the id of an expired item.
abbrev pub Stays : ℕ → ℕ → List Item → Item → Type 0
Stays now days items x =
    All (λ item. (is_expired now days item ≡ false) ⊎ (has_id item.id x ≡ false)) items

abbrev pub Holds : Item → Table → Type 0
Holds x t = Any (λ y. y ≡ x) t.rows

abbrev pub Lacks : Bytes → Table → Type 0
Lacks id t = All (λ y. has_id id y ≡ false) t.rows

without-Holds :
    (id : Bytes) (x : Item) (t : Table) → has_id id x ≡ false → Holds x t → Holds x (without id t)
without-Holds id x t n h =
    Any-keep (λ y. y ≡ x) (λ y. not (has_id id y)) (λ y e. ground (arith, n, ap (has_id id) e))
      t.rows h

without-Lacks : (id : Bytes) (t : Table) → Lacks id (without id t)
without-Lacks id t =
    All-map (λ y. not (has_id id y) ≡ true) (λ y. has_id id y ≡ false) (λ y h. ground arith) _
      (All-keep_test (λ y. not (has_id id y)) t.rows)

without-Lacks_kept : (id other : Bytes) (t : Table) → Lacks other t → Lacks other (without id t)
without-Lacks_kept id other t h = All-keep _ _ t.rows h

module _ (c : Codecs) (s : Service) (now days : ℕ) where
  counted-Holds :
      (id : Bytes) (x : Item) (n : ℕ) (w : World) (r : Fallible TrashError (Unit {0}) × World)
      (next : World → Count × World)
      → Removal id w r
      → has_id id x ≡ false
      → Holds x w.table
      → ((w' : World) → Holds x w'.table → Holds x ((next w').1).table)
      → Holds x ((counted c s n r next).1).table
  counted-Holds id x n w (fail e, w') next g ne h f = subst (Holds x) (sym g) h
  counted-Holds id x n w (done u, w') next g ne h f =
      f w' (subst (Holds x) (sym g) (without-Holds id x w.table ne h))

  -- A row whose id no expired item of the list has stays, whatever fails on the way.
  pub purge_items-Holds :
      (items : List Item) (n : ℕ) (w : World) (x : Item)
      → Stays now days items x
      → Holds x w.table
      → Holds x ((purge_items c s now days items n w).1).table
  unfolding purge_items
  purge_items-Holds [] n w x st h = h
  purge_items-Holds (item ∷ items) n w x st h = elim (Bool-cases (is_expired now days item)) [
    | inr f ↦ rw f (purge_items-Holds items n w x st.1 h)
    | inl t ↦ rw t (
        counted-Holds item.id x n w (delete_forever c s item.id w)
          (purge_items c s now days items (n + 1)) (delete_forever-Removal c s item.id w)
          (ground (arith, st.0)) h (λ w' h'. purge_items-Holds items (n + 1) w' x st.1 h'))
  ]

  -- What the table lacks it lacks after the loop.
  counted-Lacks :
      (id other : Bytes) (n : ℕ) (w : World) (r : Fallible TrashError (Unit {0}) × World)
      (next : World → Count × World)
      → Removal id w r
      → Lacks other w.table
      → ((w' : World) → Lacks other w'.table → Lacks other ((next w').1).table)
      → Lacks other ((counted c s n r next).1).table
  counted-Lacks id other n w (fail e, w') next g h f = subst (Lacks other) (sym g) h
  counted-Lacks id other n w (done u, w') next g h f =
      f w' (subst (Lacks other) (sym g) (without-Lacks_kept id other w.table h))

  purge_items-Lacks :
      (items : List Item) (n : ℕ) (w : World) (other : Bytes)
      → Lacks other w.table
      → Lacks other ((purge_items c s now days items n w).1).table
  unfolding purge_items
  purge_items-Lacks [] n w other h = h
  purge_items-Lacks (item ∷ items) n w other h = elim (Bool-cases (is_expired now days item)) [
    | inr f ↦ rw f (purge_items-Lacks items n w other h)
    | inl t ↦ rw t (
        counted-Lacks item.id other n w (delete_forever c s item.id w)
          (purge_items c s now days items (n + 1)) (delete_forever-Removal c s item.id w) h
          (λ w' h'. purge_items-Lacks items (n + 1) w' other h'))
  ]

  abbrev pub AllGone : List Item → Table → Type 0
  AllGone items t = All (λ item. (is_expired now days item ≡ false) ⊎ Lacks item.id t) items

  abbrev pub Succeeds : Count × World → Type 0
  Succeeds r = (r.0).1 ≡ none

  counted-AllGone :
      (item : Item) (items : List Item) (n : ℕ) (w : World)
      (r : Fallible TrashError (Unit {0}) × World) (next : World → Count × World)
      → Removal item.id w r
      → Succeeds (counted c s n r next)
      → ((w' : World) → Succeeds (next w') → AllGone items ((next w').1).table)
      → ((w' : World) → Lacks item.id w'.table → Lacks item.id ((next w').1).table)
      → AllGone (item ∷ items) ((counted c s n r next).1).table
  counted-AllGone item items n w (fail e, w') next g ok f l = absurd (cc)
  counted-AllGone item items n w (done u, w') next g ok f l =
      (inr (l w' (subst (Lacks item.id) (sym g) (without-Lacks item.id w.table))), f w' ok)

  -- Where no error ends the loop, no row has the id of an expired item.
  pub purge_items-AllGone :
      (items : List Item) (n : ℕ) (w : World)
      → Succeeds (purge_items c s now days items n w)
      → AllGone items ((purge_items c s now days items n w).1).table
  unfolding purge_items
  purge_items-AllGone [] n w ok = tt
  purge_items-AllGone (item ∷ items) n w ok = elim (Bool-cases (is_expired now days item)) [
    | inr f ↦
        let e : purge_items c s now days (item ∷ items) n w ≡ purge_items c s now days items n w =
          rw f refl in
        subst (λ r. AllGone (item ∷ items) ((r.1).table)) (sym e)
          (inl f, purge_items-AllGone items n w (subst (λ r. Succeeds r) e ok))
    | inl t ↦
        let e : purge_items c s now days (item ∷ items) n w
            ≡ counted c s n (delete_forever c s item.id w)
                (purge_items c s now days items (n + 1)) =
          rw t refl in
        subst (λ r. AllGone (item ∷ items) ((r.1).table)) (sym e)
          (counted-AllGone item items n w (delete_forever c s item.id w)
            (purge_items c s now days items (n + 1)) (delete_forever-Removal c s item.id w)
            (subst (λ r. Succeeds r) e ok) (λ w' ok'. purge_items-AllGone items (n + 1) w' ok')
            (λ w' h'. purge_items-Lacks items (n + 1) w' item.id h'))
  ]
