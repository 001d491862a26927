-- ===== src/Trash/Purge/Expired.antt =====
-- PurgeExpired as a whole (internal/trash/service.go).
use sudostream.Text.Laws.Equality.{bytes_eq_refl}
use sudostream.Prelude.{
  sort_by-All, arith, Any-All, All-sort_by, ap, ◌+◌, sort_by, All-keep, Any-elim, or_zero, sym, inl,
  true, false, inr, subst, ◌⊎◌, done, ◌≡◌, Bool-cases, fail, Any, Option, All, Fallible, List, refl,
  ℕ, [], ◌∷◌, none,
}
use sudostream.MediaFs.{Service}
use sudostream.Text.{Bytes}
use sudostream.Trash.{then_world, Codecs, World, list, reconcile_disk, delete_forever}
use sudostream.Trash.Store.{query_failed, Item, Table, TrashError, has_id, list_rows, newer}
use sudostream.Trash.Purge.{
  Count, purge_items, is_expired, Settings, get_settings, purge_expired, over_list, counted,
}
use sudostream.Trash.Purge.Laws.{
  Holds, Lacks, Removal, delete_forever-Removal, purge_items-AllGone, purge_items-Holds,
}

-- An entry whose id the list lacks is not in the list.
absent_out :
    (Q : Item → Type 0) (ys xs : List Item)
    → ((y : Item) → Any (λ z. z ≡ y) xs → Any (λ z. z ≡ y) ys)
    → All (λ y. Q y ⊎ All (λ z. has_id y.id z ≡ false) ys) xs
    → All Q xs
absent_out Q ys [] f h = tt
absent_out Q ys (x ∷ xs) f h = (present h.0, absent_out Q ys xs (λ y a. f y (inr a)) h.1)
  where
    present : Q x ⊎ All (λ z. has_id x.id z ≡ false) ys → Q x
    present (inl q) = q
    present (inr lacks) = absurd (
        Any-elim (λ z. (z ≡ x) × (has_id x.id z ≡ false))
          (λ z b. cc (b.1, ap (has_id x.id) (b.0), bytes_eq_refl x.id)) ys
          (Any-All (λ z. z ≡ x) (λ z. has_id x.id z ≡ false) ys (f x (inl refl)) lacks))

list_rows-cases :
    (t : Table)
    → ((e : TrashError) × (list_rows t ≡ fail e)) ⊎ (list_rows t ≡ done (sort_by newer t.rows))
unfolding list_rows
list_rows-cases t = elim (Bool-cases t.online) [
  | inl on ↦ inr (ground arith)
  | inr off ↦ inl (query_failed, ground arith)
]

module _ (c : Codecs) (s : Service) where
  counted-All :
      (P : Item → Type 0) (id : Bytes) (n : ℕ) (w : World)
      (r : Fallible TrashError (Unit {0}) × World) (next : World → Count × World)
      → Removal id w r
      → All P w.table.rows
      → ((w' : World) → All P w'.table.rows → All P (((next w').1).table.rows))
      → All P (((counted c s n r next).1).table.rows)
  counted-All P id n w (fail e, w') next g h f = subst (λ (t : Table). All P t.rows) (sym g) h
  counted-All P id n w (done u, w') next g h f =
      f w' (subst (λ (t : Table). All P t.rows) (sym g) (All-keep P _ w.table.rows h))

  -- The loop only removes rows.
  purge_items-All :
      (P : Item → Type 0) (now days : ℕ) (items : List Item) (n : ℕ) (w : World)
      → All P w.table.rows
      → All P (((purge_items c s now days items n w).1).table.rows)
  unfolding purge_items
  purge_items-All P now days [] n w h = h
  purge_items-All P now days (item ∷ items) n w h = elim (Bool-cases (is_expired now days item)) [
    | inr f ↦ rw f (purge_items-All P now days items n w h)
    | inl t ↦ rw t (
        counted-All P item.id n w (delete_forever c s item.id w)
          (purge_items c s now days items (n + 1)) (delete_forever-Removal c s item.id w) h
          (λ w' h'. purge_items-All P now days items (n + 1) w' h'))
  ]

  -- What the run over the listing leaves.
  abbrev pub Purged : ℕ → ℕ → Table → Count × World → Type 0
  Purged now days t r =
      ((x : Item)
        → All (λ item. (is_expired now days item ≡ false) ⊎ (has_id item.id x ≡ false)) t.rows
        → Holds x t
        → Holds x ((r.1).table))
      × ((r.0).1 ≡ none → All (λ item. is_expired now days item ≡ false) ((r.1).table.rows))

  over_list-Purged :
      (now days : ℕ) (w : World)
      → Purged now days w.table (
          over_list c s
            (then_world (list_rows w.table) w λ items. (done items, w))
            (λ items w'. purge_items c s now days items 0 w'))
  over_list-Purged now days w = elim (list_rows-cases w.table) [
    | inl (e, g) ↦ rw g ((λ x st h. h), λ ok. absurd (cc))
    | inr g ↦
        let items = sort_by newer w.table.rows in
        let left = (purge_items c s now days items 0 w).1 in
        rw g (
          (λ x st h.
              purge_items-Holds c s now days items 0 w x (All-sort_by _ newer w.table.rows st) h),
          λ ok.
              absent_out (λ y. is_expired now days y ≡ false) left.table.rows left.table.rows
                (λ y a. a)
                (purge_items-All (λ y. (is_expired now days y ≡ false) ⊎ Lacks y.id left.table) now
                  days items 0 w
                  (sort_by-All _ newer w.table.rows
                    (purge_items-AllGone c s now days items 0 w ok))),
        )
  ]

  -- A purge that is due leaves, whatever fails on the way, every row whose id no expired item has;
  -- and where it reports no error, it leaves no expired row. The rows are those after info.json
  -- files without a row were recovered.
  pub purge_expired-Purged :
      (decode : Bytes → Option Settings) (value : Option Bytes) (now : ℕ) (w : World)
      {settings : Settings}
      → get_settings decode value ≡ done settings
      → settings.enabled ≡ true
      → Purged now
          (or_zero settings.retention_days)
          ((reconcile_disk c s now w).table)
          (purge_expired c s decode value now w)
  unfolding purge_expired list
  purge_expired-Purged decode value now w {settings} h on =
      rw (h, on) (over_list-Purged now (or_zero settings.retention_days) (reconcile_disk c s now w))
