-- ===== src/Media/Page/Walk.antt =====
-- Pages put one after the other give the list back (internal/mediafs/page.go).
use sudostream.Prelude.{
  refl, length-take, take-append-drop, length-drop, ◌∙◌, take_of_min, inr, drop-drop, leb→le, ap,
  inl, drop_of_short, false, zero, sym, Bool-cases, arith, ◌++◌, ◌+◌, ◌*◌, ◌≤◌, ◌≡◌,
}
use sudostream.Media.Page.{
  floor_offset, negsuc, default_limit, leb, cap_limit, ltb, or_zero, drop, ℤ, pos, take, suc,
  length, [], List, ℕ, PageOpts, slice_page, normalize_page_opts, slice_normalized, max_page_limit,
}

-- What a client collects that asks for page after page.
abbrev pub walk {ℓ} : {A : Type ℓ} → ℕ → ℕ → ℕ → List A → List A
walk zero limit offset items = []
walk (suc rounds) limit offset items =
    (slice_page items (record { limit = pos limit; offset = pos offset })).0
    ++ walk rounds limit (offset + limit) items

module _ {ℓ} {A : Type ℓ} where
  slice_normalized-take :
      (items : List A) (limit offset : ℕ)
      → slice_normalized items limit offset ≡ take limit (drop offset items)
  slice_normalized-take items limit offset = elim (Bool-cases (leb (length items) offset)) [
    | inl beyond ↦
        rw (beyond, drop_of_short offset items (leb→le (length items) offset beyond))
          (sym (take-nil limit))
    | inr within ↦
        rw within
          (take_of_min _ limit (drop offset items) (rw (length-drop offset items) (ground arith)))
  ]
    where
      take-nil : (n : ℕ) → take {A = A} n [] ≡ []
      take-nil zero = refl
      take-nil (suc n) = refl

  -- A limit from 1 to the maximum is taken as it is.
  slice_page-take :
      (items : List A) (limit offset : ℕ)
      → 1 ≤ limit
      → limit ≤ max_page_limit
      → (slice_page items (record { limit = pos limit; offset = pos offset })).0
        ≡ take limit (drop offset items)
  unfolding slice_page normalize_page_opts
  slice_page-take items zero offset h k = absurd (omega arith)
  slice_page-take items (suc n) offset h k =
      let small : ltb max_page_limit (suc n) ≡ false = ground arith in
      rw small (slice_normalized-take items (suc n) offset)

  walk_from :
      (items : List A) (rounds limit offset : ℕ)
      → 1 ≤ limit
      → limit ≤ max_page_limit
      → length items ≤ offset + rounds * limit
      → walk rounds limit offset items ≡ drop offset items
  walk_from items zero limit offset h k enough = sym (drop_of_short offset items (omega arith))
  walk_from items (suc rounds) limit offset h k enough =
      rw
        (
          slice_page-take items limit offset h k,
          walk_from items rounds limit (offset + limit) h k (omega arith),
        )
        (ap (λ ys. take limit (drop offset items) ++ ys) (sym (drop-drop limit offset items))
          ∙ take-append-drop limit (drop offset items))

  -- A client that asks for page after page from the start, with a limit from 1 to the maximum, and
  -- for enough pages for the whole list, gets every item once and in order.
  pub walk_lem :
      (items : List A) (rounds limit : ℕ)
      → 1 ≤ limit
      → limit ≤ max_page_limit
      → length items ≤ rounds * limit
      → walk rounds limit 0 items ≡ items
  walk_lem items rounds limit h k enough = walk_from items rounds limit 0 h k (omega arith)

  -- Whatever limit and offset a request gives, a page has at most the maximal number of items, and
  -- its meta data give the length of the whole list.
  pub slice_page-length :
      (items : List A) (opts : PageOpts)
      → (length (slice_page items opts).0 ≤ max_page_limit)
        × ((slice_page items opts).1.total ≡ length items)
  unfolding slice_page normalize_page_opts
  slice_page-length items opts = (
    rw
        (
          slice_normalized-take items (or_zero (cap_limit (default_limit opts.limit)))
              (or_zero (floor_offset opts.offset)),
          length-take (or_zero (cap_limit (default_limit opts.limit)))
              (drop (or_zero (floor_offset opts.offset)) items),
        )
        (omega (arith, capped opts.limit)),
    refl,
  )
    where
      capped : (n : ℤ) → or_zero (cap_limit (default_limit n)) ≤ max_page_limit
      capped (negsuc n) = omega arith
      capped (pos zero) = omega arith
      capped (pos (suc n)) = elim (Bool-cases (ltb max_page_limit (suc n))) [
        | inl big ↦ rw big (omega arith)
        | inr small ↦ rw small (ground arith)
      ]
