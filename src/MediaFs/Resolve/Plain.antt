-- ===== src/MediaFs/Resolve/Plain.antt =====
-- resolve on a disk without symbolic links, and on any disk (internal/mediafs/service.go).
use sudostream.Text.Laws.Clean.{cleaned-IsProper}
use sudostream.MediaFs.{
  stat, path_join, false, trim_slash, slash, contains, path_unescape, join, some, true, done, List,
  Option, eval_plain, Evaluated, resolve, resolve_unescaped, follow, within_or_error, Service,
  target, missing, eval_failed, is_within_root, rel_path_of,
}
use sudostream.MediaFs.Os.{Disk, os_path, within}
use sudostream.MediaFs.Resolve.{
  service_of, arith, cleaned-join, sym, ap, cleaned, subst, IsProper, All, full_of,
  rel_path_of-join, path_join-root, is_within_root-full_of,
}
use sudostream.MediaFs.Resolve.Within.{is_within_root→within}
use sudostream.Prelude.{Option-cases, ◌∙◌, refl, inr, done-eq, inl, Bool-cases, ◌≡◌, [], ◌∷◌, none}
use sudostream.Text.{join, trim_slash, Bytes}

within_or_error-done :
    (s : Service) (rel_path resolved full rel : Bytes)
    → within_or_error s rel_path resolved ≡ done (full, rel)
    → (is_within_root s.root full ≡ true) × (rel ≡ rel_path)
within_or_error-done s rel_path resolved full rel h =
    elim (Bool-cases (is_within_root s.root resolved)) [
      | inl t ↦
          let e = done-eq (rw t at h) in
          (
            subst (λ z. is_within_root s.root z ≡ true) (ap (λ (p : Bytes × Bytes). p.0) e) t,
            sym (ap (λ (p : Bytes × Bytes). p.1) e),
          )
      | inr f ↦ absurd (cc (rw f at h))
    ]

follow-done :
    (s : Service) (rel_path candidate full rel : Bytes) (e : Evaluated)
    → follow s rel_path candidate e ≡ done (full, rel)
    → (is_within_root s.root full ≡ true) × (rel ≡ rel_path)
follow-done s rel_path candidate full rel (target r) h =
    within_or_error-done s rel_path r full rel h
follow-done s rel_path candidate full rel missing h =
    within_or_error-done s rel_path candidate full rel h
follow-done s rel_path candidate full rel (eval_failed e) h = absurd (cc)

resolve_unescaped-done :
    (eval : Bytes → Evaluated) (s : Service) (u : Option Bytes) (full rel : Bytes)
    → resolve_unescaped eval s u ≡ done (full, rel)
    → (value : Bytes) × (u ≡ some value)
      × (is_within_root s.root full ≡ true)
      × (rel ≡ rel_path_of value)
resolve_unescaped-done eval s none full rel h = absurd (cc)
resolve_unescaped-done eval s (some value) full rel h =
    elim (Bool-cases (contains value (0 ∷ []))) [
      | inl t ↦ absurd (cc (rw t at h))
      | inr nul_free ↦
          elim (Bool-cases
            (is_within_root s.root (path_join (s.root ∷ (rel_path_of value ∷ []))))) [
              | inr f ↦ absurd (cc (rw (nul_free, f) at h))
              | inl t ↦
                  let (w, e) =
                    follow-done s (rel_path_of value) _ full rel _ (rw (nul_free, t) at h) in
                  (value, refl, w, e)
            ]
    ]

-- Whatever symbolic links there are, a path that resolves lies below the media root by whole
-- names, and the relative path is made of proper names only.
pub resolve-within :
    (eval : Bytes → Evaluated) (s : Service) (raw : Bytes) {full rel : Bytes}
    → resolve eval s raw ≡ done (full, rel)
    → (within (os_path s.root) (os_path full) ≡ true)
      × ((segs : List Bytes) × All IsProper segs × (rel ≡ join slash segs))
unfolding resolve
resolve-within eval s raw {full} {rel} h =
    let (value, u, w, e) =
      resolve_unescaped-done eval s (path_unescape (trim_slash raw)) full rel h in
    (
      is_within_root→within s.root full w,
      (cleaned value, cleaned-IsProper value, e ∙ rel_path_of-join value),
    )

follow-plain :
    (d : Disk) (s : Service) (rel_path candidate : Bytes)
    → follow s rel_path candidate (eval_plain d candidate) ≡ within_or_error s rel_path candidate
unfolding eval_plain
follow-plain d s rel_path candidate = elim (Option-cases (stat d (os_path candidate))) [
  | inl e ↦ rw (e, eval_plain) refl
  | inr (n, e) ↦ rw (e, eval_plain) refl
]

pub trim_slash-join :
    (segs : List Bytes) → All IsProper segs → trim_slash (join slash segs) ≡ join slash segs
unfolding trim_slash join
trim_slash-join [] h = refl
trim_slash-join ([] ∷ xs) h = absurd (h.0.nonempty refl)
trim_slash-join ((c ∷ x) ∷ []) h = ground (arith, h.0.slash_free.0)
trim_slash-join ((c ∷ x) ∷ (y ∷ ys)) h = ground (arith, h.0.slash_free.0)

module _ (r : Bytes) (rs : List Bytes) (root_proper : All IsProper (r ∷ rs)) (d : Disk) where
  pub resolve_unescaped-some :
      (value : Bytes)
      → contains value (0 ∷ []) ≡ false
      → resolve_unescaped (eval_plain d) (service_of r rs) (some value)
        ≡ done (full_of r rs (cleaned value), join slash (cleaned value))
  resolve_unescaped-some value n =
      rw
        (
          n,
          rel_path_of-join value,
          path_join-root r rs root_proper (cleaned value) (cleaned-IsProper value),
          is_within_root-full_of r rs (cleaned value),
          follow-plain d (service_of r rs) (join slash (cleaned value))
              (full_of r rs (cleaned value)),
          is_within_root-full_of r rs (cleaned value),
        )
        refl

  -- On a disk without symbolic links, the path on the disk is the root's with the names after it.
  pub resolve-done_plain :
      (raw : Bytes) {full rel : Bytes}
      → resolve (eval_plain d) (service_of r rs) raw ≡ done (full, rel)
      → (segs : List Bytes) × All IsProper segs
        × (rel ≡ join slash segs)
        × (full ≡ full_of r rs segs)
  unfolding resolve
  resolve-done_plain raw {full} {rel} h = elim (Option-cases (path_unescape (trim_slash raw))) [
    | inl e ↦ absurd (cc (rw e at h))
    | inr (value, e) ↦ elim (Bool-cases (contains value (0 ∷ []))) [
      | inl t ↦ absurd (cc (rw (e, t) at h))
      | inr n ↦
          let q = done-eq (sym (resolve_unescaped-some value n) ∙ (rw e at h)) in
          (
            cleaned value,
            cleaned-IsProper value,
            sym (ap (λ (p : Bytes × Bytes). p.1) q),
            sym (ap (λ (p : Bytes × Bytes). p.0) q),
          )
    ]
  ]

  pub resolve_of_plain :
      (segs : List Bytes)
      → All IsProper segs
      → path_unescape (join slash segs) ≡ some (join slash segs)
      → contains (join slash segs) (0 ∷ []) ≡ false
      → resolve (eval_plain d) (service_of r rs) (join slash segs)
        ≡ done (full_of r rs segs, join slash segs)
  unfolding resolve
  resolve_of_plain segs h u n =
      rw
        (trim_slash-join segs h, u, resolve_unescaped-some (join slash segs) n, cleaned-join segs h)
        refl
