-- ===== src/MediaFs/Resolve.antt =====
-- Where the paths of requests lead below the media root (internal/mediafs/service.go).
pub mod Within
pub mod Plain
use sudostream.Text.Laws.Prefix.{has_prefix-append}
use sudostream.Text.Laws.Equality.{bytes_eq_refl}
use sudostream.Text.Laws.Split.{join-append}
use sudostream.Text.Paths.{path_join, clean}
use sudostream.Text.Laws.Clean.{
  cleaned-join, split-join_of_IsProper, is_empty_of_ne, IsProper, cleaned,
}
use mathlib.Core.List.{List, append_assoc, append-nil}
use sudostream.MediaFs.{
  false, is_empty, true, path_join, trim_slash, slash, bytes_eq, clean_rooted, join, split,
  eval_plain, Evaluated, follow, FsError, is_within_root, rel_path_of, resolve, Service, target,
}
use sudostream.MediaFs.Os.{names_of, Disk, FilePath, os_path, within}
use sudostream.Prelude.{
  subst, ◌≢◌, sym, refl, ◌∙◌, arith, All-append, ap, ◌++◌, ◌≡◌, All, [], ◌∷◌, none,
}
use sudostream.Text.{trim_slash, bytes_eq, clean_rooted, join, split, Bytes}

pub names_of_of_IsProper : (segs : List Bytes) → All IsProper segs → names_of segs ≡ segs
names_of_of_IsProper [] h = refl
names_of_of_IsProper (x ∷ segs) h =
    rw (is_empty_of_ne x h.0.nonempty) (ap (◌∷◌ x) (names_of_of_IsProper segs h.1))

-- A clean absolute path on the disk is the list of its segments.
pub os_path_of_IsProper :
    (segs : List Bytes) → All IsProper segs → os_path (slash ∷ join slash segs) ≡ segs
unfolding os_path split join
os_path_of_IsProper [] h = refl
os_path_of_IsProper (x ∷ xs) h =
    rw (split-join_of_IsProper x xs h) (names_of_of_IsProper (x ∷ xs) h)

pub rel_path_of-join : (s : Bytes) → rel_path_of s ≡ join slash (cleaned s)
unfolding rel_path_of cleaned clean_rooted bytes_eq trim_slash
rel_path_of-join s = ground arith

clean_of_rooted :
    (segs : List Bytes)
    → All IsProper segs
    → clean (slash ∷ join slash segs) ≡ slash ∷ join slash segs
unfolding clean clean_rooted cleaned
clean_of_rooted segs h = ap (λ z. slash ∷ join slash z) (cleaned-join segs h)

pub join_nonempty : (x : Bytes) (xs : List Bytes) → x ≢ [] → is_empty (join slash (x ∷ xs)) ≡ false
unfolding join
join_nonempty [] xs h = absurd (h refl)
join_nonempty (c ∷ x) [] h = refl
join_nonempty (c ∷ x) (y ∷ xs) h = refl

module _ (r : Bytes) (rs : List Bytes) where
  abbrev pub root_of : Bytes
  root_of = slash ∷ join slash (r ∷ rs)

  abbrev pub service_of : Service
  service_of = record { root = root_of }

  abbrev pub full_of : List Bytes → Bytes
  full_of segs = slash ∷ join slash ((r ∷ rs) ++ segs)

  full_of-cons :
      (x : Bytes) (xs : List Bytes) → full_of (x ∷ xs) ≡ root_of ++ (slash ∷ join slash (x ∷ xs))
  full_of-cons x xs = ap (◌∷◌ slash) (join-append slash r rs x xs)

  pub is_within_root-full_of : (segs : List Bytes) → is_within_root root_of (full_of segs) ≡ true
  unfolding is_within_root
  is_within_root-full_of [] = rw (append-nil (r ∷ rs), bytes_eq_refl root_of) refl
  is_within_root-full_of (x ∷ xs) = ground (
    arith,
    full_of-cons x xs,
    has_prefix-append root_of (slash ∷ join slash (x ∷ xs)),
    has_prefix-append (root_of ++ (slash ∷ [])) (join slash (x ∷ xs)),
    append_assoc root_of (slash ∷ []) (join slash (x ∷ xs)),
  )

module _ (r : Bytes) (rs : List Bytes) (root_proper : All IsProper (r ∷ rs)) where
  pub path_join-root :
      (segs : List Bytes)
      → All IsProper segs
      → path_join (root_of r rs ∷ (join slash segs ∷ [])) ≡ full_of r rs segs
  unfolding path_join join
  path_join-root [] h =
      clean_of_rooted (r ∷ rs) root_proper
      ∙ ap (λ z. slash ∷ join slash z) (sym (append-nil (r ∷ rs)))
  path_join-root (x ∷ xs) h = rw (join_nonempty x xs h.0.nonempty) (
      subst (λ z. clean z ≡ full_of r rs (x ∷ xs)) (full_of-cons r rs x xs)
        (clean_of_rooted ((r ∷ rs) ++ (x ∷ xs))
          (All-append IsProper (r ∷ rs) (x ∷ xs) root_proper h)))
