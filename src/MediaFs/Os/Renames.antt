-- ===== src/MediaFs/Os/Renames.antt =====
-- Where os.MkdirAll and os.Rename succeed, on the disk of internal/mediafs.
use sudostream.MediaFs.Os.RoundTrip.{find-drop_within_apart}
use sudostream.Prelude.{
  ap, ◌∙◌, ◌||◌, Bool-cases, ◌⊎◌, refl, Option-cases, done-eq, sym, >>=-done, inr, arith, inl, ◌≡◌,
  [], ◌∷◌,
}
use sudostream.MediaFs.Os.{
  removed, Option, first_stuck, true, write_denied, os_failed, not, is_dir, file, fail, OsError,
  Bytes, write_file, remove_all, none, false, some, done, Disk, dir, rename, mkdir_all, make_dirs,
  FilePath, Node, stat, parent, with_entries, relocate, drop_within, within,
}
use sudostream.MediaFs.Os.Views.{Entries}

pub mkdir_all-done :
    (p : FilePath) (d : Disk) {made : Disk}
    → mkdir_all p d ≡ done made
    → (es : Entries) × (make_dirs d.read_only [] p d.entries ≡ done es) × (made ≡ with_entries d es)
unfolding mkdir_all
mkdir_all-done p d h =
    let (es, e, g) =
      >>=-done (make_dirs d.read_only [] p d.entries) (λ es. done (with_entries d es)) h in
    (es, e, sym (done-eq g))

pub rename-done :
    (source target : FilePath) (d : Disk) {left : Disk}
    → rename source target d ≡ done left
    → (d.read_only ≡ false)
      × (within source target ≡ false)
      × (left ≡ with_entries d (relocate source target (drop_within target d.entries)))
unfolding rename
rename-done source target d h = ground arith

pub rename_of_free :
    (source target : FilePath) (d : Disk) {n : Node}
    → stat d source ≡ some n
    → d.read_only ≡ false
    → within source target ≡ false
    → stat d (parent target) ≡ some dir
    → stat d target ≡ none
    → rename source target d
      ≡ done (with_entries d (relocate source target (drop_within target d.entries)))
unfolding rename
rename_of_free source target d a b c e f = ground arith

-- Everything at or below `p` can be removed.
abbrev pub IsLoose : FilePath → Disk → Type 0
IsLoose p d = (q : FilePath) → within p q ≡ true → d.stuck q ≡ none

first_stuck-none :
    (p : FilePath) (stuck : FilePath → Option OsError) (es : Entries)
    → ((q : FilePath) → within p q ≡ true → stuck q ≡ none)
    → first_stuck p stuck es ≡ none
unfolding first_stuck
first_stuck-none p stuck [] loose = refl
first_stuck-none p stuck ((k, n) ∷ es) loose = elim (Bool-cases (within p k)) [
  | inl t ↦ rw (t, loose k t) (first_stuck-none p stuck es loose)
  | inr f ↦ rw f (first_stuck-none p stuck es loose)
]

pub remove_all-removed :
    (p : FilePath) (d : Disk) {n : Node}
    → stat d p ≡ some n
    → remove_all p d ≡ removed p d d.read_only (first_stuck p d.stuck d.entries)
unfolding remove_all
remove_all-removed p d e = rw (e, remove_all) refl

-- Where the disk can be written and all can be removed, os.RemoveAll succeeds and leaves the rest as
-- it was.
pub remove_all-apart :
    (p : FilePath) (d : Disk)
    → d.read_only ≡ false
    → IsLoose p d
    → (left : Disk) × (remove_all p d ≡ (done tt, left))
      × ((q : FilePath) → within p q ≡ false → stat left q ≡ stat d q)
unfolding remove_all
remove_all-apart p d w loose = elim (Option-cases (stat d p)) [
  | inl e ↦ (d, rw (e, remove_all) refl, λ q h. refl)
  | inr (n, e) ↦ (
    with_entries d (drop_within p d.entries),
    remove_all-removed p d e
        ∙ ap (λ b. removed p d b (first_stuck p d.stuck d.entries)) w
        ∙ ap (removed p d false) (first_stuck-none p d.stuck d.entries loose),
    λ q h. stat_drop q h,
  )
]
  where
    stat_drop :
        (q : FilePath)
        → within p q ≡ false
        → stat (with_entries d (drop_within p d.entries)) q ≡ stat d q
    stat_drop [] h = unfold stat in refl
    stat_drop (x ∷ q) h = unfold stat in find-drop_within_apart (x ∷ q) p d.entries h

pub write_file-cases :
    (p : FilePath) (content : Bytes) (d : Disk)
    → ((e : OsError) × (write_file p content d ≡ fail e))
      ⊎ (write_file p content d ≡ done (with_entries d ((p, file content) ∷ d.entries)))
unfolding write_file
write_file-cases p content d =
    elim (Bool-cases (is_dir (stat d p) || not (is_dir (stat d (parent p))))) [
      | inl t ↦ inl (os_failed, rw (t, write_file) refl)
      | inr f ↦ elim (Bool-cases d.read_only) [
        | inl ro ↦ inl (write_denied, ground arith)
        | inr rw_ ↦ inr (ground arith)
      ]
    ]
