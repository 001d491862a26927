-- ===== src/MediaFs/Os/Directories.antt =====
-- What os.MkdirAll leaves on the disk of internal/mediafs.
use mathlib.Core.List.{append_assoc}
use sudostream.Prelude.{
  ◌∙◌, arith, inr, Bool-cases, inl, sym, Option-cases, ap, done-eq, refl, subst, if◌then◌else◌,
  ◌++◌, ◌≡◌, [], ◌∷◌,
}
use sudostream.MediaFs.Os.{
  Bytes, false, done, true, some, Bool, dir, file, find, make_dirs, Node, FilePath, path_eq, within,
}
use sudostream.MediaFs.Os.Paths.{path_eq_iff, within-append}
use sudostream.MediaFs.Os.Views.{Entries}

-- All the paths from `at` down are directories.
abbrev pub DirsBelow : FilePath → FilePath → Entries → Type 0
DirsBelow at [] es = Unit
DirsBelow at (x ∷ rest) es =
    (find (at ++ (x ∷ [])) es ≡ some dir) × DirsBelow (at ++ (x ∷ [])) rest es

last_of : (at : FilePath) (x : Bytes) → (y : Bytes) × (q : FilePath) × (at ++ (x ∷ []) ≡ y ∷ q)
last_of [] x = (x, [], refl)
last_of (y ∷ at) x = (y, at ++ (x ∷ []), refl)

pub DirsBelow-map :
    (at rest : FilePath) (es es' : Entries)
    → ((y : Bytes) (q : FilePath)
        → within (y ∷ q) (at ++ rest) ≡ true
        → find (y ∷ q) es ≡ some dir
        → find (y ∷ q) es' ≡ some dir)
    → DirsBelow at rest es
    → DirsBelow at rest es'
DirsBelow-map at [] es es' f h = tt
DirsBelow-map at (x ∷ rest) es es' f h =
    let e = append_assoc at (x ∷ []) rest in
    let (y, q, last) = last_of at x in
    (
      subst (λ z. find z es' ≡ some dir) (sym last)
          (f y q
            (subst (λ z. within z (at ++ (x ∷ rest)) ≡ true) last
              (subst (λ z. within (at ++ (x ∷ [])) z ≡ true) e
                (within-append (at ++ (x ∷ [])) rest)))
            (subst (λ z. find z es ≡ some dir) last h.0)),
      DirsBelow-map (at ++ (x ∷ [])) rest es es'
          (λ y q w. f y q (subst (λ z. within (y ∷ q) z ≡ true) e w)) h.1,
    )

-- Nothing is made where all is there.
pub make_dirs_of_DirsBelow :
    (read_only : Bool) (at rest : FilePath) (es : Entries)
    → DirsBelow at rest es
    → make_dirs read_only at rest es ≡ done es
unfolding make_dirs
make_dirs_of_DirsBelow read_only at [] es h = refl
make_dirs_of_DirsBelow read_only at (x ∷ rest) es h =
    rw (h.0, make_dirs) (make_dirs_of_DirsBelow read_only (at ++ (x ∷ [])) rest es h.1)

find_new :
    (q p : FilePath) (es : Entries)
    → find q ((p, dir) ∷ es) ≡ (if path_eq p q then some dir else find q es)
unfolding find
find_new q p es = refl

-- What was there stays.
pub make_dirs-find_kept :
    (read_only : Bool) (at rest : FilePath) (es : Entries) (q : FilePath) {es' : Entries} {n : Node}
    → make_dirs read_only at rest es ≡ done es'
    → find q es ≡ some n
    → find q es' ≡ some n
unfolding make_dirs
make_dirs-find_kept read_only at [] es q {n = n} h g = subst (λ z. find q z ≡ some n) (done-eq h) g
make_dirs-find_kept read_only at (x ∷ rest) es q h g =
    elim (Option-cases (find (at ++ (x ∷ [])) es)) [
      | inl e ↦ elim (Bool-cases read_only) [
        | inl t ↦ absurd (cc (rw (e, t, make_dirs) at h))
        | inr f ↦
            make_dirs-find_kept read_only (at ++ (x ∷ [])) rest ((at ++ (x ∷ []), dir) ∷ es) q
              (rw (e, f, make_dirs) at h)
              (ground (
                arith,
                g,
                e,
                find_new q (at ++ (x ∷ [])) es,
                path_eq_iff (at ++ (x ∷ [])) q,
                ap (λ z. find z es) {x = at ++ (x ∷ [])} {y = q},
              ))
      ]
      | inr (dir, e) ↦
          make_dirs-find_kept read_only (at ++ (x ∷ [])) rest es q (rw (e, make_dirs) at h) g
      | inr (file b, e) ↦ absurd (cc (rw (e, make_dirs) at h))
    ]

-- What does not lead to the new directory is as it was.
pub make_dirs-find_apart :
    (read_only : Bool) (at rest : FilePath) (es : Entries) (q : FilePath) {es' : Entries}
    → make_dirs read_only at rest es ≡ done es'
    → within q (at ++ rest) ≡ false
    → find q es' ≡ find q es
unfolding make_dirs
make_dirs-find_apart read_only at [] es q h w = ap (find q) (sym (done-eq h))
make_dirs-find_apart read_only at (x ∷ rest) es q h w =
    let next = at ++ (x ∷ []) in
    let e = append_assoc at (x ∷ []) rest in
    let w' : within q (next ++ rest) ≡ false = subst (λ z. within q z ≡ false) (sym e) w in
    elim (Option-cases (find next es)) [
      | inl none_there ↦ elim (Bool-cases read_only) [
        | inl t ↦ absurd (cc (rw (none_there, t, make_dirs) at h))
        | inr f ↦
            make_dirs-find_apart read_only next rest ((next, dir) ∷ es) q
              (rw (none_there, f, make_dirs) at h) w'
            ∙ (find_new q next es
                ∙ ground (
                  arith,
                  path_eq_iff next q,
                  within-append next rest,
                  w',
                  ap (λ z. within z (next ++ rest)) {x = next} {y = q},
                ))
      ]
      | inr (dir, there) ↦
          make_dirs-find_apart read_only next rest es q (rw (there, make_dirs) at h) w'
      | inr (file b, there) ↦ absurd (cc (rw (there, make_dirs) at h))
    ]

pub DirsBelow→find :
    (at rest : FilePath) (x : Bytes) (q t : FilePath) (es : Entries)
    → DirsBelow at rest es
    → rest ≡ (x ∷ q) ++ t
    → find (at ++ (x ∷ q)) es ≡ some dir
DirsBelow→find at [] x q t es h e = absurd (cc)
DirsBelow→find at (y ∷ rest) x [] t es h e =
    subst (λ z. find (at ++ (z ∷ [])) es ≡ some dir) (cc) h.0
DirsBelow→find at (y ∷ rest) x (w ∷ q) t es h e =
    subst (λ z. find z es ≡ some dir) (append_assoc at (x ∷ []) (w ∷ q))
      (DirsBelow→find (at ++ (x ∷ [])) rest w q t es
        (subst (λ z. DirsBelow (at ++ (z ∷ [])) rest es) {x = y} {y = x} (cc) h.1) (cc))

find_head : (p : FilePath) (es : Entries) → find p ((p, dir) ∷ es) ≡ some dir
unfolding find
find_head p es = rw ((path_eq_iff p p).1 refl) refl

-- What os.MkdirAll was asked for is there.
pub make_dirs-DirsBelow :
    (read_only : Bool) (at rest : FilePath) (es : Entries) {es' : Entries}
    → make_dirs read_only at rest es ≡ done es'
    → DirsBelow at rest es'
unfolding make_dirs
make_dirs-DirsBelow read_only at [] es h = tt
make_dirs-DirsBelow read_only at (x ∷ rest) es h =
    let next = at ++ (x ∷ []) in
    elim (Option-cases (find next es)) [
      | inl none_there ↦ elim (Bool-cases read_only) [
        | inl t ↦ absurd (cc (rw (none_there, t, make_dirs) at h))
        | inr f ↦
            let h' = rw (none_there, f, make_dirs) at h in
            (
              make_dirs-find_kept read_only next rest ((next, dir) ∷ es) next h'
                  (find_head next es),
              make_dirs-DirsBelow read_only next rest ((next, dir) ∷ es) h',
            )
      ]
      | inr (dir, there) ↦
          let h' = rw (there, make_dirs) at h in
          (
            make_dirs-find_kept read_only next rest es next h' there,
            make_dirs-DirsBelow read_only next rest es h',
          )
      | inr (file b, there) ↦ absurd (cc (rw (there, make_dirs) at h))
    ]
