-- ===== src/MediaFs/Trash/Moved.antt =====
-- What MoveToTrash has done where it succeeds (internal/mediafs/trash.go).
use sudostream.Text.Laws.Decide.{free_of→IsLiteral, IsLiteral-append, is_proper→IsProper, IsLiteral}
use sudostream.Text.Laws.Clean.{IsProper}
use mathlib.Core.List.{List}
use sudostream.Prelude.{◌++◌, refl, arith, ap, ◌≢◌, ◌≡◌, [], ◌∷◌}
use sudostream.Text.{bytes_eq, trim_slash, has_prefix, join, Bytes}
use sudostream.MediaFs.{
  true, bytes_eq, fail, false, done, trim_slash, slash, has_prefix, join, Fallible, FsError,
}
use sudostream.MediaFs.Os.{Disk, OsError}
use sudostream.MediaFs.Trash.{checked, OnDisk, then_on, trash_dir_name, is_trash_rel_path}

pub checked-done :
    {S : Type 0} {T : Type 0} (r : Fallible FsError S) (d : Disk) (next : S → OnDisk T) {t : T}
    {d' : Disk}
    → checked r d next ≡ (done t, d')
    → (v : S) × (r ≡ done v) × (next v ≡ (done t, d'))
checked-done (fail e) d next h = absurd (cc (ap (λ (p : OnDisk _). p.0) h))
checked-done (done v) d next h = (v, refl, h)

pub then_on-done :
    {T : Type 0} (r : Fallible OsError Disk) (wrap : OsError → FsError) (d : Disk)
    (next : Disk → OnDisk T) {t : T} {d' : Disk}
    → then_on r wrap d next ≡ (done t, d')
    → (d1 : Disk) × (r ≡ done d1) × (next d1 ≡ (done t, d'))
then_on-done (fail e) wrap d next h = absurd (cc (ap (λ (p : OnDisk _). p.0) h))
then_on-done (done d1) wrap d next h = (d1, refl, h)

pub trash-IsProper : IsProper trash_dir_name
trash-IsProper = unfold bytes_eq in is_proper→IsProper trash_dir_name refl

pub trash_rel-IsLiteral :
    (id rel : Bytes)
    → IsLiteral id
    → IsLiteral rel
    → IsLiteral (join slash (trash_dir_name ∷ (id ∷ (rel ∷ []))))
unfolding join
trash_rel-IsLiteral id rel h k =
    IsLiteral-append (trash_dir_name ++ (slash ∷ [])) (id ++ (slash ∷ rel))
      (free_of→IsLiteral (trash_dir_name ++ (slash ∷ [])) refl)
      (IsLiteral-append id (slash ∷ rel) h ((λ e. omega arith, λ e. omega arith), k))

pub is_trash_rel_path-join :
    (xs : List Bytes) → is_trash_rel_path (join slash (trash_dir_name ∷ xs)) ≡ true
unfolding is_trash_rel_path join trim_slash has_prefix bytes_eq
is_trash_rel_path-join [] = refl
is_trash_rel_path-join (x ∷ xs) = refl

-- A path whose first name is not .trash does not lead into it.
pub name_of_allowed :
    (x : Bytes) (xs : List Bytes)
    → is_trash_rel_path (join slash (x ∷ xs)) ≡ false
    → x ≢ trash_dir_name
name_of_allowed x xs h e =
    cc (is_trash_rel_path-join xs, ap (λ z. is_trash_rel_path (join slash (z ∷ xs))) e)
