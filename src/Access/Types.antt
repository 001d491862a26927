-- ===== src/Access/Types.antt =====
-- internal/access/types.go and the data of service.go: libraries, permissions and errors.
use sudostream.Prelude.{
  [], Bool, false, if◌then◌else◌, inl, inr, List, none, not, Option, refl, some, true, ◌&&◌, ◌∷◌,
  ◌≡◌, ◌⊎◌,
}
use sudostream.Text.{Bytes, bytes_eq, codes, is_empty, trim_space}

-- LibraryType is a string in the source; `unset` is the empty one.
pub data LibraryType : Type 0 where
  film series music photos other unset : LibraryType

-- ParseLibraryType; `none` is ErrInvalidLibraryType.
unfoldable pub parse_library_type : Bytes → Option LibraryType
unfolding bytes_eq
parse_library_type raw =
    if bytes_eq raw (codes "film")
    then some film
    else if bytes_eq raw (codes "series")
    then some series
    else if bytes_eq raw (codes "music")
    then some music
    else if bytes_eq raw (codes "photos")
    then some photos
    else if bytes_eq raw (codes "other")
    then some other
    else none

pub record Library : Type 0 where
  pub id : Bytes
  pub slug : Bytes
  pub rel_path : Bytes
  pub name : Bytes
  pub type : LibraryType
  pub roots : List Bytes

pub record LibraryPermissions : Type 0 where
  pub create : Bool
  pub read : Bool
  pub update : Bool
  pub delete : Bool

-- LibraryPermissions.IsEmpty and HasAny.
unfoldable pub is_empty_permissions : LibraryPermissions → Bool
is_empty_permissions p = not p.create && not p.read && not p.update && not p.delete

unfoldable pub has_any : LibraryPermissions → Bool
unfolding is_empty_permissions
has_any p = not (is_empty_permissions p)

pub record GrantInput : Type 0 where
  pub library_id : Bytes
  pub permissions : LibraryPermissions

pub record UserGrantView : Type 0 where
  pub library : Library
  pub permissions : LibraryPermissions

-- RootPaths: the registered roots, or RelPath where there is none.
abbrev pub roots_or : Bytes → List Bytes → List Bytes
roots_or rel_path (r ∷ rs) = r ∷ rs
roots_or rel_path [] = if is_empty (trim_space rel_path) then [] else rel_path ∷ []

unfoldable pub root_paths : Library → List Bytes
root_paths l = roots_or l.rel_path l.roots

-- The errors of the package; `query_failed` is one that the database reports.
pub data Error : Type 0 where
  invalid_path unknown_library admin_grants_immutable invalid_library_name : Error
  invalid_library_patch invalid_library_type library_not_found invalid_library_root : Error
  library_root_conflict library_root_not_found library_slug_conflict query_failed : Error

-- What a call returns: a value, or the error that stands in its place.
pub data Result {ℓ} (T : Type ℓ) : Type ℓ where
  err : Error → Result T
  ok : T → Result T

pub Result-cases {ℓ} :
    {T : Type ℓ} (r : Result T) → ((t : T) × (r ≡ ok t)) ⊎ ((e : Error) × (r ≡ err e))
Result-cases (err e) = inr (e, refl)
Result-cases (ok t) = inl (t, refl)

-- An entry that has to be there.
abbrev pub or_fail {ℓ} : {T : Type ℓ} → Option T → Error → Result T
or_fail (some t) e = ok t
or_fail none e = err e

-- `if err != nil { return err }` between two calls.
infixl 5 ◌>>=◌
abbrev pub ◌>>=◌ {ℓ κ} : {T : Type ℓ} {U : Type κ} → Result T → (T → Result U) → Result U
err e >>= next = err e
ok t >>= next = next t

pub ok-eq {ℓ} : {T : Type ℓ} {t u : T} → ok t ≡ ok u → t ≡ u
ok-eq h = cc

-- Two calls that succeed succeed one after the other.
pub >>=-eq-ok {ℓ κ} :
    {T : Type ℓ} {U : Type κ} (first : Result T) (next : T → Result U) {u : U}
    → (first >>= next) ≡ ok u
    → (t : T) × (first ≡ ok t) × (next t ≡ ok u)
>>=-eq-ok (err e) next h = cc
>>=-eq-ok (ok t) next h = (t, refl, h)

pub if_err-eq-ok {ℓ} :
    {T : Type ℓ} (b : Bool) (e : Error) {r : Result T} {t : T}
    → (if b then err e else r) ≡ ok t
    → r ≡ ok t
if_err-eq-ok true e h = cc
if_err-eq-ok false e h = h
