-- ===== src/Access/Tests/Samples.antt =====
-- A small registry, and an operator LIKE for it.
use sudostream.Access.Service.{plain_user, PublicUser}
use sudostream.Access.Store.{Database, GrantRow, LibraryRow, RootRow, Server}
use sudostream.Access.Store.Like.{LikeLaws}
use sudostream.Access.Types.{film, Library, LibraryPermissions}
use sudostream.Prelude.{[], arith, Bool, false, if◌then◌else◌, refl, true, ◌&&◌, ◌==◌, ◌∷◌, ◌≡◌}
use sudostream.Text.{Bytes, codes, is_empty}

-- LIKE for patterns whose only `%` is the last character.
unfoldable pub sample_like : Bytes → Bytes → Bool
sample_like [] [] = true
sample_like (c ∷ s) [] = false
sample_like [] (d ∷ p) = d == b'%' && is_empty p
sample_like (c ∷ s) (d ∷ p) =
    let rest = sample_like s p in
    if d == b'%' then is_empty p else if d == b'_' then rest else c == d && rest

pub sample_like-LikeLaws : LikeLaws sample_like
unfolding sample_like
sample_like-LikeLaws = record {
  same = λ c s p h. ground (arith, h.not_percent, h.not_underscore);
  other = λ c d s p h n. ground (arith, h.not_percent, h.not_underscore, n);
  short = λ d p h. ground (arith, h.not_percent);
  any_one = λ c s p h. ground arith;
  any_rest = λ s. any_rest s;
}
  where
    any_rest : (s : Bytes) → sample_like s (b'%' ∷ []) ≡ true
    any_rest [] = refl
    any_rest (c ∷ s) = refl

abbrev pub server : Server
server = record { collate = λ a b. true; like = sample_like }

abbrev pub read_only : LibraryPermissions
read_only = record { create = false; read = true; update = false; delete = false }

abbrev pub films_row : LibraryRow
films_row = record { id = codes "1"; slug = codes "films"; name = codes "Films"; type = film }

abbrev pub films_root : RootRow
films_root = record { library_id = codes "1"; rel_path = codes "films" }

abbrev pub films_grant : GrantRow
films_grant = record { user_id = codes "u"; library_id = codes "1"; permissions = read_only }

abbrev pub db : Database
db = record {
  libraries = films_row ∷ [];
  roots = films_root ∷ [];
  grants = films_grant ∷ [];
  media_metadata = [];
  watch_state = [];
  favorites = [];
}

abbrev pub viewer : PublicUser
viewer = record { id = codes "u"; role = plain_user }

abbrev pub films : Library
films = record {
  id = codes "1";
  slug = codes "films";
  rel_path = codes "films";
  name = codes "Films";
  type = film;
  roots = codes "films" ∷ [];
}
