-- ===== src/Access/Tests/Paths.antt =====
-- Runs on paths, and the theorems about them applied to concrete ones.
use sudostream.Access.Tests.Samples.{films}
use sudostream.Access.Path.{
  canonical_rel_path, clean_media_rel_path, climbs, has_residual_path_encoding, match_libraries,
  match_library, match_roots, normalize_rel_path, path_within_root, unescape_path_limited,
  unescape_rounds,
}
use sudostream.Access.Path.Best.{candidates, Owns}
use sudostream.Access.Path.Canonical.{canonical_rel_path-IsCanonical, IsCanonical}
use sudostream.Access.Path.Match.{match_library-none, match_library-some, NotLonger}
use sudostream.Access.Path.Slash.{path_within_root-trailing_slash}
use sudostream.Access.Path.Within.{Begins, path_within_root_iff}
use sudostream.Access.Types.{root_paths}
use sudostream.Prelude.{
  [], All, Any, arith, false, inr, none, refl, some, true, ℕ, ◌++◌, ◌↔◌, ◌∷◌, ◌≡◌, ◌≢◌,
}
use sudostream.Text.{
  Bytes, bytes_eq, clean_rooted, codes, contains, has_prefix, path_unescape, slash, split, to_lower,
  trim_slash, trim_space,
}

messy_path : canonical_rel_path (codes " /films//./%78.mkv ") ≡ some (codes "films/x.mkv")
unfolding canonical_rel_path normalize_rel_path bytes_eq trim_slash trim_space unescape_path_limited
    unescape_rounds path_unescape has_residual_path_encoding contains has_prefix to_lower
    clean_media_rel_path clean_rooted climbs
messy_path = refl

canonical_rel_path-IsCanonical_example : IsCanonical (codes "films/x.mkv")
canonical_rel_path-IsCanonical_example =
    canonical_rel_path-IsCanonical (codes " /films//./%78.mkv ") {p = codes "films/x.mkv"}
      messy_path

path_within_root_iff_example : (path_within_root (codes "films/x.mkv") (codes "films") ≡ true) ↔ (
    (normalize_rel_path (codes "films/x.mkv") ≢ [])
    × (normalize_rel_path (codes "films") ≢ [])
    × Begins
        (split slash (normalize_rel_path (codes "films")))
        (split slash (normalize_rel_path (codes "films/x.mkv"))))
path_within_root_iff_example = path_within_root_iff (codes "films/x.mkv") (codes "films")

sub_path : canonical_rel_path (codes "films/x.mkv") ≡ some (codes "films/x.mkv")
unfolding canonical_rel_path normalize_rel_path bytes_eq trim_slash trim_space unescape_path_limited
    unescape_rounds path_unescape has_residual_path_encoding contains has_prefix to_lower
    clean_media_rel_path clean_rooted climbs
sub_path = refl

other_path : canonical_rel_path (codes "music/a.mp3") ≡ some (codes "music/a.mp3")
unfolding canonical_rel_path normalize_rel_path bytes_eq trim_slash trim_space unescape_path_limited
    unescape_rounds path_unescape has_residual_path_encoding contains has_prefix to_lower
    clean_media_rel_path clean_rooted climbs
other_path = refl

films_matched : match_library (films ∷ []) (codes "films/x.mkv") ≡ some films
unfolding match_library match_libraries match_roots path_within_root normalize_rel_path bytes_eq
    trim_slash trim_space has_prefix root_paths
films_matched = rw sub_path refl

match_library-some_example :
    (path : Bytes) × (n : ℕ) × (canonical_rel_path (codes "films/x.mkv") ≡ some path)
    × Any (Owns path films n) (candidates (films ∷ []))
    × All (NotLonger path n) (candidates (films ∷ []))
match_library-some_example =
    match_library-some (films ∷ []) (codes "films/x.mkv") {library = films} films_matched

music_unmatched : match_library (films ∷ []) (codes "music/a.mp3") ≡ none
unfolding match_library match_libraries match_roots path_within_root normalize_rel_path bytes_eq
    trim_slash trim_space has_prefix root_paths
music_unmatched = rw other_path refl

match_library-none_example :
    All (λ c. path_within_root (codes "music/a.mp3") c.1 ≡ false) (candidates (films ∷ []))
match_library-none_example =
    match_library-none (films ∷ []) (codes "music/a.mp3") music_unmatched (codes "music/a.mp3")
      other_path (λ e. cc)

films-IsCanonical : IsCanonical (normalize_rel_path (codes "films/x"))
unfolding normalize_rel_path bytes_eq trim_slash trim_space split
films-IsCanonical = inr (
  record {
    nonempty = λ e. cc;
    not_dot = λ e. cc;
    not_dots = λ e. cc;
    slash_free = (
      λ e. omega arith,
      (λ e. omega arith, (λ e. omega arith, (λ e. omega arith, (λ e. omega arith, tt)))),
    );
  },
  (
    record {
      nonempty = λ e. cc;
      not_dot = λ e. cc;
      not_dots = λ e. cc;
      slash_free = (λ e. omega arith, tt);
    },
    tt,
  ),
)

films_ends : normalize_rel_path (codes "films/") ≡ codes "films" ++ (slash ∷ [])
unfolding normalize_rel_path bytes_eq trim_slash trim_space
films_ends = refl

path_within_root-trailing_slash_example :
    path_within_root (codes "films/x") (codes "films/") ≡ false
path_within_root-trailing_slash_example =
    path_within_root-trailing_slash (codes "films/x") (codes "films") (codes "films/")
      films-IsCanonical films_ends
