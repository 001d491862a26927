-- ===== src/Text/Paths.antt =====
-- path.Clean and path.Join in general, and url.PathEscape.
pub mod Proper
use sudostream.Prelude.{
  [], Bool, if◌then◌else◌, leb, List, reverse, ℕ, ◌%◌, ◌&&◌, ◌+◌, ◌/◌, ◌==◌, ◌||◌, ◌∷◌,
}
use sudostream.Text.{Bytes, bytes_eq, clean_rooted, dot, is_empty, join, slash, split}

-- One step of path.Clean on a path that is not rooted: what climbs above its start is kept.
abbrev climb : List Bytes → List Bytes
climb [] = (dot ∷ (dot ∷ [])) ∷ []
climb (x ∷ out) = if bytes_eq x (dot ∷ (dot ∷ [])) then (dot ∷ (dot ∷ [])) ∷ (x ∷ out) else out

unfoldable pub relative_step : List Bytes → Bytes → List Bytes
unfolding bytes_eq
relative_step out seg =
    if is_empty seg || bytes_eq seg (dot ∷ [])
    then out
    else if bytes_eq seg (dot ∷ (dot ∷ []))
    then climb out
    else seg ∷ out

unfoldable pub relative_segments : List Bytes → List Bytes → List Bytes
unfolding relative_step
relative_segments out [] = reverse out
relative_segments out (seg ∷ segs) = relative_segments (relative_step out seg) segs

abbrev pub or_dot : Bytes → Bytes
or_dot [] = dot ∷ []
or_dot (c ∷ s) = c ∷ s

-- path.Clean, and filepath.Clean on Unix.
unfoldable pub clean : Bytes → Bytes
unfolding relative_segments split join clean_rooted
clean [] = dot ∷ []
clean (c ∷ s) =
    if c == slash
    then clean_rooted s
    else or_dot (join slash (relative_segments [] (split slash (c ∷ s))))

abbrev pub nonempty : List Bytes → List Bytes
nonempty [] = []
nonempty (x ∷ xs) = let rest = nonempty xs in if is_empty x then rest else x ∷ rest

abbrev pub cleaned_or_empty : Bytes → Bytes
cleaned_or_empty [] = []
cleaned_or_empty (c ∷ s) = clean (c ∷ s)

-- path.Join, and filepath.Join on Unix.
unfoldable pub path_join : List Bytes → Bytes
unfolding clean join
path_join elements = cleaned_or_empty (join slash (nonempty elements))

-- The bytes that url.PathEscape leaves as they are in a segment.
unfoldable pub is_plain : ℕ → Bool
is_plain c =
    (leb b'a' c && leb c b'z')
    || (leb b'A' c && leb c b'Z')
    || (leb b'0' c && leb c b'9')
    || c == b'-'
    || c == b'_'
    || c == b'.'
    || c == b'~'
    || c == b'$'
    || c == b'&'
    || c == b'+'
    || c == b':'
    || c == b'='
    || c == b'@'

abbrev pub upper_hex : ℕ → ℕ
upper_hex n = if leb n 9 then n + b'0' else n + 55

-- url.PathEscape(s).
unfoldable pub path_escape : Bytes → Bytes
unfolding is_plain
path_escape [] = []
path_escape (c ∷ s) =
    if is_plain c
    then c ∷ path_escape s
    else b'%' ∷ (upper_hex (c / 16) ∷ (upper_hex (c % 16) ∷ path_escape s))
