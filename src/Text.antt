-- ===== src/Text.antt =====
-- Go strings as lists of bytes, and what the program uses of the packages strings, net/url and
-- path/filepath on a Unix system.
pub mod Laws
pub mod Decimal
pub mod Paths
use Prim.Native.Char.{code}
use Prim.Native.String.{String}
use sudostream.Prelude.{
  [], Bool, false, if◌then◌else◌, leb, List, map, none, Option, reverse, some, true, ℕ, ◌&&◌, ◌*◌,
  ◌++◌, ◌+◌, ◌-◌, ◌==◌, ◌||◌, ◌∷◌,
}

abbrev pub Bytes : Type 0
Bytes = List ℕ

-- The bytes of an ASCII text.
abbrev pub codes : String → Bytes
codes String.[] = []
codes (String.◌∷◌ c s) = code c ∷ codes s

abbrev pub slash : ℕ
slash = b'/'

abbrev pub dot : ℕ
dot = b'.'

-- `a == b` on strings.
unfoldable pub bytes_eq : Bytes → Bytes → Bool
bytes_eq [] [] = true
bytes_eq [] (b ∷ s) = false
bytes_eq (a ∷ r) [] = false
bytes_eq (a ∷ r) (b ∷ s) = a == b && bytes_eq r s

abbrev pub is_empty : Bytes → Bool
is_empty [] = true
is_empty (c ∷ s) = false

-- strings.HasPrefix(s, prefix).
unfoldable pub has_prefix : Bytes → Bytes → Bool
has_prefix s [] = true
has_prefix [] (b ∷ prefix) = false
has_prefix (a ∷ s) (b ∷ prefix) = a == b && has_prefix s prefix

-- strings.TrimPrefix(s, "/").
unfoldable pub trim_slash : Bytes → Bytes
trim_slash [] = []
trim_slash (c ∷ s) = if c == slash then s else c ∷ s

-- strings.Contains(s, sub).
unfoldable pub contains : Bytes → Bytes → Bool
unfolding has_prefix
contains [] sub = has_prefix [] sub
contains (c ∷ s) sub = has_prefix (c ∷ s) sub || contains s sub

-- strings.ToLower on ASCII; the letters beyond, which it lowers too, are left as they are here.
unfoldable pub lower : ℕ → ℕ
lower c = if leb b'A' c && leb c b'Z' then c + 32 else c

unfoldable pub to_lower : Bytes → Bytes
unfolding lower
to_lower s = map lower s

abbrev pub cons_head : ℕ → List Bytes → List Bytes
cons_head c [] = (c ∷ []) ∷ []
cons_head c (x ∷ xs) = (c ∷ x) ∷ xs

-- strings.Split at one byte: never empty.
unfoldable pub split : ℕ → Bytes → List Bytes
split sep [] = [] ∷ []
split sep (c ∷ s) = let rest = split sep s in if c == sep then [] ∷ rest else cons_head c rest

-- strings.Join with one byte.
unfoldable pub join : ℕ → List Bytes → Bytes
join sep [] = []
join sep (x ∷ []) = x
join sep (x ∷ (y ∷ r)) = x ++ (sep ∷ join sep (y ∷ r))

-- unicode.IsSpace in UTF-8: how many bytes the white space at the front of a text takes, or 0.
abbrev ascii_space : ℕ → Bool
ascii_space c = c == 32 || (leb 9 c && leb c 13)

abbrev space_two : ℕ → ℕ → Bool
space_two a b = a == 0xc2 && (b == 0x85 || b == 0xa0)

abbrev space_three : ℕ → ℕ → ℕ → Bool
space_three a b c =
    (a == 0xe1 && b == 0x9a && c == 0x80)
    || (a == 0xe2
        && b == 0x80
        && ((leb 0x80 c && leb c 0x8a) || c == 0xa8 || c == 0xa9 || c == 0xaf))
    || (a == 0xe2 && b == 0x81 && c == 0x9f)
    || (a == 0xe3 && b == 0x80 && c == 0x80)

-- strings.TrimLeftFunc(s, unicode.IsSpace).
unfoldable pub trim_left : Bytes → Bytes
trim_left [] = []
trim_left (a ∷ []) = if ascii_space a then [] else a ∷ []
trim_left (a ∷ (b ∷ [])) =
    let one = trim_left (b ∷ []) in
    if ascii_space a then one else if space_two a b then [] else a ∷ (b ∷ [])
trim_left (a ∷ (b ∷ (c ∷ s))) =
    let one = trim_left (b ∷ (c ∷ s)) in
    let two = trim_left (c ∷ s) in
    let three = trim_left s in
    if ascii_space a
    then one
    else if space_two a b
    then two
    else if space_three a b c
    then three
    else a ∷ (b ∷ (c ∷ s))

-- The same from the end, on the reversed text.
unfoldable pub trim_right_reversed : Bytes → Bytes
trim_right_reversed [] = []
trim_right_reversed (a ∷ []) = if ascii_space a then [] else a ∷ []
trim_right_reversed (b ∷ (a ∷ [])) =
    let one = trim_right_reversed (a ∷ []) in
    if ascii_space b then one else if space_two a b then [] else b ∷ (a ∷ [])
trim_right_reversed (c ∷ (b ∷ (a ∷ s))) =
    let one = trim_right_reversed (b ∷ (a ∷ s)) in
    let two = trim_right_reversed (a ∷ s) in
    let three = trim_right_reversed s in
    if ascii_space c
    then one
    else if space_two b c
    then two
    else if space_three a b c
    then three
    else c ∷ (b ∷ (a ∷ s))

-- strings.TrimSpace(s).
unfoldable pub trim_space : Bytes → Bytes
unfolding trim_left trim_right_reversed
trim_space s = reverse (trim_right_reversed (reverse (trim_left s)))

abbrev pub is_hex : ℕ → Bool
is_hex c = (leb b'0' c && leb c b'9') || (leb b'a' c && leb c b'f') || (leb b'A' c && leb c b'F')

abbrev pub unhex : ℕ → ℕ
unhex c = if leb c b'9' then c - b'0' else if leb b'a' c then c - b'a' + 10 else c - b'A' + 10

abbrev prepend : ℕ → Option Bytes → Option Bytes
prepend c none = none
prepend c (some s) = some (c ∷ s)

-- url.PathUnescape(s): `none` is its error, a percent sign with no two hex digits behind it.
unfoldable pub path_unescape : Bytes → Option Bytes
path_unescape [] = some []
path_unescape (c ∷ []) = if c == b'%' then none else some (c ∷ [])
path_unescape (c ∷ (a ∷ [])) =
    let rest = path_unescape (a ∷ []) in if c == b'%' then none else prepend c rest
path_unescape (c ∷ (a ∷ (b ∷ s))) =
    let plain = path_unescape (a ∷ (b ∷ s)) in
    let decoded = path_unescape s in
    if c == b'%'
    then (if is_hex a && is_hex b then prepend (unhex a * 16 + unhex b) decoded else none)
    else prepend c plain

-- One step of filepath.Clean on a rooted path; the latest segment is the head of `out`.
abbrev pop : List Bytes → List Bytes
pop [] = []
pop (x ∷ out) = out

unfoldable pub clean_step : List Bytes → Bytes → List Bytes
unfolding bytes_eq
clean_step out seg =
    if is_empty seg || bytes_eq seg (dot ∷ [])
    then out
    else if bytes_eq seg (dot ∷ (dot ∷ []))
    then pop out
    else seg ∷ out

unfoldable pub clean_segments : List Bytes → List Bytes → List Bytes
unfolding clean_step
clean_segments out [] = reverse out
clean_segments out (seg ∷ segs) = clean_segments (clean_step out seg) segs

-- filepath.Clean("/" + s).
unfoldable pub clean_rooted : Bytes → Bytes
unfolding clean_segments split join
clean_rooted s = slash ∷ join slash (clean_segments [] (split slash s))
