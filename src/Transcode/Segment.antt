-- ===== src/Transcode/Segment.antt =====
-- Names of segment files (internal/transcode/playlist_vod.go).
pub mod Names
use sudostream.Prelude.{
  [], Bool, drop, false, if◌then◌else◌, length, List, ltb, none, not, Option, reverse, some, true,
  ℕ, ◌&&◌, ◌++◌, ◌+◌, ◌==◌, ◌^◌, ◌||◌, ◌∷◌,
}
use sudostream.Text.{Bytes, codes, has_prefix}
use sudostream.Text.Decimal.{decimal_padded, read_digits}

abbrev pub segment_prefix : Bytes
segment_prefix = codes "seg_"

abbrev pub segment_ext : Bytes
segment_ext = codes ".ts"

abbrev pub segment_digits : ℕ
segment_digits = 5

-- SegmentName
unfoldable pub segment_name : ℕ → Bytes
segment_name index = segment_prefix ++ (decimal_padded segment_digits index ++ segment_ext)

-- strings.HasSuffix
unfoldable pub has_suffix : Bytes → Bytes → Bool
has_suffix s suffix = has_prefix (reverse s) (reverse suffix)

-- strings.TrimPrefix and strings.TrimSuffix
unfoldable pub trim_prefix : Bytes → Bytes → Bytes
trim_prefix s prefix = if has_prefix s prefix then drop (length prefix) s else s

unfoldable pub trim_suffix : Bytes → Bytes → Bytes
trim_suffix s suffix = if has_suffix s suffix then reverse (drop (length suffix) (reverse s)) else s

abbrev below_max : Option ℕ → Option ℕ
below_max none = none
below_max (some n) = if ltb n (2 ^ 63) then some n else none

abbrev only_zero : Option ℕ → Option ℕ
only_zero none = none
only_zero (some n) = if n == 0 then some n else none

abbrev pub some_digits : Bytes → Option ℕ
some_digits [] = none
some_digits (c ∷ s) = below_max (read_digits 0 (c ∷ s))

-- strconv.Atoi with `index < 0` refused: a sign may stand in front, and -0 is 0.
unfoldable pub atoi_index : Bytes → Option ℕ
atoi_index [] = none
atoi_index (c ∷ s) =
    if c == b'+'
    then some_digits s
    else if c == b'-'
    then only_zero (some_digits s)
    else some_digits (c ∷ s)

-- SegmentIndexFromName
unfoldable pub segment_index_from_name : Bytes → Option ℕ
segment_index_from_name name =
    if not (has_prefix name segment_prefix) || not (has_suffix name segment_ext)
    then none
    else atoi_index (trim_suffix (trim_prefix name segment_prefix) segment_ext)
