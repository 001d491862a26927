-- ===== src/Transcode/Variant.antt =====
-- internal/transcode/variant.go: the renditions of a source and the names of their directories.
pub mod Names
use sudostream.Prelude.{
  [], Bool, false, if◌then◌else◌, List, ltb, none, Option, some, true, ℕ, ◌==◌, ◌∷◌,
}
use sudostream.Text.{Bytes, slash, split, trim_slash}
use sudostream.Text.Decimal.{decimal}
use sudostream.Transcode.Ladder.{ladder_heights}
use sudostream.Transcode.Segment.{atoi_index, segment_index_from_name}

-- VariantKind has these two values.
pub data VariantKind : Type 0 where
  video audio : VariantKind

-- Variant. Neither a height nor a track number is negative.
pub record Variant : Type 0 where
  pub kind : VariantKind
  pub value : ℕ

-- Variant.Dir, with VariantDir and AudioDir.
abbrev pub dir_of : VariantKind → ℕ → Bytes
dir_of audio value = b'a' ∷ decimal value
dir_of video value = b'v' ∷ decimal value

unfoldable pub variant_dir : Variant → Bytes
variant_dir v = dir_of v.kind v.value

abbrev pub kind_of : ℕ → ℕ → Option Variant
kind_of letter value =
    if letter == b'v'
    then (if value == 0 then none else some (record { kind = video; value = value }))
    else if letter == b'a'
    then some (record { kind = audio; value = value })
    else none

abbrev pub with_value : ℕ → Option ℕ → Option Variant
with_value letter none = none
with_value letter (some value) = kind_of letter value

-- ParseVariantDir
unfoldable pub parse_variant_dir : Bytes → Option Variant
parse_variant_dir [] = none
parse_variant_dir (letter ∷ []) = none
parse_variant_dir (letter ∷ (digit ∷ rest)) = with_value letter (atoi_index (digit ∷ rest))

abbrev pub with_index : Option Variant → Option ℕ → Option (Variant × ℕ)
with_index none index = none
with_index (some v) none = none
with_index (some v) (some index) = some (v, index)

abbrev pub split_parts : List Bytes → Option (Variant × ℕ)
split_parts (dir ∷ (file ∷ [])) = with_index (parse_variant_dir dir) (segment_index_from_name file)
split_parts _ = none

-- SplitSegmentResource
unfoldable pub split_segment_resource : Bytes → Option (Variant × ℕ)
split_segment_resource resource = split_parts (split slash (trim_slash resource))

abbrev height_of : Option Variant → Option ℕ
height_of none = none
height_of (some v) = elim (v.kind) [ video ↦ some v.value | audio ↦ none ]

abbrev pub first_height : List Bytes → Option ℕ
first_height (dir ∷ (file ∷ rest)) = height_of (parse_variant_dir dir)
first_height _ = none

-- VariantHeightFromResource
unfoldable pub variant_height_from_resource : Bytes → Option ℕ
variant_height_from_resource resource = first_height (split slash (trim_slash resource))

abbrev among : ℕ → List ℕ → Bool
among n [] = false
among n (m ∷ ms) = if n == m then true else among n ms

-- validVariant on the height of the source and its number of audio tracks.
abbrev pub valid_kind : ℕ → ℕ → VariantKind → ℕ → Bool
valid_kind source_height audio_streams audio value = ltb value audio_streams
valid_kind source_height audio_streams video value = among value (ladder_heights source_height)

unfoldable pub valid_variant : ℕ → ℕ → Variant → Bool
valid_variant source_height audio_streams v = valid_kind source_height audio_streams v.kind v.value
