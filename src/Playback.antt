-- ===== src/Playback.antt =====
-- internal/playback: how a file reaches a device. Numbers below 0 (a height, a bitrate) act as 0
-- in all tests of the source, and are 0 here.
pub mod Direct
pub mod Container
mod Tests
use sudostream.Prelude.{
  ◌==◌, true, [], ◌∷◌, ◌&&◌, leb, ltb, not, false, ◌||◌, reverse, Bool, List, if◌then◌else◌, ℕ,
}
use sudostream.Text.{Bytes, codes, bytes_eq, is_empty, to_lower, trim_space, split, slash, dot}

-- Decision holds a method and nothing else.
pub data PlayMethod : Type 0 where
  direct_play remux transcode : PlayMethod

-- DirectPlayProfile
pub record DirectPlayProfile : Type 0 where
  pub container : Bytes
  pub video_codec : Bytes
  pub audio_codec : Bytes

-- DeviceProfile, but for its subtitle modes, which Decide does not read.
pub record DeviceProfile : Type 0 where
  pub max_static_bitrate : ℕ
  pub direct_play_profiles : List DirectPlayProfile
  pub prefer_hls : Bool

-- SourceCaps, but for its duration, which Decide does not read.
pub record SourceCaps : Type 0 where
  pub container : Bytes
  pub video_codec : Bytes
  pub audio_codec : Bytes
  pub bitrate : ℕ
  pub height : ℕ
  pub remux_ok : Bool

-- normalizeToken
abbrev canonical_token : Bytes → Bytes
canonical_token value =
    if bytes_eq value (codes "avc1") || bytes_eq value (codes "avc")
    then codes "h264"
    else if bytes_eq value (codes "hev1")
        || bytes_eq value (codes "hvc1")
        || bytes_eq value (codes "h265")
    then codes "hevc"
    else value

unfoldable pub normalize_token : Bytes → Bytes
normalize_token value = canonical_token (to_lower (trim_space value))

abbrev pub any_part : Bytes → List Bytes → Bool
any_part needle [] = false
any_part needle (part ∷ parts) =
    let rest = any_part needle parts in
    if bytes_eq (normalize_token part) needle then true else rest

-- csvContains
unfoldable pub csv_contains : Bytes → Bytes → Bool
csv_contains list needle =
    if is_empty (normalize_token needle)
    then false
    else any_part (normalize_token needle) (split b',' list)

-- matchesDirectPlay
unfoldable pub matches_direct_play : DirectPlayProfile → SourceCaps → Bool
matches_direct_play entry source =
    if not (csv_contains entry.container source.container)
    then false
    else if not (is_empty entry.video_codec)
        && not (csv_contains entry.video_codec source.video_codec)
    then false
    else if not (is_empty entry.audio_codec)
        && not (is_empty source.audio_codec)
        && not (csv_contains entry.audio_codec source.audio_codec)
    then false
    else true

abbrev pub any_entry : SourceCaps → List DirectPlayProfile → Bool
any_entry source [] = false
any_entry source (entry ∷ entries) =
    let rest = any_entry source entries in if matches_direct_play entry source then true else rest

-- The bitrate test of canDirectPlay: 0 is unlimited, or unknown.
abbrev pub too_fast : DeviceProfile → SourceCaps → Bool
too_fast profile source =
    ltb 0 profile.max_static_bitrate
    && ltb 0 source.bitrate
    && ltb profile.max_static_bitrate source.bitrate

-- canDirectPlay
unfoldable pub can_direct_play : DeviceProfile → SourceCaps → Bool
can_direct_play profile source =
    if is_empty source.container || is_empty source.video_codec
    then false
    else if too_fast profile source
    then false
    else any_entry source profile.direct_play_profiles

abbrev pub original_quality : SourceCaps → ℕ → Bool
original_quality source selected_height =
    leb selected_height 0 || (ltb 0 source.height && leb source.height selected_height)

abbrev pub method_of : Bool → Bool → Bool → Bool → PlayMethod
method_of original prefer_hls playable remux_ok =
    if original && not prefer_hls && playable
    then direct_play
    else if original && remux_ok
    then remux
    else transcode

-- Decide
unfoldable pub decide : DeviceProfile → SourceCaps → ℕ → PlayMethod
decide profile source selected_height =
    method_of (original_quality source selected_height) profile.prefer_hls
      (can_direct_play profile source) source.remux_ok

-- filepath.Ext, on the reversed path.
unfoldable pub ext_reversed : Bytes → Bytes → Bytes
ext_reversed [] ext = []
ext_reversed (c ∷ s) ext =
    let rest = ext_reversed s (c ∷ ext) in
    if c == slash then [] else if c == dot then dot ∷ ext else rest

unfoldable pub ext_of : Bytes → Bytes
ext_of path = ext_reversed (reverse path) []

abbrev trim_dot : Bytes → Bytes
trim_dot [] = []
trim_dot (c ∷ s) = if c == dot then s else c ∷ s

abbrev container_of_ext : Bytes → Bytes
container_of_ext ext =
    if bytes_eq ext (codes ".mp4") || bytes_eq ext (codes ".m4v")
    then codes "mp4"
    else if bytes_eq ext (codes ".webm")
    then codes "webm"
    else if bytes_eq ext (codes ".mkv")
    then codes "mkv"
    else if bytes_eq ext (codes ".mov")
    then codes "mov"
    else if bytes_eq ext (codes ".avi")
    then codes "avi"
    else if bytes_eq ext (codes ".mpg") || bytes_eq ext (codes ".mpeg")
    then codes "mpeg"
    else if bytes_eq ext (codes ".wmv")
    then codes "wmv"
    else trim_dot ext

-- ContainerFromPath
unfoldable pub container_from_path : Bytes → Bytes
container_from_path media_path = container_of_ext (to_lower (ext_of media_path))
