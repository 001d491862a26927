-- ===== src/Playback/Tests.antt =====
-- A browser and two files, and the theorems on playback applied to them.
use sudostream.Prelude.{refl, ◌≢◌, ◌↔◌, ◌≡◌}
use sudostream.Text.{split, bytes_eq, trim_space, to_lower, codes}
use sudostream.Playback.{
  split, bytes_eq, trim_space, to_lower, normalize_token, csv_contains, false, matches_direct_play,
  [], can_direct_play, true, ◌∷◌, DeviceProfile, SourceCaps, decide, direct_play, remux,
}
use sudostream.Playback.Direct.{IsOriginal, Playable, decide_lem}

abbrev browser : DeviceProfile
browser = record {
  max_static_bitrate = 0;
  direct_play_profiles =
      record {
        container = codes "mp4, webm";
        video_codec = codes "AVC1,vp9";
        audio_codec = codes "aac";
      }
      ∷ [];
  prefer_hls = false;
}

abbrev movie : SourceCaps
movie = record {
  container = codes "mp4";
  video_codec = codes "h264";
  audio_codec = codes "aac";
  bitrate = 8000000;
  height = 1080;
  remux_ok = true;
}

original_plays : decide browser movie 0 ≡ direct_play
unfolding decide can_direct_play matches_direct_play csv_contains normalize_token to_lower
    trim_space bytes_eq split
original_plays = refl

decide_lem_example :
    ((decide browser movie 0 ≡ direct_play)
      ↔ (IsOriginal movie 0 × (false ≡ false) × Playable browser movie))
    × ((decide browser movie 0 ≡ remux)
        ↔ (IsOriginal movie 0 × (true ≡ true) × (decide browser movie 0 ≢ direct_play)))
decide_lem_example = decide_lem browser movie 0
