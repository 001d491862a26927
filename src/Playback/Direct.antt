-- ===== src/Playback/Direct.antt =====
-- When Decide picks which method (internal/playback/decide.go).
use sudostream.Text.Laws.Clean.{is_empty_of_ne}
use sudostream.Text.Laws.Equality.{bytes_eq→eq, eq→bytes_eq}
use sudostream.Prelude.{
  ◌&&◌, ◌∙◌, ◌≤◌, sym, ◌⊎◌, ap, refl, arith, inr, inl, Bool-cases, ◌↔◌, Any, ◌≡◌, ◌≢◌,
}
use sudostream.Playback.{
  bytes_eq, split, any_part, normalize_token, not, csv_contains, Bytes, method_of, is_empty, Bool,
  ◌∷◌, false, true, [], ℕ, List, DeviceProfile, DirectPlayProfile, SourceCaps, direct_play, remux,
  decide, can_direct_play, matches_direct_play, any_entry, too_fast, original_quality,
}

-- The original quality is wanted: no height, or at least that of a source whose height is known.
abbrev pub IsOriginal : SourceCaps → ℕ → Type 0
IsOriginal source selected_height =
    (selected_height ≡ 0) ⊎ ((1 ≤ source.height) × (source.height ≤ selected_height))

-- A token that is not blank is one of a list with commas, up to case, spaces and other names of a
-- codec.
abbrev pub Lists : Bytes → Bytes → Type 0
Lists list needle =
    (normalize_token needle ≢ [])
    × Any (λ part. normalize_token part ≡ normalize_token needle) (split b',' list)

-- An entry of the profile lists the container, and the codecs where it lists any; a source without
-- sound fits each list of audio codecs.
abbrev pub Plays : SourceCaps → DirectPlayProfile → Type 0
Plays source entry =
    Lists entry.container source.container
    × ((entry.video_codec ≡ []) ⊎ Lists entry.video_codec source.video_codec)
    × ((entry.audio_codec ≡ [])
        ⊎ ((source.audio_codec ≡ []) ⊎ Lists entry.audio_codec source.audio_codec))

-- The device plays the file as it is; a limit of 0 is none, and a bitrate of 0 is unknown.
pub record Playable (profile : DeviceProfile) (source : SourceCaps) : Type 0 where
  pub container_known : source.container ≢ []
  pub codec_known : source.video_codec ≢ []
  pub slow_enough :
      (profile.max_static_bitrate ≡ 0)
      ⊎ ((source.bitrate ≡ 0) ⊎ (source.bitrate ≤ profile.max_static_bitrate))
  pub listed : Any (Plays source) profile.direct_play_profiles

any_part-Any :
    (needle : Bytes) (parts : List Bytes)
    → (any_part needle parts ≡ true) ↔ Any (λ part. normalize_token part ≡ needle) parts
any_part-Any needle [] = (λ h. absurd (cc), λ a. absurd a)
any_part-Any needle (part ∷ parts) =
    let back = any_part-Any needle parts in
    elim (Bool-cases (bytes_eq (normalize_token part) needle)) [
      | inl t ↦ rw t (λ h. inl (bytes_eq→eq (normalize_token part) needle t), λ a. refl)
      | inr f ↦ rw f (
        λ h. inr (back.0 h),
        λ a. elim a [
          | inl e ↦ absurd (cc (sym f ∙ eq→bytes_eq (normalize_token part) needle e))
          | inr b ↦ back.1 b
        ],
      )
    ]

empty-cases : (s : Bytes) → ((is_empty s ≡ true) × (s ≡ [])) ⊎ ((is_empty s ≡ false) × (s ≢ []))
empty-cases [] = inl (refl, refl)
empty-cases (c ∷ s) = inr (refl, λ e. cc)

csv_contains-Lists : (list needle : Bytes) → (csv_contains list needle ≡ true) ↔ Lists list needle
unfolding csv_contains
csv_contains-Lists list needle =
    let parts = any_part-Any (normalize_token needle) (split b',' list) in
    elim (empty-cases (normalize_token needle)) [
      | inl (t, e) ↦ rw t (λ h. absurd (cc), λ k. absurd (k.0 e))
      | inr (f, n) ↦ rw f (λ h. (n, parts.0 h), λ k. parts.1 k.1)
    ]

-- A test with an exception, and what it says.
unless :
    {A E : Type 0} (b c : Bool)
    → ((c ≡ true) ↔ E)
    → ((b ≡ true) ↔ A)
    → ((not (not c && not b)) ≡ true) ↔ (E ⊎ A)
unless {A} {E} b c exception test = (forward, backward)
  where
    forward : (not (not c && not b)) ≡ true → E ⊎ A
    forward h = elim (Bool-cases c) [
      | inl t ↦ inl (exception.0 t)
      | inr f ↦ inr (test.0 (ground arith))
    ]

    backward : E ⊎ A → (not (not c && not b)) ≡ true
    backward (inl e) = rw (exception.1 e) refl
    backward (inr a) = rw (test.1 a) (ground arith)

is_empty_iff : (s : Bytes) → (is_empty s ≡ true) ↔ (s ≡ [])
is_empty_iff s = elim (empty-cases s) [
  | inl (t, e) ↦ (λ h. e, λ k. t)
  | inr (f, n) ↦ (λ h. absurd (cc), λ k. absurd (n k))
]

matches_direct_play-Plays :
    (source : SourceCaps) (entry : DirectPlayProfile)
    → (matches_direct_play entry source ≡ true) ↔ Plays source entry
unfolding matches_direct_play
matches_direct_play-Plays source entry =
    let container = csv_contains-Lists entry.container source.container in
    let video =
      unless (csv_contains entry.video_codec source.video_codec) (is_empty entry.video_codec)
        (is_empty_iff entry.video_codec)
        (csv_contains-Lists entry.video_codec source.video_codec) in
    let inner =
      unless (csv_contains entry.audio_codec source.audio_codec) (is_empty source.audio_codec)
        (is_empty_iff source.audio_codec)
        (csv_contains-Lists entry.audio_codec source.audio_codec) in
    let audio =
      unless
        (not (
          not (is_empty source.audio_codec)
          && not (csv_contains entry.audio_codec source.audio_codec)))
        (is_empty entry.audio_codec) (is_empty_iff entry.audio_codec) inner in
    (
      λ h. (
        container.0 (ground (arith, h)),
        video.0 (ground (arith, h)),
        audio.0 (ground (arith, h)),
      ),
      λ k. ground (arith, container.1 k.0, video.1 k.1, audio.1 k.2),
    )

any_entry-Any :
    (source : SourceCaps) (entries : List DirectPlayProfile)
    → (any_entry source entries ≡ true) ↔ Any (Plays source) entries
any_entry-Any source [] = (λ h. absurd (cc), λ a. absurd a)
any_entry-Any source (entry ∷ entries) =
    let back = any_entry-Any source entries in
    let here = matches_direct_play-Plays source entry in
    elim (Bool-cases (matches_direct_play entry source)) [
      | inl t ↦ rw t (λ h. inl (here.0 t), λ a. refl)
      | inr f ↦ rw f (
        λ h. inr (back.0 h),
        λ a. elim a [ inl p ↦ absurd (cc (sym f ∙ here.1 p)) | inr b ↦ back.1 b ],
      )
    ]

too_fast_iff :
    (profile : DeviceProfile) (source : SourceCaps)
    → (too_fast profile source ≡ false) ↔ (
        (profile.max_static_bitrate ≡ 0)
        ⊎ ((source.bitrate ≡ 0) ⊎ (source.bitrate ≤ profile.max_static_bitrate)))
too_fast_iff profile source = ground arith

original_quality-IsOriginal :
    (source : SourceCaps) (selected_height : ℕ)
    → (original_quality source selected_height ≡ true) ↔ IsOriginal source selected_height
original_quality-IsOriginal source selected_height = ground arith

can_direct_play-Playable :
    (profile : DeviceProfile) (source : SourceCaps)
    → (can_direct_play profile source ≡ true) ↔ Playable profile source
unfolding can_direct_play
can_direct_play-Playable profile source = (forward, backward)
  where
    forward : can_direct_play profile source ≡ true → Playable profile source
    forward h = record {
      container_known = λ e. ground (arith, ap is_empty e);
      codec_known = λ e. ground (arith, ap is_empty e);
      slow_enough = (too_fast_iff profile source).0 (ground (arith, h));
      listed = (any_entry-Any source profile.direct_play_profiles).0 (ground (arith, h));
    }

    backward : Playable profile source → can_direct_play profile source ≡ true
    backward p = ground (
      arith,
      is_empty_of_ne source.container p.container_known,
      is_empty_of_ne source.video_codec p.codec_known,
      (too_fast_iff profile source).1 p.slow_enough,
      (any_entry-Any source profile.direct_play_profiles).1 p.listed,
    )

method_of-direct_play :
    (o w c r : Bool) → (method_of o w c r ≡ direct_play) ↔ ((o ≡ true) × (w ≡ false) × (c ≡ true))
method_of-direct_play o w c r = ground arith

method_of-remux :
    (o w c r : Bool)
    → (method_of o w c r ≡ remux) ↔ ((o ≡ true) × (r ≡ true) × (method_of o w c r ≢ direct_play))
method_of-remux o w c r = ground arith

-- Decide picks direct play exactly where the original quality is wanted, the device does not prefer
-- HLS, container and video codec are known, the bitrate is within the limit of the device, and an entry
-- of its profile lists the container and the codecs; it picks a remux exactly where the original
-- quality is wanted, the file can be remuxed, and it does not pick direct play; else it transcodes.
pub decide_lem :
    (profile : DeviceProfile) (source : SourceCaps) (selected_height : ℕ)
    → ((decide profile source selected_height ≡ direct_play) ↔ (
        IsOriginal source selected_height × (profile.prefer_hls ≡ false) × Playable profile source))
      × ((decide profile source selected_height ≡ remux) ↔ (
          IsOriginal source selected_height
          × (source.remux_ok ≡ true)
          × (decide profile source selected_height ≢ direct_play)))
unfolding decide
decide_lem profile source selected_height =
    let original = original_quality-IsOriginal source selected_height in
    let plays = can_direct_play-Playable profile source in
    (
      (
        λ h. let (o, flat, p) = direct.0 h in (original.0 o, flat, plays.0 p),
        λ k. direct.1 (original.1 k.0, k.1, plays.1 k.2),
      ),
      (
        λ h. let (o, r, other) = remuxed.0 h in (original.0 o, r, other),
        λ k. remuxed.1 (original.1 k.0, k.1, k.2),
      ),
    )
  where
    direct : (decide profile source selected_height ≡ direct_play) ↔ (
        (original_quality source selected_height ≡ true)
        × (profile.prefer_hls ≡ false)
        × (can_direct_play profile source ≡ true))
    direct = method_of-direct_play _ _ _ _

    remuxed : (decide profile source selected_height ≡ remux) ↔ (
        (original_quality source selected_height ≡ true)
        × (source.remux_ok ≡ true)
        × (decide profile source selected_height ≢ direct_play))
    remuxed = method_of-remux _ _ _ _
