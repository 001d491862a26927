-- ===== src/Transcode/AudioSelect.antt =====
-- internal/transcode/audio_select.go: which audio track plays first.
pub mod Choice
use sudostream.Prelude.{
  ◌||◌, zero, true, ◌&&◌, ◌∷◌, false, suc, not, none, some, if◌then◌else◌, [], Option, List, ℕ,
  Bool,
}
use sudostream.Text.{Bytes, bytes_eq, has_prefix, is_empty, to_lower, trim_space}

-- AudioStream, as far as the choice looks at it.
pub record AudioStream : Type 0 where
  pub language : Bytes
  pub commentary : Bool

abbrev pub max_user_audio_language_prefs : ℕ
max_user_audio_language_prefs = 3

-- The loop of normalizeLanguagePrefs, with `room` for so many more.
unfoldable pub prefs_with_room : ℕ → List Bytes → List Bytes
prefs_with_room zero langs = []
prefs_with_room (suc room) [] = []
prefs_with_room (suc room) (lang ∷ langs) =
    let cleaned = to_lower (trim_space lang) in
    let skipped = prefs_with_room (suc room) langs in
    let taken = prefs_with_room room langs in if is_empty cleaned then skipped else cleaned ∷ taken

-- normalizeLanguagePrefs
unfoldable pub normalize_language_prefs : List Bytes → List Bytes
normalize_language_prefs langs = prefs_with_room max_user_audio_language_prefs langs

abbrev pub tags_match : Bytes → Bytes → Bool
tags_match pref track_lang =
    if is_empty track_lang
    then false
    else if bytes_eq track_lang pref
    then true
    else has_prefix track_lang pref || has_prefix pref track_lang

-- languageMatches
unfoldable pub language_matches : Bytes → Bytes → Bool
language_matches pref track_lang = tags_match pref (to_lower (trim_space track_lang))

-- The position of the first entry that passes.
abbrev pub shift : Option ℕ → Option ℕ
shift none = none
shift (some i) = some (suc i)

abbrev pub find_index {ℓ} : {A : Type ℓ} → (A → Bool) → List A → Option ℕ
find_index p [] = none
find_index p (x ∷ xs) = let rest = find_index p xs in if p x then some 0 else shift rest

abbrev pub speaks : Bytes → AudioStream → Bool
speaks pref stream = not stream.commentary && language_matches pref stream.language

abbrev pub or_else : Option ℕ → Option ℕ → Option ℕ
or_else (some i) other = some i
or_else none other = other

-- The two nested loops over the preferences.
unfoldable pub preferred_index : List Bytes → List AudioStream → Option ℕ
preferred_index [] streams = none
preferred_index (pref ∷ prefs) streams =
    or_else (find_index (speaks pref) streams) (preferred_index prefs streams)

abbrev pub plain_index : List AudioStream → Option ℕ
plain_index = find_index (λ (stream : AudioStream). not stream.commentary)

-- SelectDefaultAudioStreamIndex; `none` is -1.
unfoldable pub select_default_audio_stream_index : List AudioStream → List Bytes → Option ℕ
select_default_audio_stream_index [] user_languages = none
select_default_audio_stream_index (stream ∷ streams) user_languages =
    or_else (preferred_index (normalize_language_prefs user_languages) (stream ∷ streams))
      (or_else (plain_index (stream ∷ streams)) (some 0))
