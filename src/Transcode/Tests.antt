-- ===== src/Transcode/Tests.antt =====
-- Runs of internal/transcode on small directories, and the theorems about it applied to them.
use sudostream.Transcode.Resolve.Truncated.{resolve_segment-truncated}
use sudostream.Transcode.AudioSelect.Choice.{select_default_audio_stream_index-At, At}
use sudostream.Transcode.AudioSelect.{
  AudioStream, language_matches, select_default_audio_stream_index,
}
use sudostream.Transcode.Ladder.{quality_rung_included, quality_rungs, ladder_heights}
use sudostream.Transcode.Ladder.Heights.{ladder_heights_lem, Descending}
use sudostream.Prelude.{
  inl, inr, List, [], All, Any, arith, Bool, false, if◌then◌else◌, ltb, none, not, refl, some, true,
  ℕ, ◌&&◌, ◌++◌, ◌||◌, ◌↔◌, ◌∷◌, ◌≡◌, ◌≤◌, ◌⊎◌,
}
use sudostream.Text.{has_prefix, trim_space, to_lower, bytes_eq, codes, slash}
use sudostream.Text.Decimal.{decimal, decimal_padded, digits_onto, zeros}
use sudostream.Transcode.Resolve.{
  stop_session, Poll, later, resolve_segment, segment_path, served, started, Surroundings, ticked,
}
use sudostream.Transcode.Resolve.Served.{Accepted, Encoder, resolve_segment-served}
use sudostream.Transcode.Resolve.Wait.{Arrives}
use sudostream.Transcode.Segment.{segment_name}
use sudostream.Transcode.Segment.Names.{segment_index_from_name-segment_name}
use sudostream.Transcode.Session.{
  Sessions, apply_throttle, clear_session, complete_in, Entry, entry_index, Folder, has_content,
  highest_of, highest_segment_index, lead, lookup_session, needs_restart, note_requested,
  register_session, remove_segments_from, segment_complete, Session, stat, throttle_ahead_segments,
  throttle_resume_segments,
}
use sudostream.Transcode.Session.Files.{entries_of, highest_segment_index-some, IsAtMost}
use sudostream.Transcode.Session.Registry.{clear_session-register_session}
use sudostream.Transcode.Session.Removal.{
  remove_segments_from-complete_in, remove_segments_from-stat,
}
use sudostream.Transcode.Session.Throttle.{
  needs_restart-false, apply_throttle-waiting, apply_throttle_lem, stopped_by, Throttled,
}
use sudostream.Transcode.TailBuffer.{concat, last_bytes, TailBuffer, write_all, write_all_lem}
use sudostream.Transcode.Variant.{
  split_segment_resource, valid_variant, Variant, variant_dir, video,
}
use sudostream.Transcode.Variant.Names.{split_segment_resource-variant_dir}

abbrev rung : Variant
rung = record { kind = video; value = 1080 }

split_segment_resource-variant_dir_example :
    split_segment_resource (variant_dir rung ++ (slash ∷ segment_name 42)) ≡ some (rung, 42)
split_segment_resource-variant_dir_example =
    split_segment_resource-variant_dir rung 42 (λ e. omega arith) (omega arith) (omega arith)

abbrev stderr : TailBuffer
stderr = record { limit = 4; bytes = [] }

write_all_lem_example :
    (write_all (codes "abc" ∷ (codes "def" ∷ [])) stderr).bytes
    ≡ last_bytes 4 ([] ++ concat (codes "abc" ∷ (codes "def" ∷ [])))
write_all_lem_example = write_all_lem (codes "abc" ∷ (codes "def" ∷ [])) stderr (omega arith)

abbrev file : ℕ → ℕ → Entry
file index size = record { name = segment_name index; is_dir = false; size = size }

-- Two segments, the second one unfinished.
abbrev folder : Folder
folder = some (file 0 100 ∷ (file 1 10 ∷ []))

abbrev encoder : ℕ → Session
encoder handle = record {
  handle = handle;
  variant_dir = variant_dir rung;
  start_index = 0;
  done = false;
  has_process = true;
  failure = none;
  last_access = 0;
  last_requested = 0;
  paused = false;
}

folder_highest : highest_segment_index folder ≡ some 1
unfolding highest_segment_index highest_of
folder_highest =
    rw
      (
        segment_index_from_name-segment_name 0 (omega arith),
        segment_index_from_name-segment_name 1 (omega arith),
      )
      refl

highest_segment_index-some_example :
    Any (λ e. entry_index e ≡ some 1) (entries_of folder)
    × All (λ e. IsAtMost 1 (entry_index e)) (entries_of folder)
highest_segment_index-some_example = highest_segment_index-some folder {n = 1} folder_highest

remove_segments_from-stat_example :
    stat (remove_segments_from 1 folder) (segment_name 0) ≡ stat folder (segment_name 0)
remove_segments_from-stat_example = remove_segments_from-stat folder 0 1 (omega arith) (omega arith)

remove_segments_from-complete_in_example :
    complete_in (remove_segments_from 1 folder) 1 true ≡ false
remove_segments_from-complete_in_example =
    remove_segments_from-complete_in folder 1 1 true (refl, (refl, tt)) (omega arith) (omega arith)

unfinished : complete_in folder 1 false ≡ false
unfinished = rw folder_highest (no_later _)
  where
    no_later : (b : Bool) → (if not b then false else false) ≡ false
    no_later true = refl
    no_later false = refl

begun : has_content (stat folder (segment_name 1)) ≡ true
unfolding segment_name decimal_padded decimal digits_onto zeros bytes_eq
begun = refl

apply_throttle_lem_example :
    Throttled
      (encoder 1)
      (ltb throttle_ahead_segments (lead (highest_segment_index folder) (encoder 1))
        || (false
            && ltb throttle_resume_segments (lead (highest_segment_index folder) (encoder 1))))
      (apply_throttle folder true (encoder 1))
apply_throttle_lem_example = apply_throttle_lem folder (encoder 1) (refl, refl)

near : needs_restart (some (encoder 1)) folder 1 ≡ false
near =
    (needs_restart-false folder (encoder 1) 1).1
      (refl, omega arith, rw folder_highest (omega arith))

apply_throttle-waiting_example :
    ((apply_throttle folder true (note_requested 7 1 (encoder 1))).0.paused ≡ false)
    × (stopped_by (apply_throttle folder true (note_requested 7 1 (encoder 1))).1 false ≡ false)
apply_throttle-waiting_example =
    apply_throttle-waiting folder (encoder 1) 7 1 (refl, refl) near (rw folder_highest refl)

clear_session-register_session_example :
    clear_session (codes "k") (encoder 1) (register_session (codes "k") (encoder 2) [])
    ≡ register_session (codes "k") (encoder 2) (clear_session (codes "k") (encoder 1) [])
clear_session-register_session_example =
    clear_session-register_session (codes "k") (encoder 1) (encoder 2) [] (λ e. omega arith) refl

-- A turn on the directory above, with the encoder running or gone.
abbrev poll : Bool → Poll
poll gone = record {
  folder = folder;
  exited_before = gone;
  exited = gone;
  throttle_folder = folder;
  failure = none;
  now = 0;
  delivered = true;
  event = ticked;
}

abbrev around : Surroundings
around = record {
  meta = some (record { height = 1080; audio_streams = 1; segments = 100 });
  folder = folder;
  later_folder = folder;
  exits = false;
  stopped_folder = folder;
  now = 0;
  delivered = true;
  start = started 1;
  polls = poll false ∷ (poll true ∷ []);
}

resolve_segment-served_example :
    ((resolve_segment (codes "k") rung 1 around []).outcome ≡ served (segment_path rung 1)) ↔ (
      Accepted rung 1 around
      × ((segment_complete folder 1 (lookup_session [] (codes "k") (variant_dir rung)) ≡ true)
          ⊎ ((segment_complete folder 1 (lookup_session [] (codes "k") (variant_dir rung)) ≡ false)
              × (Encoder (later false (lookup_session [] (codes "k") (variant_dir rung))) around 1
                  × Arrives 1 (poll false ∷ (poll true ∷ []))))))
resolve_segment-served_example = resolve_segment-served (codes "k") rung 1 around []

abbrev running : Sessions
running = (codes "k", encoder 1) ∷ []

running_found : lookup_session running (codes "k") (variant_dir rung) ≡ some (encoder 1)
unfolding lookup_session bytes_eq variant_dir decimal digits_onto
running_found = refl

around_accepts : Accepted rung 1 around
unfolding valid_variant ladder_heights quality_rung_included quality_rungs
around_accepts = record {
  meta = record { height = 1080; audio_streams = 1; segments = 100 };
  known = refl;
  valid = refl;
  in_range = omega arith;
}

-- The encoder above was stopped while it wrote segment 1.
resolve_segment-truncated_example :
    (segment_complete folder 1 (lookup_session running (codes "k") (variant_dir rung)) ≡ false)
    × ((resolve_segment
          (codes "k")
          rung
          1
          around
          (stop_session (codes "k") (variant_dir rung) running)).outcome
        ≡ served (segment_path rung 1))
resolve_segment-truncated_example =
    resolve_segment-truncated (codes "k") rung 1 around running {ss = encoder 1} running_found
      around_accepts refl unfinished begun

ladder_heights_lem_example :
    Descending (ladder_heights 800)
    × All (λ h. h ≤ 800) (ladder_heights 800)
    × Any (λ h. h ≡ 800) (ladder_heights 800)
ladder_heights_lem_example = ladder_heights_lem 800 (omega arith)

ladder_of_800 : ladder_heights 800 ≡ 800 ∷ (720 ∷ (480 ∷ (360 ∷ (240 ∷ []))))
unfolding ladder_heights quality_rungs quality_rung_included
ladder_of_800 = refl

abbrev director_and_film : List AudioStream
director_and_film =
    record { language = codes "eng"; commentary = true }
    ∷ (record { language = codes "jpn"; commentary = false } ∷ [])

select_default_audio_stream_index-At_example :
    (i : ℕ) × (select_default_audio_stream_index director_and_film (codes "en" ∷ []) ≡ some i)
    × At (λ stream. stream.commentary ≡ false) i director_and_film
select_default_audio_stream_index-At_example =
    select_default_audio_stream_index-At director_and_film (codes "en" ∷ []) (inr (inl refl))

-- The two-letter code of Spanish takes a track in Estonian.
spanish_takes_estonian : language_matches (codes "es") (codes "est") ≡ true
unfolding language_matches to_lower trim_space has_prefix bytes_eq
spanish_takes_estonian = refl
