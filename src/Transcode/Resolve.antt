-- ===== src/Transcode/Resolve.antt =====
-- internal/transcode/session.go, ResolveSegment: a request for one segment of one rendition, from
-- its checks to the segment or an error, with startSession, stopSession and waitForSegment. The
-- lock of the rendition is held all along, so that only the encoder acts in between.
pub mod Wait
pub mod Served
pub mod Truncated
use sudostream.Prelude.{
  [], Bool, false, if◌then◌else◌, List, ltb, none, not, Option, some, true, ℕ, ◌++◌, ◌∷◌, ◌||◌,
}
use sudostream.Text.{Bytes, slash}
use sudostream.Transcode.Segment.{segment_name}
use sudostream.Transcode.Session.{
  apply_throttle, clear_session, Folder, lookup_session, needs_restart, note_requested,
  register_session, remove_segments_from, segment_complete, Session, Sessions,
}
use sudostream.Transcode.Variant.{valid_variant, Variant, variant_dir}

-- SourceMeta, as far as a request looks at it: its height, the number of
-- its audio tracks and of its segments.
pub record SourceMeta : Type 0 where
  pub height : ℕ
  pub audio_streams : ℕ
  pub segments : ℕ

pub data Failure : Type 0 where
  source_meta_unavailable invalid_variant segment_out_of_range : Failure
  variant_dir_failed start_failed canceled timed_out not_produced : Failure
  encoder_failed : Bytes → Failure

pub data Outcome : Type 0 where
  served : Bytes → Outcome
  failed : Failure → Outcome

-- What the select of waitForSegment sees in one turn.
pub data Event : Type 0 where
  ticked done_context deadline : Event

-- One turn of waitForSegment: the directory and whether the encoder has exited when segmentComplete
-- looks, whether it has exited when the loop asks next, and with what, the directory when
-- applyThrottle looks, the clock, whether signals arrive, and the event. A file that grows between
-- the os.Stat and the os.ReadDir of segmentComplete is in `folder` as the later one sees it.
pub record Poll : Type 0 where
  pub folder : Folder
  pub exited_before : Bool
  pub exited : Bool
  pub throttle_folder : Folder
  pub failure : Option Bytes
  pub now : ℕ
  pub delivered : Bool
  pub event : Event

abbrev pub seen : Poll → Session → Session
seen p ss = record ss { done = p.exited; failure = p.failure }

abbrev pub seen_before : Poll → Session → Session
seen_before p ss = record ss { done = p.exited_before }

abbrev pub exit_failure : Option Bytes → Failure
exit_failure none = not_produced
exit_failure (some detail) = encoder_failed detail

abbrev pub segment_path : Variant → ℕ → Bytes
segment_path v index = variant_dir v ++ (slash ∷ segment_name index)

-- waitForSegment, up to its deadline: the turns that come before it are the list.
unfoldable pub wait_for_segment : Variant → ℕ → Session → List Poll → Session × Outcome
wait_for_segment v index ss [] = (ss, failed timed_out)
wait_for_segment v index ss (p ∷ ps) =
    let throttled = (apply_throttle p.throttle_folder p.delivered (seen p ss)).0 in
    let rest = wait_for_segment v index throttled ps in
    if segment_complete p.folder index (some (seen_before p ss))
    then (
      (apply_throttle p.throttle_folder p.delivered (note_requested p.now index (seen p ss))).0,
      served (segment_path v index),
    )
    else if p.exited
    then (seen p ss, failed (exit_failure p.failure))
    else elim (p.event) [
      | ticked ↦ rest
      | done_context ↦ (throttled, failed canceled)
      | deadline ↦ (throttled, failed timed_out)
    ]

-- What the system answers when an encoder is started: its handle, or where it failed.
pub data Start : Type 0 where
  started : ℕ → Start
  no_variant_dir context_over spawn_failed : Start

-- What one request meets: the source, the directory when segmentComplete looks, when needsRestart
-- does, and once the old encoder is gone, whether the encoder exits between the first two, the
-- clock, whether signals arrive, the start of an encoder, and the turns of the wait.
pub record Surroundings : Type 0 where
  pub meta : Option SourceMeta
  pub folder : Folder
  pub later_folder : Folder
  pub exits : Bool
  pub stopped_folder : Folder
  pub now : ℕ
  pub delivered : Bool
  pub start : Start
  pub polls : List Poll

-- segmentResultHit, Wait and Restart, or none where the request was refused.
pub data Route : Type 0 where
  refused hit waited restarted : Route

pub record Resolved : Type 0 where
  pub route : Route
  pub sessions : Sessions
  pub folder : Folder
  pub outcome : Outcome

-- stopSession: the encoder is gone, and awaitSession has cleared it from the map.
unfoldable pub stop_session : Bytes → Bytes → Sessions → Sessions
stop_session key dir sessions = elim (lookup_session sessions key dir) [
  | none ↦ sessions
  | some ss ↦ clear_session key ss sessions
]

-- os.MkdirAll
abbrev pub made : Folder → Folder
made none = some []
made (some entries) = some entries

-- The session that startSession makes.
abbrev pub new_session : ℕ → Bytes → ℕ → ℕ → Session
new_session handle dir index now = record {
  handle = handle;
  variant_dir = dir;
  start_index = index;
  done = false;
  has_process = true;
  failure = none;
  last_access = now;
  last_requested = index;
  paused = false;
}

-- The map after the wait: awaitSession clears the encoder where it has exited.
abbrev pub settled : Bytes → Session → Sessions → Sessions
settled key ss sessions =
    if ss.done
    then clear_session key ss (register_session key ss sessions)
    else register_session key ss sessions

abbrev pub wait_on :
    Bytes → Variant → ℕ → Route → Sessions → Folder → List Poll → Session → Resolved
wait_on key v index route sessions folder polls ss =
    let end = wait_for_segment v index ss polls in
    record {
      route = route;
      sessions = settled key end.0 sessions;
      folder = folder;
      outcome = end.1;
    }

abbrev pub fail_with : Route → Sessions → Folder → Failure → Resolved
fail_with route sessions folder f = record {
  route = route;
  sessions = sessions;
  folder = folder;
  outcome = failed f;
}

-- startSession and the wait on what it started.
unfoldable pub restart : Bytes → Variant → ℕ → Surroundings → Sessions → Resolved
restart key v index around sessions =
    let folder = remove_segments_from index (made around.stopped_folder) in
    elim (around.start) [
      | no_variant_dir ↦ fail_with restarted sessions around.stopped_folder variant_dir_failed
      | context_over ↦ fail_with restarted sessions folder canceled
      | spawn_failed ↦ fail_with restarted sessions folder start_failed
      | started handle ↦
          wait_on key v index restarted sessions folder around.polls
            (new_session handle (variant_dir v) index around.now)
    ]

-- A segment that is there: the encoder, if one is registered, hears of the request.
abbrev pub note_hit : Bytes → ℕ → Surroundings → Option Session → Sessions → Sessions
note_hit key index around none sessions = sessions
note_hit key index around (some ss) sessions =
    register_session key
      (apply_throttle around.folder around.delivered (note_requested around.now index ss)).0
      sessions

abbrev pub wait_or_restart :
    Bytes → Variant → ℕ → Surroundings → Option Session → Sessions → Resolved
wait_or_restart key v index around none sessions =
    restart key v index around (stop_session key (variant_dir v) sessions)
wait_or_restart key v index around (some ss) sessions =
    if needs_restart (some ss) around.later_folder index
    then restart key v index around (stop_session key (variant_dir v) sessions)
    else wait_on key v index waited sessions around.later_folder around.polls
        (apply_throttle around.later_folder around.delivered (note_requested around.now index ss)).0

-- The session of the rendition when needsRestart looks.
abbrev pub later : Bool → Option Session → Option Session
later exits none = none
later exits (some ss) = some (record ss { done = ss.done || exits })

-- From the check for a complete segment on.
abbrev pub resolve_valid : Bytes → Variant → ℕ → Surroundings → Sessions → Resolved
resolve_valid key v index around sessions =
    let session = lookup_session sessions key (variant_dir v) in
    if segment_complete around.folder index session
    then record {
      route = hit;
      sessions = note_hit key index around session sessions;
      folder = around.folder;
      outcome = served (segment_path v index);
    }
    else wait_or_restart key v index around (later around.exits session) sessions

abbrev pub resolve_meta :
    Bytes → Variant → ℕ → Surroundings → Sessions → Option SourceMeta → Resolved
resolve_meta key v index around sessions none =
    fail_with refused sessions around.folder source_meta_unavailable
resolve_meta key v index around sessions (some meta) =
    if not (valid_variant meta.height meta.audio_streams v)
    then fail_with refused sessions around.folder invalid_variant
    else if not (ltb index meta.segments)
    then fail_with refused sessions around.folder segment_out_of_range
    else resolve_valid key v index around sessions

-- ResolveSegment. An index is not negative here.
unfoldable pub resolve_segment : Bytes → Variant → ℕ → Surroundings → Sessions → Resolved
resolve_segment key v index around sessions = resolve_meta key v index around sessions around.meta
