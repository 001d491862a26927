-- ===== src/Transcode/Session.antt =====
-- internal/transcode/session.go: the encoders that produce the segments of a rendition on demand,
-- and the requests that wait for them. What other processes do is an input: the files in the
-- directory of the rendition, the encoder's exit, the clock, and whether a signal is delivered.
-- Times are in nanoseconds. Metrics and logs are left out.
pub mod Files
pub mod Removal
pub mod Throttle
pub mod Registry
use sudostream.Prelude.{
  [], Bool, false, first, if◌then◌else◌, keep, leb, List, ltb, none, not, Option, some, true, ℕ,
  ◌&&◌, ◌*◌, ◌+◌, ◌-◌, ◌==◌, ◌||◌, ◌∷◌,
}
use sudostream.Text.{Bytes, bytes_eq}
use sudostream.Transcode.Segment.{segment_index_from_name, segment_name}

abbrev pub segment_gap_threshold : ℕ
segment_gap_threshold = 4

abbrev pub session_idle_timeout : ℕ
session_idle_timeout = 45 * 1000000000

abbrev pub throttle_ahead_segments : ℕ
throttle_ahead_segments = 30

abbrev pub throttle_resume_segments : ℕ
throttle_resume_segments = 20

-- os.DirEntry with the size that os.Stat gives of it.
pub record Entry : Type 0 where
  pub name : Bytes
  pub is_dir : Bool
  pub size : ℕ

-- The directory of a rendition; `none` where it cannot be read.
abbrev pub Folder : Type 0
Folder = Option (List Entry)

-- segmentSession. `handle` stands for its address; `failure` is its error with what the encoder
-- wrote; `done` says that the encoder has exited and been awaited.
pub record Session : Type 0 where
  pub handle : ℕ
  pub variant_dir : Bytes
  pub start_index : ℕ
  pub done : Bool
  pub has_process : Bool
  pub failure : Option Bytes
  pub last_access : ℕ
  pub last_requested : ℕ
  pub paused : Bool

-- idleFor: a time before the last access gives no idle time, which is below any timeout.
unfoldable pub idle_for : Session → ℕ → ℕ
idle_for ss now = now - ss.last_access

-- noteRequested
unfoldable pub note_requested : ℕ → ℕ → Session → Session
note_requested now index ss = record ss { last_requested = index; last_access = now }

-- throttleShouldPause. A lead below 0 is below both thresholds, as 0 is.
unfoldable pub throttle_should_pause : ℕ → Bool → Bool
throttle_should_pause gap paused =
    if paused then ltb throttle_resume_segments gap else ltb throttle_ahead_segments gap

-- The index that an entry counts for in the loops over a directory.
abbrev pub entry_index : Entry → Option ℕ
entry_index entry = if entry.is_dir then none else segment_index_from_name entry.name

-- `highest := -1` is `none`.
abbrev pub raise : Option ℕ → Option ℕ → Option ℕ
raise none highest = highest
raise (some index) none = some index
raise (some index) (some highest) = if ltb highest index then some index else some highest

unfoldable pub highest_of : Option ℕ → List Entry → Option ℕ
highest_of highest [] = highest
highest_of highest (entry ∷ entries) = highest_of (raise (entry_index entry) highest) entries

-- highestSegmentIndex
unfoldable pub highest_segment_index : Folder → Option ℕ
highest_segment_index none = none
highest_segment_index (some entries) = highest_of none entries

pub data Signal : Type 0 where
  stop cont : Signal

-- The lead of the encoder: `highest` is one below its start where there is no segment yet.
abbrev pub lead : Option ℕ → Session → ℕ
lead none ss = (ss.start_index - 1) - ss.last_requested
lead (some highest) ss = highest - ss.last_requested

-- The signals of applyThrottle: whether it wants a pause, whether there is one, and whether the
-- signal arrives.
abbrev pub signalled : Bool → Bool → Bool → Session → Session × Option Signal
signalled true true delivered ss = (ss, none)
signalled false false delivered ss = (ss, none)
signalled true false delivered ss =
    (if delivered then record ss { paused = true } else ss, some stop)
signalled false true delivered ss =
    (if delivered then record ss { paused = false } else ss, some cont)

-- applyThrottle: the session, and the signal that is sent.
unfoldable pub apply_throttle : Folder → Bool → Session → Session × Option Signal
apply_throttle folder delivered ss =
    let gap = lead (highest_segment_index folder) ss in
    if ss.done || not ss.has_process
    then (ss, none)
    else signalled (throttle_should_pause gap ss.paused) ss.paused delivered ss

-- os.Stat on the path of a segment.
abbrev pub stat : Folder → Bytes → Option Entry
stat none name = none
stat (some entries) name = first (λ e. bytes_eq e.name name) entries

abbrev pub has_content : Option Entry → Bool
has_content none = false
has_content (some entry) = not (entry.size == 0)

abbrev pub above : ℕ → Option ℕ → Bool
above index none = false
above index (some highest) = ltb index highest

-- session == nil || session.finished()
abbrev pub not_running : Option Session → Bool
not_running none = true
not_running (some ss) = ss.done

-- segmentComplete, on whether the encoder is gone.
abbrev pub complete_in : Folder → ℕ → Bool → Bool
complete_in folder index gone =
    if not (has_content (stat folder (segment_name index)))
    then false
    else if gone
    then true
    else above index (highest_segment_index folder)

unfoldable pub segment_complete : Folder → ℕ → Option Session → Bool
segment_complete folder index session = complete_in folder index (not_running session)

abbrev pub or_start : ℕ → Option ℕ → ℕ
or_start start none = start
or_start start (some highest) = highest

-- needsRestart
unfoldable pub needs_restart : Option Session → Folder → ℕ → Bool
needs_restart none folder index = true
needs_restart (some ss) folder index =
    if ss.done
    then true
    else if ltb index ss.start_index
    then true
    else ltb (or_start ss.start_index (highest_segment_index folder) + segment_gap_threshold) index

-- removeSegmentsFrom. A file whose removal fails is left out of account.
abbrev pub removable : ℕ → Option ℕ → Bool
removable index none = false
removable index (some existing) = leb index existing

unfoldable pub remove_segments_from : ℕ → Folder → Folder
remove_segments_from index none = none
remove_segments_from index (some entries) =
    some (keep (λ e. not (removable index (entry_index e))) entries)

-- The sessions of a service, each with its cache key: a map of maps in the source. A later entry
-- of the same key is one that was replaced.
abbrev pub Sessions : Type 0
Sessions = List (Bytes × Session)

abbrev pub at_key : Bytes → Bytes → Bytes × Session → Bool
at_key key variant entry = bytes_eq entry.0 key && bytes_eq entry.1.variant_dir variant

abbrev pub session_of : Option (Bytes × Session) → Option Session
session_of none = none
session_of (some (key, ss)) = some ss

-- session
unfoldable pub lookup_session : Sessions → Bytes → Bytes → Option Session
lookup_session sessions key variant = session_of (first (at_key key variant) sessions)

-- registerSession
unfoldable pub register_session : Bytes → Session → Sessions → Sessions
register_session key ss sessions =
    (key, ss) ∷ keep (λ e. not (at_key key ss.variant_dir e)) sessions

abbrev pub same_handle : Session → Option Session → Bool
same_handle ss none = false
same_handle ss (some other) = other.handle == ss.handle

-- clearSession: only the session that the map still holds is taken out.
unfoldable pub clear_session : Bytes → Session → Sessions → Sessions
clear_session key ss sessions =
    if same_handle ss (lookup_session sessions key ss.variant_dir)
    then keep (λ e. not (at_key key ss.variant_dir e)) sessions
    else sessions

-- idleSessions
abbrev snds : Sessions → List Session
snds [] = []
snds ((key, ss) ∷ rest) = ss ∷ snds rest

unfoldable pub idle_sessions : ℕ → Sessions → List Session
idle_sessions now sessions = keep (λ ss. ltb session_idle_timeout (idle_for ss now)) (snds sessions)
