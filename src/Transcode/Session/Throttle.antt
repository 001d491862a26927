-- ===== src/Transcode/Session/Throttle.antt =====
-- Throttling: when an encoder is stopped and let go on, and which requests wait for a running one
-- (internal/transcode/session.go).
use sudostream.Prelude.{
  ap, arith, Bool, Bool-cases, false, inl, inr, ltb, none, not, Option, refl, some, true, ℕ, ◌&&◌,
  ◌+◌, ◌||◌, ◌↔◌, ◌∙◌, ◌≡◌, ◌≤◌,
}
use sudostream.Transcode.Session.{
  above, apply_throttle, Folder, highest_segment_index, lead, needs_restart, note_requested,
  or_start, segment_gap_threshold, Session, Signal, cont, signalled, stop, throttle_ahead_segments,
  throttle_resume_segments, throttle_should_pause,
}

-- The encoder is there and its signals arrive.
abbrev pub IsRunning : Session → Type 0
IsRunning ss = (ss.done ≡ false) × (ss.has_process ≡ true)

-- Whether a process is stopped once a signal has arrived: SIGSTOP stops it, SIGCONT lets it go on.
abbrev pub stopped_by : Option Signal → Bool → Bool
stopped_by none stopped = stopped
stopped_by (some stop) stopped = true
stopped_by (some cont) stopped = false

-- What holds of an encoder that was stopped as its session says, once `r` has arrived: it and the
-- session are stopped exactly as `wanted`.
abbrev pub Throttled : Session → Bool → Session × Option Signal → Type 0
Throttled ss wanted r = (r.0 ≡ record ss { paused = wanted }) × (stopped_by r.1 ss.paused ≡ wanted)

-- applyThrottle on a running encoder whose signals arrive, and that is stopped where its session
-- says so: after the signal that is sent, if one is, the encoder is stopped, and its session says so,
-- exactly where its lead is above the upper threshold, or above the lower one and it was stopped
-- before.
pub apply_throttle_lem :
    (folder : Folder) (ss : Session)
    → IsRunning ss
    → Throttled ss
        (ltb throttle_ahead_segments (lead (highest_segment_index folder) ss)
          || (ss.paused && ltb throttle_resume_segments (lead (highest_segment_index folder) ss)))
        (apply_throttle folder true ss)
unfolding apply_throttle throttle_should_pause
apply_throttle_lem folder ss (alive, process) =
    let exited : (ss.done || not ss.has_process) ≡ false = ground arith in
    rw exited (by_lead (lead (highest_segment_index folder) ss))
  where
    or_true : (b : Bool) → true ≡ (b || true)
    or_true b = ground arith

    by_lead :
        (gap : ℕ)
        → Throttled ss
            (ltb throttle_ahead_segments gap || (ss.paused && ltb throttle_resume_segments gap))
            (signalled (throttle_should_pause gap ss.paused) ss.paused true ss)
    by_lead gap = elim (Bool-cases (ss.paused)) [
      | inl p ↦ elim (Bool-cases (ltb throttle_resume_segments gap)) [
        | inl far ↦
            rw (p, far)
              (ap (λ (q : Bool). record ss { paused = q }) {x = true} (or_true _), or_true _)
        | inr near ↦
            let below : ltb throttle_ahead_segments gap ≡ false = ground arith in
            rw (p, near, below) (refl, refl)
      ]
      | inr r ↦ elim (Bool-cases (ltb throttle_ahead_segments gap)) [
        | inl far ↦ rw (r, far) (refl, refl)
        | inr near ↦ rw (r, near) (refl, refl)
      ]
    ]

-- A request waits for the encoder, rather than starting another, exactly where the encoder has not
-- exited, starts at or before the segment, and is at most the gap threshold away from it.
pub needs_restart-false :
    (folder : Folder) (ss : Session) (index : ℕ)
    → (needs_restart (some ss) folder index ≡ false) ↔ (
        (ss.done ≡ false)
        × (ss.start_index ≤ index)
        × (index ≤ or_start ss.start_index (highest_segment_index folder) + segment_gap_threshold))
unfolding needs_restart
needs_restart-false folder ss index = ground arith

lead_waiting :
    (highest : Option ℕ) (ss : Session) (now index : ℕ)
    → ss.start_index ≤ index
    → above index highest ≡ false
    → lead highest (note_requested now index ss) ≡ 0
unfolding note_requested
lead_waiting none ss now index le h = omega arith
lead_waiting (some n) ss now index le h = ground arith

-- A running encoder whose signals arrive, and that is stopped where its session says so: where a
-- request is to wait for it, and no segment is there after the one that is asked for, the encoder
-- runs once the signal has arrived that applyThrottle sends, and its session says so.
pub apply_throttle-waiting :
    (folder : Folder) (ss : Session) (now index : ℕ)
    → IsRunning ss
    → needs_restart (some ss) folder index ≡ false
    → above index (highest_segment_index folder) ≡ false
    → ((apply_throttle folder true (note_requested now index ss)).0.paused ≡ false)
      × (stopped_by (apply_throttle folder true (note_requested now index ss)).1 ss.paused ≡ false)
apply_throttle-waiting folder ss now index running waits last =
    let (alive, start, near) = (needs_restart-false folder ss index).0 waits in
    let (kept, sent) =
      apply_throttle_lem folder (note_requested now index ss) (unfold note_requested in running) in
    let noted = note_requested now index ss in
    let runs : (ltb throttle_ahead_segments (lead (highest_segment_index folder) noted)
          || (noted.paused
              && ltb throttle_resume_segments (lead (highest_segment_index folder) noted)))
        ≡ false =
      rw (lead_waiting (highest_segment_index folder) ss now index start last) (and_false _) in
    (ap (λ (s : Session). s.paused) kept ∙ runs, unfold note_requested in (sent ∙ runs))
  where
    and_false : (b : Bool) → (b && false) ≡ false
    and_false b = ground arith
