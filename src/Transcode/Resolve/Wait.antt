-- ===== src/Transcode/Resolve/Wait.antt =====
-- waitForSegment: what it returns, and that it returns (internal/transcode/session.go).
use sudostream.Prelude.{
  [], ap, arith, Bool-cases, false, inl, inr, List, refl, sym, true, ℕ, ◌↔◌, ◌∙◌, ◌∷◌, ◌≡◌, ◌⊎◌,
}
use sudostream.Transcode.Resolve.{
  canceled, deadline, done_context, Event, exit_failure, failed, Outcome, Poll, seen, segment_path,
  served, ticked, timed_out, wait_for_segment,
}
use sudostream.Transcode.Session.{apply_throttle, complete_in, segment_complete, Session}
use sudostream.Transcode.Variant.{Variant}

-- A turn in which the segment is complete when segmentComplete looks.
abbrev pub Complete : ℕ → Poll → Type 0
Complete index p = complete_in p.folder index p.exited_before ≡ true

-- A turn after which the wait goes on: the encoder still runs when the loop asks, and the next tick comes.
abbrev pub GoesOn : Poll → Type 0
GoesOn p = (p.exited ≡ false) × (p.event ≡ ticked)

-- Some turn has the segment complete, and the wait goes on after each turn before it.
abbrev pub Arrives : ℕ → List Poll → Type 0
Arrives index [] = ⊥
Arrives index (p ∷ ps) = Complete index p ⊎ (GoesOn p × Arrives index ps)

Event-cases : (e : Event) → (e ≡ ticked) ⊎ ((e ≡ done_context) ⊎ (e ≡ deadline))
Event-cases ticked = inl refl
Event-cases done_context = inr (inl refl)
Event-cases deadline = inr (inr refl)

-- What a turn does, on its segment, its encoder and its event.
module _ (v : Variant) (index : ℕ) (ss : Session) (p : Poll) (ps : List Poll) where
  wait-Complete :
      Complete index p → (wait_for_segment v index ss (p ∷ ps)).1 ≡ served (segment_path v index)
  unfolding wait_for_segment segment_complete
  wait-Complete t = rw t refl

  wait-GoesOn :
      complete_in p.folder index p.exited_before ≡ false
      → GoesOn p
      → wait_for_segment v index ss (p ∷ ps)
        ≡ wait_for_segment v index (apply_throttle p.throttle_folder p.delivered (seen p ss)).0 ps
  unfolding wait_for_segment segment_complete
  wait-GoesOn f (alive, tick) = ground (arith, f, alive, tick)

  wait-exited :
      complete_in p.folder index p.exited_before ≡ false
      → p.exited ≡ true
      → (wait_for_segment v index ss (p ∷ ps)).1 ≡ failed (exit_failure p.failure)
  unfolding wait_for_segment segment_complete
  wait-exited f gone = ground (arith, f, gone)

  wait-done_context :
      complete_in p.folder index p.exited_before ≡ false
      → p.exited ≡ false
      → p.event ≡ done_context
      → (wait_for_segment v index ss (p ∷ ps)).1 ≡ failed canceled
  unfolding wait_for_segment segment_complete
  wait-done_context f alive c = ground (arith, f, alive, c)

  wait-deadline :
      complete_in p.folder index p.exited_before ≡ false
      → p.exited ≡ false
      → p.event ≡ deadline
      → (wait_for_segment v index ss (p ∷ ps)).1 ≡ failed timed_out
  unfolding wait_for_segment segment_complete
  wait-deadline f alive d = ground (arith, f, alive, d)

-- waitForSegment serves the segment exactly where a turn finds it complete, and in every turn before
-- the encoder has not exited when the loop asks, the request has not ended, and the deadline has not
-- come.
pub wait_for_segment-served :
    (v : Variant) (index : ℕ) (ss : Session) (polls : List Poll)
    → ((wait_for_segment v index ss polls).1 ≡ served (segment_path v index)) ↔ Arrives index polls
wait_for_segment-served v index ss polls = (forward ss polls, backward ss polls)
  where
    forward :
        (ss : Session) (polls : List Poll)
        → (wait_for_segment v index ss polls).1 ≡ served (segment_path v index)
        → Arrives index polls
    forward ss [] h = absurd (unfold wait_for_segment in ground (arith, h))
    forward ss (p ∷ ps) h = elim (Bool-cases (complete_in p.folder index p.exited_before)) [
      | inl t ↦ inl t
      | inr f ↦ elim (Bool-cases (p.exited)) [
        | inl gone ↦ absurd (cc (sym (wait-exited v index ss p ps f gone) ∙ h))
        | inr alive ↦ elim (Event-cases (p.event)) [
          | inl tick ↦ inr (
            (alive, tick),
            forward (apply_throttle p.throttle_folder p.delivered (seen p ss)).0 ps (
                ap (λ (r : Session × Outcome). r.1)
                  (sym (wait-GoesOn v index ss p ps f (alive, tick)))
                ∙ h),
          )
          | inr (inl over) ↦ absurd (cc (sym (wait-done_context v index ss p ps f alive over) ∙ h))
          | inr (inr late) ↦ absurd (cc (sym (wait-deadline v index ss p ps f alive late) ∙ h))
        ]
      ]
    ]

    backward :
        (ss : Session) (polls : List Poll)
        → Arrives index polls
        → (wait_for_segment v index ss polls).1 ≡ served (segment_path v index)
    backward ss [] a = absurd a
    backward ss (p ∷ ps) (inl t) = wait-Complete v index ss p ps t
    backward ss (p ∷ ps) (inr (on, a)) =
        elim (Bool-cases (complete_in p.folder index p.exited_before)) [
          | inl t ↦ wait-Complete v index ss p ps t
          | inr f ↦
              ap (λ (r : Session × Outcome). r.1) (wait-GoesOn v index ss p ps f on)
              ∙ backward (apply_throttle p.throttle_folder p.delivered (seen p ss)).0 ps a
        ]
