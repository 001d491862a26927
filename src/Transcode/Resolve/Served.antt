-- ===== src/Transcode/Resolve/Served.antt =====
-- ResolveSegment: when a request is served (internal/transcode/session.go).
use sudostream.Prelude.{
  ap, arith, Bool-cases, false, inl, inr, ltb, ltb→lt, lt→ltb, none, Option, refl, some, sym, true,
  ℕ, ◌<◌, ◌↔◌, ◌∙◌, ◌≡◌, ◌⊎◌,
}
use sudostream.Text.{Bytes}
use sudostream.Transcode.Resolve.{
  context_over, later, new_session, no_variant_dir, resolve_meta, resolve_segment, resolve_valid,
  restart, segment_path, served, SourceMeta, spawn_failed, Start, started, stop_session,
  Surroundings, wait_or_restart,
}
use sudostream.Transcode.Resolve.Wait.{Arrives, wait_for_segment-served}
use sudostream.Transcode.Session.{
  apply_throttle, lookup_session, needs_restart, note_requested, segment_complete, Session,
  Sessions,
}
use sudostream.Transcode.Variant.{valid_variant, Variant, variant_dir}

-- The source is known, the rendition is one of its, and the segment is in its table.
pub record Accepted (v : Variant) (index : ℕ) (around : Surroundings) : Type 0 where
  pub meta : SourceMeta
  pub known : around.meta ≡ some meta
  pub valid : valid_variant meta.height meta.audio_streams v ≡ true
  pub in_range : index < meta.segments

-- An encoder is there to wait for: the one that runs, or one that could be started.
abbrev pub Encoder : Option Session → Surroundings → ℕ → Type 0
Encoder session around index =
    (needs_restart session around.later_folder index ≡ false)
    ⊎ ((needs_restart session around.later_folder index ≡ true)
        × ((handle : ℕ) × (around.start ≡ started handle)))

module _ (key : Bytes) (v : Variant) (index : ℕ) (around : Surroundings) where
  restart-served :
      (sessions : Sessions)
      → ((restart key v index around sessions).outcome ≡ served (segment_path v index))
        ↔ (((handle : ℕ) × (around.start ≡ started handle)) × Arrives index around.polls)
  unfolding restart
  restart-served sessions = by_start (around.start) refl
    where
      by_start :
          (s : Start)
          → around.start ≡ s
          → ((restart key v index around sessions).outcome ≡ served (segment_path v index))
            ↔ (((handle : ℕ) × (around.start ≡ started handle)) × Arrives index around.polls)
      by_start (started handle) e =
          let waits =
            wait_for_segment-served v index (new_session handle (variant_dir v) index around.now)
              around.polls in
          (λ h. ((handle, e), waits.0 (rw e at h)), λ k. rw e (waits.1 k.1))
      by_start no_variant_dir e =
          (λ h. absurd (ground (arith, h, e)), λ k. absurd (cc (sym e ∙ k.0.1)))
      by_start context_over e =
          (λ h. absurd (ground (arith, h, e)), λ k. absurd (cc (sym e ∙ k.0.1)))
      by_start spawn_failed e =
          (λ h. absurd (ground (arith, h, e)), λ k. absurd (cc (sym e ∙ k.0.1)))

  -- The same, said of the encoder that the request needs.
  restart-Encoder :
      (session : Option Session) (sessions : Sessions)
      → needs_restart session around.later_folder index ≡ true
      → ((restart key v index around sessions).outcome ≡ served (segment_path v index))
        ↔ (Encoder session around index × Arrives index around.polls)
  restart-Encoder session sessions t = (forward, backward)
    where
      forward :
          (restart key v index around sessions).outcome ≡ served (segment_path v index)
          → Encoder session around index × Arrives index around.polls
      forward h = let k = (restart-served sessions).0 h in (inr (t, k.0), k.1)

      backward :
          Encoder session around index × Arrives index around.polls
          → (restart key v index around sessions).outcome ≡ served (segment_path v index)
      backward (inl f, a) = absurd (cc (sym t ∙ f))
      backward (inr (u, s), a) = (restart-served sessions).1 (s, a)

  wait_on-Encoder :
      (ss : Session) (sessions : Sessions)
      → needs_restart (some ss) around.later_folder index ≡ false
      → ((wait_or_restart key v index around (some ss) sessions).outcome
          ≡ served (segment_path v index))
        ↔ (Encoder (some ss) around index × Arrives index around.polls)
  wait_on-Encoder ss sessions f =
      let noted =
        (apply_throttle around.later_folder around.delivered
          (note_requested around.now index ss)).0 in
      let waits = wait_for_segment-served v index noted around.polls in
      rw f (λ h. (inl refl, waits.0 h), λ k. waits.1 k.1)

  wait_or_restart-served :
      (session : Option Session) (sessions : Sessions)
      → ((wait_or_restart key v index around session sessions).outcome
          ≡ served (segment_path v index))
        ↔ (Encoder session around index × Arrives index around.polls)
  wait_or_restart-served none sessions =
      restart-Encoder none (stop_session key (variant_dir v) sessions)
        (unfold needs_restart in refl)
  wait_or_restart-served (some ss) sessions =
      elim (Bool-cases (needs_restart (some ss) around.later_folder index)) [
        | inl t ↦
            let again = restart-Encoder (some ss) (stop_session key (variant_dir v) sessions) t in
            rw t (rw t at again)
        | inr f ↦ wait_on-Encoder ss sessions f
      ]

  resolve_segment-Accepted :
      (sessions : Sessions)
      → Accepted v index around
      → resolve_segment key v index around sessions ≡ resolve_valid key v index around sessions
  unfolding resolve_segment
  resolve_segment-Accepted sessions accepted =
      ap (resolve_meta key v index around sessions) (accepted.known)
      ∙ rw (accepted.valid, lt→ltb index accepted.meta.segments accepted.in_range) refl

  resolve_valid-served :
      (sessions : Sessions)
      → ((resolve_valid key v index around sessions).outcome ≡ served (segment_path v index)) ↔ (
          (segment_complete around.folder index (lookup_session sessions key (variant_dir v))
            ≡ true)
          ⊎ ((segment_complete around.folder index (lookup_session sessions key (variant_dir v))
                ≡ false)
              × (Encoder
                    (later around.exits (lookup_session sessions key (variant_dir v)))
                    around
                    index
                  × Arrives index around.polls)))
  resolve_valid-served sessions =
      elim (Bool-cases
        (segment_complete around.folder index (lookup_session sessions key (variant_dir v)))) [
          | inl t ↦ rw t (λ h. inl refl, λ k. refl)
          | inr f ↦
              let waits =
                wait_or_restart-served
                  (later around.exits (lookup_session sessions key (variant_dir v))) sessions in
              rw f (λ h. inr (refl, waits.0 h), by_wait waits.1)
        ]
    where
      by_wait : {A B : Type 0} → (A → B) → ((false ≡ true) ⊎ ((false ≡ false) × A)) → B
      by_wait f (inl e) = absurd (cc)
      by_wait f (inr (e, a)) = f a

  Accepted-of :
      (sessions : Sessions) (o : Option SourceMeta)
      → around.meta ≡ o
      → (resolve_meta key v index around sessions o).outcome ≡ served (segment_path v index)
      → Accepted v index around
  Accepted-of sessions none e h = absurd (cc)
  Accepted-of sessions (some meta) e h =
      elim (Bool-cases (valid_variant meta.height meta.audio_streams v)) [
        | inr bad ↦ absurd (ground (arith, h, bad))
        | inl good ↦ elim (Bool-cases (ltb index meta.segments)) [
          | inr beyond ↦ absurd (ground (arith, h, good, beyond))
          | inl within ↦ record {
            meta = meta;
            known = e;
            valid = good;
            in_range = ltb→lt index meta.segments within;
          }
        ]
      ]

  -- A request is served exactly where the source is known and has the rendition and the segment,
  -- and either the segment is complete when segmentComplete looks first, or an encoder runs near it
  -- when needsRestart looks or can be started, and then some turn of the wait finds the segment
  -- complete while in every turn before it the encoder has not exited when the loop asks, the
  -- request has not ended and the deadline has not come.
  pub resolve_segment-served :
      (sessions : Sessions)
      → ((resolve_segment key v index around sessions).outcome ≡ served (segment_path v index)) ↔ (
          Accepted v index around
          × ((segment_complete around.folder index (lookup_session sessions key (variant_dir v))
                ≡ true)
              ⊎ ((segment_complete around.folder index (lookup_session sessions key (variant_dir v))
                    ≡ false)
                  × (Encoder
                        (later around.exits (lookup_session sessions key (variant_dir v)))
                        around
                        index
                      × Arrives index around.polls))))
  resolve_segment-served sessions = (forward, backward)
    where
      Ready : Type 0
      Ready =
          (segment_complete around.folder index (lookup_session sessions key (variant_dir v))
            ≡ true)
          ⊎ ((segment_complete around.folder index (lookup_session sessions key (variant_dir v))
                ≡ false)
              × (Encoder (later around.exits (lookup_session sessions key (variant_dir v))) around
                    index
                  × Arrives index around.polls))

      ready :
          Accepted v index around
          → ((resolve_segment key v index around sessions).outcome ≡ served (segment_path v index))
            ↔ Ready
      ready accepted =
          rw (resolve_segment-Accepted sessions accepted) (resolve_valid-served sessions)

      forward :
          (resolve_segment key v index around sessions).outcome ≡ served (segment_path v index)
          → Accepted v index around × Ready
      forward h =
          let accepted = Accepted-of sessions around.meta refl (unfold resolve_segment in h) in
          (accepted, (ready accepted).0 h)

      backward :
          Accepted v index around × Ready
          → (resolve_segment key v index around sessions).outcome ≡ served (segment_path v index)
      backward (accepted, k) = (ready accepted).1 k
