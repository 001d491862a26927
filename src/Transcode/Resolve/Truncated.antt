-- ===== src/Transcode/Resolve/Truncated.antt =====
-- stopSession and the next ResolveSegment: a segment that was not finished
-- (internal/transcode/session.go).
use sudostream.Text.{bytes_eq}
use sudostream.Prelude.{
  ap, sym, subst, first-test, [], refl, inr, Bool-cases, true, arith, ◌∷◌, inl, not, false, none,
  Option-cases, keep, some, first, ◌≡◌,
}
use sudostream.Text.Laws.Equality.{bytes_eq→eq}
use sudostream.Transcode.Resolve.{
  segment_name, ℕ, List, Bytes, Bool, resolve_segment, segment_path, served, stop_session,
  Surroundings,
}
use sudostream.Transcode.Resolve.Served.{Accepted, resolve_segment-served}
use sudostream.Transcode.Session.{
  same_handle, at_key, clear_session, complete_in, has_content, lookup_session, segment_complete,
  Session, session_of, Sessions, stat,
}
use sudostream.Transcode.Variant.{Variant, variant_dir}

first-keep-not {ℓ} :
    {A : Type ℓ} (p : A → Bool) (xs : List A) → first p (keep (λ x. not (p x)) xs) ≡ none
first-keep-not p [] = refl
first-keep-not p (x ∷ xs) = elim (Bool-cases (p x)) [
  | inl t ↦ rw t (first-keep-not p xs)
  | inr f ↦ rw (f, f) (first-keep-not p xs)
]

-- The session that is found is one of the rendition.
lookup_session-variant_dir :
    (key dir : Bytes) (sessions : Sessions) {ss : Session}
    → lookup_session sessions key dir ≡ some ss
    → ss.variant_dir ≡ dir
unfolding lookup_session
lookup_session-variant_dir key dir sessions {ss} h =
    elim (Option-cases (first (at_key key dir) sessions)) [
      | inl e ↦ absurd (ground (arith, h, e))
      | inr (entry, e) ↦
          let same : entry.1 ≡ ss = ground (arith, h, e) in
          let named : bytes_eq entry.1.variant_dir dir ≡ true =
            ground (arith, first-test (at_key key dir) sessions e) in
          subst (λ (z : Session). z.variant_dir ≡ dir) same
            (bytes_eq→eq entry.1.variant_dir dir named)
    ]

lookup_session-clear_session :
    (key : Bytes) (ss : Session) (sessions : Sessions)
    → lookup_session sessions key ss.variant_dir ≡ some ss
    → lookup_session (clear_session key ss sessions) key ss.variant_dir ≡ none
unfolding clear_session
lookup_session-clear_session key ss sessions h =
    let mine : same_handle ss (lookup_session sessions key ss.variant_dir) ≡ true =
      rw h (ground arith) in
    rw mine
      (unfold lookup_session in ap session_of (first-keep-not (at_key key ss.variant_dir) sessions))

-- After stopSession the rendition has no session.
pub lookup_session-stop_session :
    (key dir : Bytes) (sessions : Sessions) {ss : Session}
    → lookup_session sessions key dir ≡ some ss
    → lookup_session (stop_session key dir sessions) key dir ≡ none
unfolding stop_session
lookup_session-stop_session key dir sessions {ss} h =
    let same = lookup_session-variant_dir key dir sessions {ss = ss} h in
    rw (h, stop_session)
      (subst (λ z. lookup_session (clear_session key ss sessions) key z ≡ none) same
        (lookup_session-clear_session key ss sessions
          (subst (λ z. lookup_session sessions key z ≡ some ss) (sym same) h)))

-- A segment that an encoder has begun and not finished, so that it does not count as complete,
-- counts as complete once stopSession has stopped this encoder: the next ResolveSegment that finds
-- the directory as it was serves the truncated file.
pub resolve_segment-truncated :
    (key : Bytes) (v : Variant) (index : ℕ) (around : Surroundings) (sessions : Sessions)
    {ss : Session}
    → lookup_session sessions key (variant_dir v) ≡ some ss
    → Accepted v index around
    → ss.done ≡ false
    → complete_in around.folder index false ≡ false
    → has_content (stat around.folder (segment_name index)) ≡ true
    → (segment_complete around.folder index (lookup_session sessions key (variant_dir v)) ≡ false)
      × ((resolve_segment key v index around (stop_session key (variant_dir v) sessions)).outcome
          ≡ served (segment_path v index))
resolve_segment-truncated key v index around sessions {ss} found accepted runs unfinished begun = (
  unfold segment_complete in rw (found, runs) unfinished,
  (resolve_segment-served key v index around (stop_session key (variant_dir v) sessions)).1 (
    accepted,
    inl (
        unfold segment_complete in
        rw (lookup_session-stop_session key (variant_dir v) sessions {ss = ss} found, begun) refl),
  ),
)
