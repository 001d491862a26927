-- ===== src/Transcode/Session/Registry.antt =====
-- The map of running encoders, where an exit and a restart overlap
-- (internal/transcode/session.go).
use sudostream.Prelude.{
  [], ap, arith, Bool, Bool-cases, false, if◌then◌else◌, inl, inr, keep, List, not, refl, some, sym,
  ◌∙◌, ◌∷◌, ◌≡◌, ◌≢◌,
}
use sudostream.Text.{Bytes}
use sudostream.Text.Laws.Equality.{bytes_eq_refl}
use sudostream.Transcode.Session.{
  at_key, clear_session, lookup_session, register_session, same_handle, Session, Sessions,
}

keep_idem {ℓ} : {A : Type ℓ} (p : A → Bool) (xs : List A) → keep p (keep p xs) ≡ keep p xs
keep_idem p [] = refl
keep_idem p (x ∷ xs) = elim (Bool-cases (p x)) [
  | inl t ↦ rw t (rw t (ap (λ ys. x ∷ ys) (keep_idem p xs)))
  | inr f ↦ rw f (keep_idem p xs)
]

-- The session that was registered is the one that is found.
lookup_session-register_session :
    (key : Bytes) (ss : Session) (sessions : Sessions)
    → lookup_session (register_session key ss sessions) key ss.variant_dir ≡ some ss
unfolding lookup_session register_session
lookup_session-register_session key ss sessions =
    rw (bytes_eq_refl key, bytes_eq_refl (ss.variant_dir)) refl

-- awaitSession clears an encoder that was stopped at any time after the one in its place may have
-- been registered: for two encoders of one rendition, clearing the old one after the new one was
-- registered gives the same map as clearing it before.
pub clear_session-register_session :
    (key : Bytes) (old new : Session) (sessions : Sessions)
    → old.handle ≢ new.handle
    → old.variant_dir ≡ new.variant_dir
    → clear_session key old (register_session key new sessions)
      ≡ register_session key new (clear_session key old sessions)
unfolding clear_session
clear_session-register_session key old new sessions distinct same =
    ap
      (λ (b : Bool).
        if b
        then cleared (register_session key new sessions)
        else register_session key new sessions)
      kept
    ∙ elim (Bool-cases (same_handle old (lookup_session sessions key old.variant_dir))) [
      | inl mine ↦ rw mine again
      | inr other ↦ rw other refl
    ]
  where
    cleared : Sessions → Sessions
    cleared s = keep (λ e. not (at_key key old.variant_dir e)) s

    kept :
        same_handle old (lookup_session (register_session key new sessions) key old.variant_dir)
        ≡ false
    kept = rw (same, lookup_session-register_session key new sessions) (ground (arith, distinct))

    again : register_session key new sessions ≡ register_session key new (cleared sessions)
    again =
        unfold register_session in
        rw same (ap (λ (s : Sessions). (key, new) ∷ s) (sym (keep_idem _ sessions)))
