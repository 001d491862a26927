-- ===== src/Transcode/AudioSelect/Choice.antt =====
-- What the choice of an audio track guarantees (internal/transcode/audio_select.go).
use sudostream.Prelude.{
  ◌∙◌, sym, ap, subst, refl, zero, ap₂, some-eq, [], inr, arith, inl, Bool-cases, Option-cases,
  true, suc, not, false, Any, some, ◌∷◌, ◌≡◌,
}
use sudostream.Text.{Bytes}
use sudostream.Transcode.AudioSelect.{
  List, Bool, ℕ, AudioStream, find_index, speaks, shift, or_else, preferred_index,
  select_default_audio_stream_index, normalize_language_prefs,
}

-- The entry at a position is there and has the property.
abbrev pub At {ℓ} : {A : Type ℓ} → (A → Type 0) → ℕ → List A → Type 0
At P i [] = ⊥
At P zero (x ∷ xs) = P x
At P (suc i) (x ∷ xs) = At P i xs

module _ {ℓ} {A : Type ℓ} where
  At-map :
      (P Q : A → Type 0) → ((x : A) → P x → Q x) → (i : ℕ) (xs : List A) → At P i xs → At Q i xs
  At-map P Q f i [] h = absurd h
  At-map P Q f zero (x ∷ xs) h = f x h
  At-map P Q f (suc i) (x ∷ xs) h = At-map P Q f i xs h

  find_index-At :
      (p : A → Bool) (xs : List A) {i : ℕ} → find_index p xs ≡ some i → At (λ x. p x ≡ true) i xs
  find_index-At p [] h = absurd (cc)
  find_index-At p (x ∷ xs) {i} h = elim (Bool-cases (p x)) [
    | inl t ↦
        let e : 0 ≡ i = some-eq (rw t at h) in subst (λ j. At (λ y. p y ≡ true) j (x ∷ xs)) e t
    | inr f ↦ elim (Option-cases (find_index p xs)) [
      | inl n ↦ absurd (cc (ap shift (sym n) ∙ (rw f at h)))
      | inr (j, e) ↦
          let k : suc j ≡ i = some-eq (ap shift (sym e) ∙ (rw f at h)) in
          subst (λ m. At (λ y. p y ≡ true) m (x ∷ xs)) k (find_index-At p xs e)
    ]
  ]

  find_index-Any :
      (p : A → Bool) (xs : List A) → Any (λ x. p x ≡ true) xs → (i : ℕ) × (find_index p xs ≡ some i)
  find_index-Any p [] a = absurd a
  find_index-Any p (x ∷ xs) (inl t) = (0, rw t refl)
  find_index-Any p (x ∷ xs) (inr a) = elim (Bool-cases (p x)) [
    | inl t ↦ (0, rw t refl)
    | inr f ↦ let (i, e) = find_index-Any p xs a in (suc i, rw (f, e) refl)
  ]

abbrev IsPlainTrack : AudioStream → Type 0
IsPlainTrack stream = stream.commentary ≡ false

plain_of_not : (b : Bool) → not b ≡ true → b ≡ false
plain_of_not b h = ground arith

preferred_index-At :
    (prefs : List Bytes) (streams : List AudioStream) {i : ℕ}
    → preferred_index prefs streams ≡ some i
    → At IsPlainTrack i streams
unfolding preferred_index
preferred_index-At [] streams h = absurd (cc)
preferred_index-At (pref ∷ prefs) streams {i} h =
    elim (Option-cases (find_index (speaks pref) streams)) [
      | inl n ↦ preferred_index-At prefs streams (rw n at h)
      | inr (j, e) ↦
          let same : j ≡ i = some-eq (rw e at h) in
          subst (λ k. At IsPlainTrack k streams) same
            (At-map (λ s. speaks pref s ≡ true) IsPlainTrack (λ s t. ground (arith, t)) j streams
              (find_index-At (speaks pref) streams e))
    ]

-- Where some track is no commentary, SelectDefaultAudioStreamIndex returns the position of one that
-- is none, whatever languages the user prefers.
pub select_default_audio_stream_index-At :
    (streams : List AudioStream) (user_languages : List Bytes)
    → Any (λ stream. not stream.commentary ≡ true) streams
    → (i : ℕ) × (select_default_audio_stream_index streams user_languages ≡ some i)
      × At (λ stream. stream.commentary ≡ false) i streams
unfolding select_default_audio_stream_index
select_default_audio_stream_index-At [] langs a = absurd a
select_default_audio_stream_index-At (s ∷ ss) langs a =
    elim (Option-cases (preferred_index (normalize_language_prefs langs) (s ∷ ss))) [
      | inr (i, e) ↦ (i, rw e refl, preferred_index-At (normalize_language_prefs langs) (s ∷ ss) e)
      | inl n ↦
          let (i, e) = find_index-Any (λ (t : AudioStream). not t.commentary) (s ∷ ss) a in
          (
            i,
            ap₂ or_else n (ap (λ o. or_else o (some 0)) e),
            At-map (λ t. not t.commentary ≡ true) IsPlainTrack (λ t h. plain_of_not t.commentary h)
                i (s ∷ ss) (find_index-At (λ t. not t.commentary) (s ∷ ss) e),
          )
    ]
