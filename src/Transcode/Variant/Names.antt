-- ===== src/Transcode/Variant/Names.antt =====
-- The resource of a segment gives back its rendition and its index (internal/transcode/variant.go).
use sudostream.Prelude.{
  [], All-append, ap, ap₂, arith, Bool-cases, false, inl, inr, length, ltb, refl, some, suc, sym,
  zero, ℕ, ◌++◌, ◌-◌, ◌/◌, ◌<◌, ◌==◌, ◌^◌, ◌∙◌, ◌∷◌, ◌≡◌, ◌≢◌,
}
use sudostream.Text.{Bytes, slash, split, trim_slash}
use sudostream.Text.Decimal.{decimal, decimal_padded, digits_onto, zeros}
use sudostream.Text.Laws.Split.{SepFree, split-append_sep, split_of_SepFree}
use sudostream.Transcode.Segment.{
  atoi_index, segment_digits, segment_ext, segment_name, segment_prefix,
}
use sudostream.Transcode.Segment.Names.{
  atoi_index-decimal, decimal_ne, segment_index_from_name-segment_name,
}
use sudostream.Transcode.Variant.{
  audio, dir_of, kind_of, parse_variant_dir, split_parts, split_segment_resource, Variant,
  variant_dir, VariantKind, video, with_index, with_value,
}

digits_onto-SepFree :
    (fuel n : ℕ) (tail : Bytes) → SepFree slash tail → SepFree slash (digits_onto fuel n tail)
unfolding digits_onto
digits_onto-SepFree zero n tail h = h
digits_onto-SepFree (suc fuel) n tail h = elim (Bool-cases (ltb n 10)) [
  | inl small ↦ rw small (λ e. omega arith, h)
  | inr big ↦ rw big (digits_onto-SepFree fuel (n / 10) _ (λ e. omega arith, h))
]

decimal-SepFree : (n : ℕ) → SepFree slash (decimal n)
unfolding decimal
decimal-SepFree n = digits_onto-SepFree (suc n) n [] tt

zeros-SepFree : (k : ℕ) → SepFree slash (zeros k)
unfolding zeros
zeros-SepFree zero = tt
zeros-SepFree (suc k) = (λ e. omega arith, zeros-SepFree k)

segment_name-SepFree : (index : ℕ) → SepFree slash (segment_name index)
unfolding segment_name decimal_padded
segment_name-SepFree index =
    All-append _ segment_prefix _
      (λ e. omega arith, (λ e. omega arith, (λ e. omega arith, (λ e. omega arith, tt))))
      (All-append _ (decimal_padded segment_digits index) segment_ext
        (All-append _ (zeros (segment_digits - length (decimal index))) (decimal index)
          (zeros-SepFree _) (decimal-SepFree index))
        (λ e. omega arith, (λ e. omega arith, (λ e. omega arith, tt))))

dir_of-SepFree : (kind : VariantKind) (n : ℕ) → SepFree slash (dir_of kind n)
dir_of-SepFree audio n = (λ e. omega arith, decimal-SepFree n)
dir_of-SepFree video n = (λ e. omega arith, decimal-SepFree n)

-- A rung of the ladder has a height.
abbrev pub IsRendition : VariantKind → ℕ → Type 0
IsRendition audio n = Unit
IsRendition video n = n ≢ 0

parse-letter :
    (letter value : ℕ)
    → value < 2 ^ 63
    → parse_variant_dir (letter ∷ decimal value) ≡ kind_of letter value
parse-letter letter value h = by_digits (decimal value) refl
  where
    by_digits :
        (s : Bytes) → decimal value ≡ s → parse_variant_dir (letter ∷ s) ≡ kind_of letter value
    by_digits [] e = absurd (decimal_ne value e)
    by_digits (c ∷ s) e =
        unfold parse_variant_dir in
        ap (with_value letter) (ap atoi_index (sym e) ∙ atoi_index-decimal value h)

parse-dir_of :
    (kind : VariantKind) (n : ℕ)
    → IsRendition kind n
    → n < 2 ^ 63
    → parse_variant_dir (dir_of kind n) ≡ some (record { kind = kind; value = n })
parse-dir_of audio n proper h = parse-letter b'a' n h
parse-dir_of video n proper h =
    parse-letter b'v' n h ∙ (let e : (n == 0) ≡ false = ground (arith, proper) in rw e refl)

-- ParseVariantDir inverts Variant.Dir on the audio renditions and the rungs with a height, where
-- the number is an int.
pub parse_variant_dir-variant_dir :
    (v : Variant)
    → IsRendition v.kind v.value
    → v.value < 2 ^ 63
    → parse_variant_dir (variant_dir v) ≡ some v
unfolding variant_dir
parse_variant_dir-variant_dir v proper h = parse-dir_of v.kind v.value proper h

trim_slash-dir_of :
    (kind : VariantKind) (n : ℕ) (s : Bytes) → trim_slash (dir_of kind n ++ s) ≡ dir_of kind n ++ s
unfolding trim_slash
trim_slash-dir_of audio n s = refl
trim_slash-dir_of video n s = refl

-- SplitSegmentResource gives back the rendition and the index of `<dir>/<segment>`, for an audio
-- rendition or a rung with a height, where the numbers are ints.
pub split_segment_resource-variant_dir :
    (v : Variant) (index : ℕ)
    → IsRendition v.kind v.value
    → v.value < 2 ^ 63
    → index < 2 ^ 63
    → split_segment_resource (variant_dir v ++ (slash ∷ segment_name index)) ≡ some (v, index)
unfolding split_segment_resource variant_dir
split_segment_resource-variant_dir v index proper h k =
    ap (λ s. split_parts (split slash s))
      (trim_slash-dir_of v.kind v.value (slash ∷ segment_name index))
    ∙ ap split_parts (
        split-append_sep slash (dir_of v.kind v.value) (segment_name index)
        ∙ ap₂ (◌++◌)
            (split_of_SepFree slash (dir_of v.kind v.value) (dir_of-SepFree v.kind v.value))
            (split_of_SepFree slash (segment_name index) (segment_name-SepFree index)))
    ∙ ap₂ with_index (parse-dir_of v.kind v.value proper h)
        (segment_index_from_name-segment_name index k)
