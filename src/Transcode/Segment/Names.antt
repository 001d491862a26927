-- ===== src/Transcode/Segment/Names.antt =====
-- A segment's name gives its index back (internal/transcode/playlist_vod.go).
use mathlib.Core.List.{append_assoc, reverse-append, reverse-reverse}
use sudostream.Prelude.{
  [], arith, Bool-cases, false, inl, inr, length, ltb, lt→ltb, refl, reverse, some, suc, sym, true,
  zero, ℕ, ◌%◌, ◌*◌, ◌++◌, ◌+◌, ◌-◌, ◌/◌, ◌<◌, ◌==◌, ◌^◌, ◌∙◌, ◌∷◌, ◌≡◌, ◌≢◌, ◌≤◌,
}
use sudostream.Text.{Bytes, has_prefix}
use sudostream.Text.Decimal.{decimal, decimal_padded, digits_onto, is_digit, read_digits, zeros}
use sudostream.Text.Laws.Prefix.{has_prefix-append}
use sudostream.Transcode.Segment.{
  atoi_index, has_suffix, segment_digits, segment_ext, segment_index_from_name, segment_name,
  segment_prefix, trim_prefix, trim_suffix,
}

is_digit-add : (d : ℕ) → d < 10 → is_digit (b'0' + d) ≡ true
is_digit-add d h = ground arith

read_digits-cons :
    (acc d m : ℕ) (tail : Bytes)
    → d < 10
    → acc * 10 + d ≡ m
    → read_digits acc ((b'0' + d) ∷ tail) ≡ read_digits m tail
unfolding read_digits
read_digits-cons acc d m tail h e =
    let q : acc * 10 + ((b'0' + d) - b'0') ≡ m = omega arith in rw (is_digit-add d h, q) refl

-- Reading the digits that were written goes on from the number.
read-digits_onto :
    (fuel n : ℕ) (tail : Bytes)
    → n < fuel
    → read_digits 0 (digits_onto fuel n tail) ≡ read_digits n tail
unfolding digits_onto
read-digits_onto zero n tail h = absurd (omega arith)
read-digits_onto (suc fuel) n tail h = elim (Bool-cases (ltb n 10)) [
  | inl small ↦ rw small (read_digits-cons 0 n n tail (ground arith) (omega arith))
  | inr big ↦
      let ten : 10 ≤ n = ground arith in
      rw big (
        read-digits_onto fuel (n / 10) _ (omega arith)
        ∙ read_digits-cons (n / 10) (n % 10) n tail (omega arith) (omega arith))
]

digits_onto_ne : (fuel n c : ℕ) (tail : Bytes) → digits_onto fuel n (c ∷ tail) ≢ []
unfolding digits_onto
digits_onto_ne zero n c tail e = cc
digits_onto_ne (suc fuel) n c tail e = elim (Bool-cases (ltb n 10)) [
  | inl small ↦ cc (rw small at e)
  | inr big ↦ digits_onto_ne fuel (n / 10) _ (c ∷ tail) (rw big at e)
]

pub decimal_ne : (n : ℕ) → decimal n ≢ []
unfolding decimal digits_onto
decimal_ne n e = elim (Bool-cases (ltb n 10)) [
  | inl small ↦ cc (rw small at e)
  | inr big ↦ digits_onto_ne n (n / 10) _ [] (rw big at e)
]

read-decimal : (n : ℕ) → read_digits 0 (decimal n) ≡ some n
unfolding decimal read_digits
read-decimal n = read-digits_onto (suc n) n [] (omega arith)

read-zeros : (k : ℕ) (s : Bytes) → read_digits 0 (zeros k ++ s) ≡ read_digits 0 s
unfolding zeros read_digits
read-zeros zero s = refl
read-zeros (suc k) s = read-zeros k s

padded_ne : (width n : ℕ) → decimal_padded width n ≢ []
unfolding decimal_padded zeros
padded_ne width n = zeros_ne (width - length (decimal n))
  where
    zeros_ne : (k : ℕ) → zeros k ++ decimal n ≢ []
    zeros_ne zero e = decimal_ne n e
    zeros_ne (suc k) e = cc

digit_head : (acc c n : ℕ) (s : Bytes) → read_digits acc (c ∷ s) ≡ some n → is_digit c ≡ true
unfolding read_digits
digit_head acc c n s h = elim (Bool-cases (is_digit c)) [
  | inl t ↦ t
  | inr f ↦ absurd (cc (rw f at h))
]

-- Atoi on digits.
pub atoi_index_of_digits :
    (n : ℕ) (s : Bytes) → s ≢ [] → read_digits 0 s ≡ some n → n < 2 ^ 63 → atoi_index s ≡ some n
unfolding atoi_index
atoi_index_of_digits n [] ne h lt = absurd (ne refl)
atoi_index_of_digits n (c ∷ s) ne h lt =
    let digit = digit_head 0 c n s h in
    let plus : (c == b'+') ≡ false = ground arith in
    let minus : (c == b'-') ≡ false = ground arith in rw (plus, minus, h, lt→ltb n (2 ^ 63) lt) refl

pub atoi_index-decimal : (n : ℕ) → n < 2 ^ 63 → atoi_index (decimal n) ≡ some n
atoi_index-decimal n = atoi_index_of_digits n (decimal n) (decimal_ne n) (read-decimal n)

has_suffix-append : (a b : Bytes) → has_suffix (a ++ b) b ≡ true
unfolding has_suffix
has_suffix-append a b = rw (reverse-append a b) (has_prefix-append (reverse b) (reverse a))

trim_suffix-append : (a : Bytes) → trim_suffix (a ++ segment_ext) segment_ext ≡ a
unfolding trim_suffix
trim_suffix-append a =
    rw (has_suffix-append a segment_ext, reverse-append a segment_ext) (reverse-reverse a)

trim_prefix-append : (a : Bytes) → trim_prefix (segment_prefix ++ a) segment_prefix ≡ a
unfolding trim_prefix has_prefix
trim_prefix-append a = refl

-- SegmentIndexFromName gives back the index that SegmentName wrote, for every index of an int.
pub segment_index_from_name-segment_name :
    (index : ℕ) → index < 2 ^ 63 → segment_index_from_name (segment_name index) ≡ some index
unfolding segment_index_from_name segment_name
segment_index_from_name-segment_name index lt =
    rw
      (
        has_prefix-append segment_prefix (decimal_padded segment_digits index ++ segment_ext),
        suffixed,
        trim_prefix-append (decimal_padded segment_digits index ++ segment_ext),
        trim_suffix-append (decimal_padded segment_digits index),
      )
      (atoi_index_of_digits index (decimal_padded segment_digits index)
        (padded_ne segment_digits index)
        (unfold decimal_padded in read-zeros _ (decimal index) ∙ read-decimal index) lt)
  where
    suffixed :
        has_suffix
          (segment_prefix ++ (decimal_padded segment_digits index ++ segment_ext))
          segment_ext
        ≡ true
    suffixed =
        rw (sym (append_assoc segment_prefix (decimal_padded segment_digits index) segment_ext))
          (has_suffix-append (segment_prefix ++ decimal_padded segment_digits index) segment_ext)
