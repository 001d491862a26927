-- ===== src/MediaFs/Links.antt =====
-- The links to media items lead back to them (internal/mediafs/service.go).
use sudostream.MediaFs.Resolve.Plain.{resolve_unescaped-some, trim_slash-join}
use sudostream.MediaFs.Resolve.{full_of, service_of}
use sudostream.Text.Laws.Clean.{cleaned-join, IsProper}
use sudostream.Text.Laws.Split.{split_ne}
use sudostream.Prelude.{
  length, ap, ◌∙◌, refl, inr, inl, ◌+◌, ◌%◌, ◌*◌, ◌&&◌, ◌==◌, Bool-cases, ◌/◌, arith, ◌||◌, ◌≢◌,
  if◌then◌else◌, ◌≡◌, ◌<◌, All, ℕ, [], ◌∷◌,
}
use sudostream.Text.{trim_slash, cons_head, split, join, unhex, is_hex, path_unescape, Bytes}
use sudostream.Text.Paths.{is_plain, path_escape, upper_hex}
use sudostream.MediaFs.{
  done, eval_plain, false, contains, resolve, Disk, trim_slash, List, split, join, true, slash,
  some, path_unescape, escape_all, escape_path_segments,
}

-- The escapes of a byte in a path.
abbrev escaped_byte : ℕ → Bytes → Bytes
escaped_byte c rest =
    if is_plain c || c == slash
    then c ∷ rest
    else b'%' ∷ (upper_hex (c / 16) ∷ (upper_hex (c % 16) ∷ rest))

escaped : Bytes → Bytes
escaped [] = []
escaped (c ∷ s) = escaped_byte c (escaped s)

abbrev IsBytes : Bytes → Type 0
IsBytes s = All (λ c. c < 256) s

path_unescape-plain :
    (c : ℕ) (s t : Bytes)
    → c ≢ b'%'
    → path_unescape s ≡ some t
    → path_unescape (c ∷ s) ≡ some (c ∷ t)
unfolding path_unescape
path_unescape-plain c [] t n h = ground arith
path_unescape-plain c (a ∷ []) t n h = ground arith
path_unescape-plain c (a ∷ (b ∷ s)) t n h = ground arith

hex_digits : (c : ℕ) → c < 256 → (is_hex (upper_hex (c / 16)) && is_hex (upper_hex (c % 16))) ≡ true
hex_digits c h = ground arith

hex_value : (c : ℕ) → c < 256 → unhex (upper_hex (c / 16)) * 16 + unhex (upper_hex (c % 16)) ≡ c
hex_value c h = ground arith

path_unescape-hex :
    (c : ℕ) (s t : Bytes)
    → c < 256
    → path_unescape s ≡ some t
    → path_unescape (b'%' ∷ (upper_hex (c / 16) ∷ (upper_hex (c % 16) ∷ s))) ≡ some (c ∷ t)
unfolding path_unescape
path_unescape-hex c s t b h = rw (hex_digits c b, hex_value c b, h) refl

plain_ne : (c : ℕ) → (is_plain c || c == slash) ≡ true → c ≢ b'%'
unfolding is_plain
plain_ne c h e = ground arith

path_unescape-escaped : (s : Bytes) → IsBytes s → path_unescape (escaped s) ≡ some s
unfolding escaped
path_unescape-escaped [] h = unfold path_unescape in refl
path_unescape-escaped (c ∷ s) h = elim (Bool-cases (is_plain c || c == slash)) [
  | inl t ↦ rw t (path_unescape-plain c (escaped s) s (plain_ne c t) (path_unescape-escaped s h.1))
  | inr f ↦ rw f (path_unescape-hex c (escaped s) s h.0 (path_unescape-escaped s h.1))
]

escape_head :
    (c : ℕ) (xs : List Bytes)
    → c ≢ slash
    → xs ≢ []
    → join slash (escape_all (cons_head c xs)) ≡ escaped_byte c (join slash (escape_all xs))
unfolding join path_escape
escape_head c [] n ne = absurd (ne refl)
escape_head c (x ∷ []) n ne = ground arith
escape_head c (x ∷ (y ∷ ys)) n ne = ground arith

escape_nil :
    (xs : List Bytes)
    → xs ≢ []
    → join slash (escape_all ([] ∷ xs)) ≡ slash ∷ join slash (escape_all xs)
unfolding join path_escape
escape_nil [] ne = absurd (ne refl)
escape_nil (x ∷ xs) ne = refl

join-escape_all : (s : Bytes) → join slash (escape_all (split slash s)) ≡ escaped s
unfolding escaped split join
join-escape_all [] = unfold path_escape in refl
join-escape_all (c ∷ s) = elim (Bool-cases (c == slash)) [
  | inl t ↦
      rw (t, split)
        (escape_nil (split slash s) (split_ne slash s) ∙ ground (arith, join-escape_all s))
  | inr f ↦
      rw (f, split)
        (escape_head c (split slash s) (λ e. ground arith) (split_ne slash s)
          ∙ ground (arith, join-escape_all s))
]

path_unescape-escape_path_segments :
    (rel_path : Bytes)
    → IsBytes rel_path
    → path_unescape (escape_path_segments rel_path) ≡ some rel_path
unfolding escape_path_segments
path_unescape-escape_path_segments [] h = unfold path_unescape in refl
path_unescape-escape_path_segments (c ∷ s) h =
    rw (join-escape_all (c ∷ s)) (path_unescape-escaped (c ∷ s) h)

-- A link does not start with a slash where the path does not.
trim_slash-escape_path_segments :
    (s : Bytes) → trim_slash s ≡ s → trim_slash (escape_path_segments s) ≡ escape_path_segments s
unfolding escape_path_segments trim_slash
trim_slash-escape_path_segments [] h = refl
trim_slash-escape_path_segments (c ∷ s) h =
    rw (join-escape_all (c ∷ s)) (unfold escaped trim_slash in ground (arith, ap length h))

module _ (r : Bytes) (rs : List Bytes) (root_proper : All IsProper (r ∷ rs)) (d : Disk) where
  -- The path that EscapePathSegments makes for the links to an item resolves to that item, whatever
  -- bytes its names consist of, percent signs included.
  pub resolve-escape_path_segments :
      (segs : List Bytes)
      → All IsProper segs
      → IsBytes (join slash segs)
      → contains (join slash segs) (0 ∷ []) ≡ false
      → resolve (eval_plain d) (service_of r rs) (escape_path_segments (join slash segs))
        ≡ done (full_of r rs segs, join slash segs)
  unfolding resolve
  resolve-escape_path_segments segs p b n =
      rw
        (
          trim_slash-escape_path_segments (join slash segs) (trim_slash-join segs p),
          path_unescape-escape_path_segments (join slash segs) b,
          resolve_unescaped-some r rs root_proper d (join slash segs) n,
          cleaned-join segs p,
        )
        refl
