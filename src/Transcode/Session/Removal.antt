-- ===== src/Transcode/Session/Removal.antt =====
-- What a restart removes from the directory of a rendition, and what is left of the encoder
-- before it (internal/transcode/session.go).
use sudostream.Prelude.{
  [], All, ap, arith, Bool, Bool-cases, false, first, inl, inr, keep, List, none, not, refl, some,
  true, ℕ, ◌<◌, ◌^◌, ◌∙◌, ◌∷◌, ◌≡◌, ◌≤◌, ◌⊎◌,
}
use sudostream.Text.{bytes_eq}
use sudostream.Text.Laws.Equality.{bytes_eq→eq}
use sudostream.Transcode.Segment.{segment_index_from_name, segment_name}
use sudostream.Transcode.Segment.Names.{segment_index_from_name-segment_name}
use sudostream.Transcode.Session.{
  complete_in, Entry, entry_index, Folder, removable, remove_segments_from, stat,
}
use sudostream.Transcode.Session.Files.{entries_of}

file_index :
    (e : Entry) (i : ℕ)
    → i < 2 ^ 63
    → e.is_dir ≡ false
    → bytes_eq e.name (segment_name i) ≡ true
    → entry_index e ≡ some i
file_index e i lt file h = rw file (
    ap segment_index_from_name (bytes_eq→eq e.name (segment_name i) h)
    ∙ segment_index_from_name-segment_name i lt)

named_index :
    (e : Entry) (i : ℕ)
    → i < 2 ^ 63
    → bytes_eq e.name (segment_name i) ≡ true
    → (entry_index e ≡ none) ⊎ (entry_index e ≡ some i)
named_index e i lt h = elim (Bool-cases (e.is_dir)) [
  | inl dir ↦ inl (rw dir refl)
  | inr file ↦ inr (file_index e i lt file h)
]

kept_below :
    (e : Entry) (i index : ℕ)
    → i < index
    → (entry_index e ≡ none) ⊎ (entry_index e ≡ some i)
    → removable index (entry_index e) ≡ false
kept_below e i index lt (inl q) = rw q refl
kept_below e i index lt (inr q) = rw q (ground arith)

stat_keep :
    (es : List Entry) (i index : ℕ)
    → i < index
    → i < 2 ^ 63
    → first
        (λ e. bytes_eq e.name (segment_name i))
        (keep (λ e. not (removable index (entry_index e))) es)
      ≡ first (λ e. bytes_eq e.name (segment_name i)) es
stat_keep [] i index lt max = refl
stat_keep (e ∷ es) i index lt max = elim (Bool-cases (bytes_eq e.name (segment_name i))) [
  | inl hit ↦ rw (kept_below e i index lt (named_index e i max hit), hit) refl
  | inr miss ↦ elim (Bool-cases (removable index (entry_index e))) [
    | inl gone ↦ rw (gone, miss) (stat_keep es i index lt max)
    | inr kept ↦ rw (kept, miss) (stat_keep es i index lt max)
  ]
]

-- Every segment below the index is still there as it was.
pub remove_segments_from-stat :
    (folder : Folder) (i index : ℕ)
    → i < index
    → i < 2 ^ 63
    → stat (remove_segments_from index folder) (segment_name i) ≡ stat folder (segment_name i)
unfolding remove_segments_from
remove_segments_from-stat none i index lt max = refl
remove_segments_from-stat (some es) i index lt max = stat_keep es i index lt max

stat_gone :
    (es : List Entry) (i index : ℕ)
    → index ≤ i
    → i < 2 ^ 63
    → All (λ e. e.is_dir ≡ false) es
    → first
        (λ e. bytes_eq e.name (segment_name i))
        (keep (λ e. not (removable index (entry_index e))) es)
      ≡ none
stat_gone [] i index le max files = refl
stat_gone (e ∷ es) i index le max files = elim (Bool-cases (removable index (entry_index e))) [
  | inl gone ↦ rw gone (stat_gone es i index le max files.1)
  | inr kept ↦ elim (Bool-cases (bytes_eq e.name (segment_name i))) [
    | inl hit ↦ absurd (ground (arith, rw (file_index e i max files.0 hit) at kept))
    | inr miss ↦ rw (kept, miss) (stat_gone es i index le max files.1)
  ]
]

-- In a directory of files, no segment from the index on counts as complete any more.
pub remove_segments_from-complete_in :
    (folder : Folder) (i index : ℕ) (gone : Bool)
    → All (λ e. e.is_dir ≡ false) (entries_of folder)
    → index ≤ i
    → i < 2 ^ 63
    → complete_in (remove_segments_from index folder) i gone ≡ false
unfolding remove_segments_from
remove_segments_from-complete_in none i index gone files le max = refl
remove_segments_from-complete_in (some es) i index gone files le max =
    rw (stat_gone es i index le max files) refl
