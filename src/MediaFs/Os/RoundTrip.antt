-- ===== src/MediaFs/Os/RoundTrip.antt =====
-- Where a tree is found that is renamed, on the disk of internal/mediafs.
use sudostream.Prelude.{refl, ◌++◌, ◌∙◌, ◌≡◌}
use sudostream.MediaFs.Os.{none, false, drop_within, find, FilePath, relocate, within}
use sudostream.MediaFs.Os.Paths.{
  strip-append, within_false→strip, within-append, within-append_false,
}
use sudostream.MediaFs.Os.Views.{drop_within-IsClear, Entries, find-drop_within, find-relocate}

pub find-drop_within_apart :
    (q p : FilePath) (es : Entries) → within p q ≡ false → find q (drop_within p es) ≡ find q es
find-drop_within_apart q p es h = rw (find-drop_within q p es, h) refl

-- A tree renamed.
abbrev pub once : FilePath → FilePath → Entries → Entries
once source target es = relocate source target (drop_within target es)

module _ (source target : FilePath) (apart : within source target ≡ false)
    (apart' : within target source ≡ false) (es : Entries) where
  -- What was at or below the source is found below the target.
  pub find_at_target :
      (r : FilePath) → find (target ++ r) (once source target es) ≡ find (source ++ r) es
  find_at_target r =
      find-relocate (target ++ r) source target (drop_within target es)
        (drop_within-IsClear target es)
      ∙ rw (strip-append target r) (
          find-drop_within_apart (source ++ r) target es
            (within-append_false target source r apart' apart))

  pub find_at_source : (r : FilePath) → find (source ++ r) (once source target es) ≡ none
  find_at_source r =
      find-relocate (source ++ r) source target (drop_within target es)
        (drop_within-IsClear target es)
      ∙ rw
          (
            within_false→strip target (source ++ r)
                (within-append_false target source r apart' apart),
            within-append source r,
          )
          refl

  -- The rest of the disk is as it was.
  pub find_elsewhere :
      (q : FilePath)
      → within source q ≡ false
      → within target q ≡ false
      → find q (once source target es) ≡ find q es
  find_elsewhere q s t =
      find-relocate q source target (drop_within target es) (drop_within-IsClear target es)
      ∙ rw (within_false→strip target q t, s) (find-drop_within_apart q target es t)
