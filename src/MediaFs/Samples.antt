-- ===== src/MediaFs/Samples.antt =====
-- A media root for the tests of the file system and of the recycle bin.
use sudostream.MediaFs.Os.{find}
use sudostream.MediaFs.Trash.Done.{below}
use sudostream.MediaFs.Os.{path_eq}
use sudostream.MediaFs.Os.Directories.{DirsBelow}
use sudostream.Text.Laws.Clean.{IsProper}
use sudostream.Text.Laws.Decide.{is_proper→IsProper, free_of→IsLiteral, IsLiteral}
use sudostream.Prelude.{none, All, refl, [], ◌∷◌}
use sudostream.Text.{join, bytes_eq, Bytes, codes}
use sudostream.MediaFs.{slash, join, bytes_eq, List, false}
use sudostream.MediaFs.Os.{parent, Disk, dir, file}

abbrev pub movie : Bytes
movie = codes "b.mkv"

abbrev pub sample : Disk
sample = record {
  read_only = false;
  stuck = λ p. none;
  entries =
      (codes "m" ∷ [], dir)
      ∷ ((codes "m" ∷ (codes "d" ∷ []), dir)
          ∷ ((codes "m" ∷ (codes "d" ∷ (movie ∷ [])), file (codes "film")) ∷ []));
}

abbrev pub names : List Bytes
names = codes "d" ∷ (movie ∷ [])

abbrev pub item : Bytes
item = codes "7-a"

pub names-IsProper : All IsProper names
unfolding bytes_eq
names-IsProper = (is_proper→IsProper (codes "d") refl, (is_proper→IsProper movie refl, tt))

pub root-IsProper : All IsProper (codes "m" ∷ [])
unfolding bytes_eq
root-IsProper = (is_proper→IsProper (codes "m") refl, tt)

pub item-IsProper : IsProper item
unfolding bytes_eq
item-IsProper = is_proper→IsProper item refl

pub item-IsLiteral : IsLiteral item
item-IsLiteral = free_of→IsLiteral item refl

pub names-IsLiteral : IsLiteral (join slash names)
unfolding join
names-IsLiteral = free_of→IsLiteral (join slash names) refl

pub above : DirsBelow [] (parent (below (codes "m") [] names)) sample.entries
unfolding find path_eq bytes_eq parent join
above = (refl, (refl, tt))
