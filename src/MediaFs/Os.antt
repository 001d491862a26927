-- ===== src/MediaFs/Os.antt =====
-- What internal/mediafs uses of the package os: a disk as its entries by path, without symbolic
-- links, that may be mounted read-only. A path is the list of its names from the file system's root.
pub mod Paths
pub mod Views
pub mod Directories
pub mod RoundTrip
pub mod Renames
use sudostream.Prelude.{
  not, ◌||◌, ◌>>=◌, [], Bool, Fallible, List, Option, done, fail, false, if◌then◌else◌, none, some,
  true, ◌&&◌, ◌++◌, ◌∷◌,
}
use sudostream.Text.{Bytes, bytes_eq, is_empty, slash, split}

abbrev pub FilePath : Type 0
FilePath = List Bytes

pub data Node : Type 0 where
  dir : Node
  file : Bytes → Node

-- The errors that the program tells apart: os.ErrNotExist, a file system or a directory that
-- cannot be written (EROFS, EACCES), and the rest.
pub data OsError : Type 0 where
  not_exist write_denied os_failed : OsError

-- A disk. `stuck` tells with which error the system refuses to remove the entry at a path, as it does
-- in a directory that cannot be written, of a mount point, or of an immutable file.
pub record Disk : Type 0 where
  pub read_only : Bool
  pub stuck : FilePath → Option OsError
  pub entries : List (FilePath × Node)

-- What is left of the path `k` below `p`.
unfoldable pub strip : FilePath → FilePath → Option FilePath
strip [] k = some k
strip (a ∷ p) [] = none
strip (a ∷ p) (b ∷ k) = let rest = strip p k in if bytes_eq a b then rest else none

abbrev pub is_some {ℓ} : {A : Type ℓ} → Option A → Bool
is_some none = false
is_some (some a) = true

-- `k` is `p` or lies below it.
unfoldable pub within : FilePath → FilePath → Bool
within p k = is_some (strip p k)

unfoldable pub path_eq : FilePath → FilePath → Bool
path_eq [] [] = true
path_eq [] (b ∷ k) = false
path_eq (a ∷ p) [] = false
path_eq (a ∷ p) (b ∷ k) = bytes_eq a b && path_eq p k

unfoldable pub find : FilePath → List (FilePath × Node) → Option Node
find p [] = none
find p ((k, n) ∷ es) = let rest = find p es in if path_eq k p then some n else rest

abbrev pub names_of : List Bytes → FilePath
names_of [] = []
names_of (x ∷ xs) = let rest = names_of xs in if is_empty x then rest else x ∷ rest

-- The names of a path in the notation with slashes; the kernel skips empty ones.
unfoldable pub os_path : Bytes → FilePath
os_path s = names_of (split slash s)

-- os.Stat; the file system's root is always there.
unfoldable pub stat : Disk → FilePath → Option Node
unfolding find
stat d [] = some dir
stat d (x ∷ p) = find (x ∷ p) d.entries

-- The entries that do not lie at or below `p`.
unfoldable pub drop_within : FilePath → List (FilePath × Node) → List (FilePath × Node)
drop_within p [] = []
drop_within p ((k, n) ∷ es) =
    let rest = drop_within p es in if within p k then rest else (k, n) ∷ rest

-- The name of an entry of the directory `p`.
abbrev child_name : Option FilePath → List Bytes → List Bytes
child_name (some (x ∷ [])) rest = x ∷ rest
child_name other rest = rest

abbrev pub children_of : FilePath → List (FilePath × Node) → List Bytes
children_of p [] = []
children_of p ((k, n) ∷ es) = child_name (strip p k) (children_of p es)

-- os.ReadDir, by name; the caller that needs an order sorts.
unfoldable pub read_dir : Disk → FilePath → Fallible OsError (List Bytes)
read_dir d p = elim (stat d p) [
  | none ↦ fail not_exist
  | some (file b) ↦ fail os_failed
  | some dir ↦ done (children_of p d.entries)
]

-- os.MkdirAll: the directories on the way from `at` that are missing.
unfoldable pub make_dirs :
    Bool → FilePath → FilePath → List (FilePath × Node) → Fallible OsError (List (FilePath × Node))
make_dirs read_only at [] es = done es
make_dirs read_only at (x ∷ rest) es = elim (find (at ++ (x ∷ [])) es) [
  | none ↦
      if read_only
      then fail write_denied
      else make_dirs read_only (at ++ (x ∷ [])) rest ((at ++ (x ∷ []), dir) ∷ es)
  | some dir ↦ make_dirs read_only (at ++ (x ∷ [])) rest es
  | some (file b) ↦ fail os_failed
]

abbrev pub with_entries : Disk → List (FilePath × Node) → Disk
with_entries d es = record d { entries = es }

unfoldable pub mkdir_all : FilePath → Disk → Fallible OsError Disk
mkdir_all p d = make_dirs d.read_only [] p d.entries >>= λ es. done (with_entries d es)

-- Where an entry at `k` goes when `source` is renamed to `target`.
abbrev pub moved : FilePath → FilePath → Option FilePath → FilePath
moved k target none = k
moved k target (some r) = target ++ r

unfoldable pub relocate : FilePath → FilePath → List (FilePath × Node) → List (FilePath × Node)
relocate source target [] = []
relocate source target ((k, n) ∷ es) =
    (moved k target (strip source k), n) ∷ relocate source target es

abbrev pub is_empty_list {ℓ} : {A : Type ℓ} → List A → Bool
is_empty_list [] = true
is_empty_list (x ∷ xs) = false

-- What may stand at the target of os.Rename: it refuses every directory itself.
abbrev pub may_replace : Node → Option Node → Bool
may_replace n none = true
may_replace (file b) (some (file c)) = true
may_replace n other = false

abbrev pub is_dir : Option Node → Bool
is_dir (some dir) = true
is_dir other = false

-- filepath.Dir.
unfoldable pub parent : FilePath → FilePath
parent [] = []
parent (x ∷ []) = []
parent (x ∷ (y ∷ p)) = x ∷ parent (y ∷ p)

-- os.Rename, of two paths one of which is not the other.
unfoldable pub rename : FilePath → FilePath → Disk → Fallible OsError Disk
rename source target d = elim (stat d source) [
  | none ↦ fail not_exist
  | some n ↦
      if d.read_only
      then fail write_denied
      else if within source target
          || not (is_dir (stat d (parent target)))
          || not (may_replace n (stat d target))
      then fail os_failed
      else done (with_entries d (relocate source target (drop_within target d.entries)))
]

-- The first error of an entry at or below `p` that cannot be removed.
abbrev or_next : Option OsError → Option OsError → Option OsError
or_next none rest = rest
or_next (some e) rest = some e

unfoldable pub first_stuck :
    FilePath → (FilePath → Option OsError) → List (FilePath × Node) → Option OsError
first_stuck p stuck [] = none
first_stuck p stuck ((k, n) ∷ es) =
    let rest = first_stuck p stuck es in if within p k then or_next (stuck k) rest else rest

-- The entries that stay: those that do not lie at or below `p`, those that cannot be removed, and
-- the directories that hold such.
abbrev pub stays : FilePath → (FilePath → Option OsError) → List (FilePath × Node) → FilePath → Bool
stays p stuck all k = not (within p k) || is_some (first_stuck k stuck all)

unfoldable pub drop_loose :
    FilePath
    → (FilePath → Option OsError)
    → List (FilePath × Node)
    → List (FilePath × Node)
    → List (FilePath × Node)
unfolding first_stuck
drop_loose p stuck all [] = []
drop_loose p stuck all ((k, n) ∷ es) =
    let rest = drop_loose p stuck all es in if stays p stuck all k then (k, n) ∷ rest else rest

-- os.RemoveAll where something is there.
abbrev pub removed : FilePath → Disk → Bool → Option OsError → Fallible OsError (Unit {0}) × Disk
removed p d true stuck = (fail write_denied, d)
removed p d false none = (done tt, with_entries d (drop_within p d.entries))
removed p d false (some e) = (fail e, with_entries d (drop_loose p d.stuck d.entries d.entries))

-- os.RemoveAll: no error where there is nothing; where something cannot be removed, the rest is, and
-- the first error is returned.
unfoldable pub remove_all : FilePath → Disk → Fallible OsError (Unit {0}) × Disk
unfolding first_stuck drop_loose
remove_all p d = elim (stat d p) [
  | none ↦ (done tt, d)
  | some n ↦ removed p d d.read_only (first_stuck p d.stuck d.entries)
]

-- os.WriteFile, which makes the file or writes over it.
unfoldable pub write_file : FilePath → Bytes → Disk → Fallible OsError Disk
write_file p content d = elim (is_dir (stat d p) || not (is_dir (stat d (parent p)))) [
  | true ↦ fail os_failed
  | false ↦
      if d.read_only
      then fail write_denied
      else done (with_entries d ((p, file content) ∷ d.entries))
]

-- os.ReadFile.
unfoldable pub read_file : Disk → FilePath → Fallible OsError Bytes
read_file d p = elim (stat d p) [
  | none ↦ fail not_exist
  | some dir ↦ fail os_failed
  | some (file b) ↦ done b
]

-- os.Remove of a file, or of an empty directory.
unfoldable pub remove : FilePath → Disk → Fallible OsError Disk
remove p d = elim (stat d p) [
  | none ↦ fail not_exist
  | some n ↦
      if d.read_only
      then fail write_denied
      else if is_dir (some n) && not (is_empty_list (children_of p d.entries))
      then fail os_failed
      else elim (d.stuck p) [
        | none ↦ done (with_entries d (drop_within p d.entries))
        | some e ↦ fail e
      ]
]
