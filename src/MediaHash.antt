-- ===== src/MediaHash.antt =====
-- internal/mediahash/moviehash.go: the OpenSubtitles hash of a file, on the file's bytes. Errors of
-- opening and reading are left out.
pub mod Sum
mod Tests
use sudostream.Prelude.{
  drop, some, take, zero, none, ◌-◌, ◌^◌, ◌%◌, ◌/◌, ltb, [], ◌+◌, length, suc, if◌then◌else◌, ◌∷◌,
  ◌*◌, Option, List, ℕ,
}
use sudostream.Text.{Bytes}

abbrev pub hash_chunk_size : ℕ
hash_chunk_size = 64 * 1024

-- binary.LittleEndian.Uint64
abbrev pub little_endian : Bytes → ℕ
little_endian [] = 0
little_endian (b ∷ bs) = b + 256 * little_endian bs

-- The words that the loop of addHashChunk reads: eight bytes each, an incomplete rest left out.
unfoldable pub words : Bytes → List ℕ
words (a ∷ (b ∷ (c ∷ (d ∷ (e ∷ (f ∷ (g ∷ (h ∷ rest)))))))) =
    little_endian (a ∷ (b ∷ (c ∷ (d ∷ (e ∷ (f ∷ (g ∷ (h ∷ [])))))))) ∷ words rest
words _ = []

abbrev pub add_words : ℕ → List ℕ → ℕ
add_words hash [] = hash
add_words hash (w ∷ ws) = add_words ((hash + w) % 2 ^ 64) ws

-- addHashChunk: additions of uint64 wrap around.
unfoldable pub add_hash_chunk : ℕ → Bytes → ℕ
add_hash_chunk hash chunk = add_words hash (words chunk)

-- %016x
abbrev hex_digit : ℕ → ℕ
hex_digit d = if ltb d 10 then b'0' + d else b'a' + (d - 10)

unfoldable pub hex_onto : ℕ → ℕ → Bytes → Bytes
hex_onto zero n tail = tail
hex_onto (suc width) n tail = hex_onto width (n / 16) (hex_digit (n % 16) ∷ tail)

abbrev pub hash_of : Bytes → ℕ
hash_of file =
    add_hash_chunk (add_hash_chunk (length file % 2 ^ 64) (take hash_chunk_size file))
      (drop (length file - hash_chunk_size) file)

-- MovieHash, with the size of the file; `none` is ErrFileTooSmall.
unfoldable pub movie_hash : Bytes → Option Bytes × ℕ
movie_hash file = (
  if ltb (length file) hash_chunk_size then none else some (hex_onto 16 (hash_of file) []),
  length file,
)
