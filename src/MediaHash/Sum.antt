-- ===== src/MediaHash/Sum.antt =====
-- The hash is a sum modulo 2^64 (internal/mediahash/moviehash.go).
use sudostream.Prelude.{refl, false, ◌-◌, [], arith, ◌^◌, ◌+◌, ◌%◌, ◌<◌, ◌≤◌, ◌≡◌}
use sudostream.MediaHash.{
  ltb, drop, take, some, length, ◌∷◌, ℕ, List, add_words, add_hash_chunk, words, hash_chunk_size,
  movie_hash, hex_onto, hash_of,
}
use sudostream.Text.{Bytes}

abbrev pub sum : List ℕ → ℕ
sum [] = 0
sum (w ∷ ws) = w + sum ws

add_words-sum : (hash : ℕ) (ws : List ℕ) → add_words hash ws % 2 ^ 64 ≡ (hash + sum ws) % 2 ^ 64
add_words-sum hash [] = omega arith
add_words-sum hash (w ∷ ws) = omega (arith, add_words-sum ((hash + w) % 2 ^ 64) ws)

add_words-bound : (hash : ℕ) (ws : List ℕ) → hash < 2 ^ 64 → add_words hash ws < 2 ^ 64
add_words-bound hash [] h = h
add_words-bound hash (w ∷ ws) h = add_words-bound ((hash + w) % 2 ^ 64) ws (omega arith)

add_hash_chunk-sum :
    (hash : ℕ) (chunk : Bytes)
    → hash < 2 ^ 64
    → (add_hash_chunk hash chunk ≡ (hash + sum (words chunk)) % 2 ^ 64)
      × (add_hash_chunk hash chunk < 2 ^ 64)
unfolding add_hash_chunk
add_hash_chunk-sum hash chunk h =
    let bound = add_words-bound hash (words chunk) h in
    (omega (arith, add_words-sum hash (words chunk), bound), bound)

hash_of-sum :
    (file : Bytes)
    → hash_of file
      ≡ (length file
          + sum (words (take hash_chunk_size file))
          + sum (words (drop (length file - hash_chunk_size) file)))
        % 2 ^ 64
hash_of-sum file =
    let (first_sum, first_bound) =
      add_hash_chunk-sum (length file % 2 ^ 64) (take hash_chunk_size file) (omega arith) in
    let (last_sum, last_bound) =
      add_hash_chunk-sum _ (drop (length file - hash_chunk_size) file) first_bound in
    omega (arith, first_sum, last_sum)

-- MovieHash of a file that is large enough is the sum, modulo 2^64, of its size and of the 64-bit
-- words of its first and of its last chunk, in 16 hexadecimal digits.
pub movie_hash_lem :
    (file : Bytes)
    → hash_chunk_size ≤ length file
    → movie_hash file ≡ (
      some (
          hex_onto 16
            ((length file
                + sum (words (take hash_chunk_size file))
                + sum (words (drop (length file - hash_chunk_size) file)))
              % 2 ^ 64)
            []),
      length file,
    )
unfolding movie_hash
movie_hash_lem file h =
    let large : ltb (length file) hash_chunk_size ≡ false = ground arith in
    rw (large, hash_of-sum file) refl
