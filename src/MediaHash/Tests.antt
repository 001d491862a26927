-- ===== src/MediaHash/Tests.antt =====
-- Words and digits, and the theorem on hashes applied to a file of zeros.
use sudostream.Prelude.{arith, ◌^◌, ◌%◌, ◌-◌, zero, ◌+◌, ap, refl, ◌∷◌, ◌≡◌}
use sudostream.MediaHash.{
  drop, take, some, length, suc, ℕ, [], words, hex_onto, movie_hash, hash_chunk_size,
}
use sudostream.MediaHash.Sum.{sum, movie_hash_lem}
use sudostream.Text.{Bytes, codes}

one_word : words (codes "abcdefghij") ≡ 7523094288207667809 ∷ []
unfolding words
one_word = refl

sixteen_digits : hex_onto 16 48879 [] ≡ codes "000000000000beef"
unfolding hex_onto
sixteen_digits = refl

blank : ℕ → Bytes
blank zero = []
blank (suc n) = 0 ∷ blank n

length-blank : (n : ℕ) → length (blank n) ≡ n
unfolding blank
length-blank zero = refl
length-blank (suc n) = ap suc (length-blank n)

movie_hash_lem_example : movie_hash (blank hash_chunk_size) ≡ (
  some (
      hex_onto 16
        ((length (blank hash_chunk_size)
            + sum (words (take hash_chunk_size (blank hash_chunk_size)))
            + sum (
                words (
                  drop (length (blank hash_chunk_size) - hash_chunk_size) (blank hash_chunk_size))))
          % 2 ^ 64)
        []),
  length (blank hash_chunk_size),
)
movie_hash_lem_example =
    movie_hash_lem (blank hash_chunk_size) (omega (arith, length-blank hash_chunk_size))
