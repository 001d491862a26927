-- ===== src/Transcode/TailBuffer.antt =====
-- internal/transcode/session.go, tailBuffer: the last bytes of what an encoder wrote.
use mathlib.Core.List.{append-nil, append_assoc}
use sudostream.Prelude.{
  drop-drop, drop-append_left, [], ap, arith, Bool-cases, drop, if◌then◌else◌, inl, inr, length,
  length-append, length-drop, List, ltb, refl, sym, ℕ, ◌++◌, ◌-◌, ◌∙◌, ◌∷◌, ◌≡◌, ◌≤◌,
}
use sudostream.Text.{Bytes}

abbrev pub stderr_tail_limit : ℕ
stderr_tail_limit = 4096

pub record TailBuffer : Type 0 where
  pub limit : ℕ
  pub bytes : Bytes

-- Write
unfoldable pub write : Bytes → TailBuffer → TailBuffer
write p b =
    let written = b.bytes ++ p in
    if ltb b.limit (length written)
    then record b { bytes = drop (length written - b.limit) written }
    else record b { bytes = written }

unfoldable pub write_all : List Bytes → TailBuffer → TailBuffer
write_all [] b = b
write_all (p ∷ ps) b = write_all ps (write p b)

-- The last `n` bytes.
abbrev pub last_bytes : ℕ → Bytes → Bytes
last_bytes n xs = drop (length xs - n) xs

last_bytes-append :
    (n : ℕ) (xs p : Bytes) → last_bytes n (last_bytes n xs ++ p) ≡ last_bytes n (xs ++ p)
last_bytes-append n xs p =
    ap (λ (ys : Bytes). drop (length (last_bytes n xs ++ p) - n) ys)
      (drop-append_left (length xs - n) xs p (omega arith))
    ∙ drop-drop (length (last_bytes n xs ++ p) - n) (length xs - n) (xs ++ p)
    ∙ ap (λ (m : ℕ). drop m (xs ++ p))
        (omega (
          arith,
          length-append (last_bytes n xs) p,
          length-append xs p,
          length-drop (length xs - n) xs,
        ))

write-last_bytes :
    (p : Bytes) (b : TailBuffer) → (write p b).bytes ≡ last_bytes b.limit (b.bytes ++ p)
unfolding write
write-last_bytes p b = elim (Bool-cases (ltb b.limit (length (b.bytes ++ p)))) [
  | inl more ↦ rw more refl
  | inr fits ↦ let e : length (b.bytes ++ p) - b.limit ≡ 0 = ground arith in rw (fits, e) refl
]

write-limit : (p : Bytes) (b : TailBuffer) → (write p b).limit ≡ b.limit
unfolding write
write-limit p b = elim (Bool-cases (ltb b.limit (length (b.bytes ++ p)))) [
  | inl more ↦ rw more refl
  | inr fits ↦ rw fits refl
]

abbrev pub concat : List Bytes → Bytes
concat [] = []
concat (p ∷ ps) = p ++ concat ps

last_bytes_of_short : (n : ℕ) (xs : Bytes) → length xs ≤ n → last_bytes n xs ≡ xs
last_bytes_of_short n xs h = let e : length xs - n ≡ 0 = omega arith in rw e refl

write-short : (p : Bytes) (b : TailBuffer) → length (write p b).bytes ≤ (write p b).limit
write-short p b =
    rw
      (
        write-last_bytes p b,
        write-limit p b,
        length-drop (length (b.bytes ++ p) - b.limit) (b.bytes ++ p),
      )
      (omega arith)

-- A buffer that is within its limit holds, after any writes, the last bytes up to the limit of
-- what it held and all that was written, however it was cut into writes.
pub write_all_lem :
    (ps : List Bytes) (b : TailBuffer)
    → length b.bytes ≤ b.limit
    → (write_all ps b).bytes ≡ last_bytes b.limit (b.bytes ++ concat ps)
unfolding write_all
write_all_lem [] b h = rw append-nil (sym (last_bytes_of_short b.limit b.bytes h))
write_all_lem (p ∷ ps) b h =
    write_all_lem ps (write p b) (write-short p b)
    ∙ rw (write-last_bytes p b, write-limit p b)
        (last_bytes-append b.limit (b.bytes ++ p) (concat ps)
          ∙ ap (last_bytes b.limit) (append_assoc b.bytes p (concat ps)))
