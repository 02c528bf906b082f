-- ===== src/Sha256/Digest.antt =====
-- The digest as text: the padding, the length and the alphabet of `sha256_hex`, and `is_digest`, by
-- which the protocol tells a digest from an origin key.
use whirl.Prelude.{
  ℕ, zero, suc, ◌+◌, ◌-◌, ◌*◌, ◌/◌, ◌%◌, ◌<◌, ◌≡◌, refl, ap, inl, inr, ◌≤◌, ◌^◌, [], ◌∷◌, ◌++◌,
  Bool, true, ◌&&◌, ◌||◌, Text, leb, ◌==◌, Bool-cases, length, length-append, all, All, codes,
  arith,
}
use whirl.Sha256.{
  Sha256, new, chunks_exact, pad, tail_of, compress_all, hex_digit, hex_of, words_be_bytes,
  be_bytes64, hex, sha256_hex, update,
}
use whirl.Sha256.Compress.{Words, compress}
use whirl.Sha256.Stream.{update-append}

-- `byte.is_ascii_digit() || (b'a'..=b'f').contains(&byte)`.
unfoldable pub is_hex_byte : ℕ → Bool
is_hex_byte b = (leb b'0' b && leb b b'9') || (leb b'a' b && leb b b'f')

unfoldable pub is_digest : Text → Bool
unfolding is_hex_byte
is_digest value = (length value == 64) && all is_hex_byte value

abbrev IsByte : ℕ → Type 0
IsByte b = b < 256

hex_digit-is_hex_byte : (n : ℕ) → n < 16 → is_hex_byte (hex_digit n) ≡ true
unfolding is_hex_byte hex_digit
hex_digit-is_hex_byte n h = ground arith

all-hex_of : (bytes : Text) → All IsByte bytes → all is_hex_byte (hex_of bytes) ≡ true
unfolding hex_of
all-hex_of [] h = refl
all-hex_of (b ∷ bytes) h = ground (
  arith,
  hex_digit-is_hex_byte (b / 16) (omega arith),
  hex_digit-is_hex_byte (b % 16) (omega arith),
  all-hex_of bytes h.1,
)

length-hex_of : (bytes : Text) → length (hex_of bytes) ≡ 2 * length bytes
unfolding hex_of
length-hex_of [] = refl
length-hex_of (b ∷ bytes) = omega (arith, length-hex_of bytes)

words_be_bytes-IsByte : (v : Words) → All IsByte (words_be_bytes v)
unfolding words_be_bytes
words_be_bytes-IsByte v = omega arith

length-words_be_bytes : (v : Words) → length (words_be_bytes v) ≡ 32
unfolding words_be_bytes
length-words_be_bytes v = refl

hex_of-is_digest : (v : Words) → is_digest (hex_of (words_be_bytes v)) ≡ true
unfolding is_digest
hex_of-is_digest v = ground (
  arith,
  length-hex_of (words_be_bytes v),
  length-words_be_bytes v,
  all-hex_of (words_be_bytes v) (words_be_bytes-IsByte v),
)

-- What `sha256_hex` returns is a digest, for every input.
is_digest-sha256_hex : (data' : Text) → is_digest (sha256_hex data') ≡ true
unfolding sha256_hex
is_digest-sha256_hex data' =
    hex_of-is_digest
      (compress_all (update new data').state (chunks_exact [] (tail_of (update new data'))).0)

-- A buffer fed in two calls has the digest of the whole buffer, wherever it is cut.
hex-update-update :
    (first second : Text) → hex (update (update new first) second) ≡ sha256_hex (first ++ second)
unfolding sha256_hex
hex-update-update first second = ap hex (update-append new first second (omega arith))

length-pad :
    (fuel : ℕ) (tail : Text)
    → (120 - length tail % 64) % 64 ≤ fuel
    → length (pad fuel tail) % 64 ≡ 56
unfolding pad
length-pad zero tail h = omega arith
length-pad (suc fuel) tail h = elim (Bool-cases (length tail % 64 == 56)) [
  | inl done ↦ rw (done, pad) (ground arith)
  | inr more ↦
      rw (more, pad)
        (length-pad fuel (tail ++ 0 ∷ []) (ground (arith, length-append tail (0 ∷ []))))
]

length-chunks_exact :
    (cut xs : Text)
    → length cut < 64
    → (length cut + length xs) % 64 ≡ length (chunks_exact cut xs).1
unfolding chunks_exact
length-chunks_exact cut [] h = omega arith
length-chunks_exact cut (b ∷ xs) h = elim (Bool-cases (length (cut ++ b ∷ []) == 64)) [
  | inl full ↦
      rw (full, chunks_exact)
        (ground (arith, length-chunks_exact [] xs, length-append cut (b ∷ [])))
  | inr short ↦
      rw (short, chunks_exact)
        (ground (arith, length-chunks_exact (cut ++ b ∷ []) xs, length-append cut (b ∷ [])))
]

eq-nil : (xs : Text) → length xs ≡ 0 → xs ≡ []
eq-nil [] h = refl
eq-nil (x ∷ xs) h = absurd (omega arith)

length-tail_of : (h : Sha256) → length (tail_of h) % 64 ≡ 0
unfolding tail_of
length-tail_of h = omega (
  arith,
  length-append (pad 64 (h.pending ++ 0x80 ∷ [])) (be_bytes64 (h.length * 8 % 2 ^ 64)),
  length-pad 64 (h.pending ++ 0x80 ∷ []) (omega arith),
)

-- The padding ends and fills whole blocks: `finish` leaves no byte of the tail uncompressed, whatever
-- was held back.
finish_complete : (h : Sha256) → (chunks_exact [] (tail_of h)).1 ≡ []
finish_complete h =
    eq-nil _ (omega (arith, length-tail_of h, length-chunks_exact [] (tail_of h) (omega arith)))

abc :
    sha256_hex (codes "abc")
    ≡ codes "ba7816bf8f01cfea414140de5dae2223b00361a396177a9cb410ff61f20015ad"
unfolding sha256_hex compress
abc = refl
