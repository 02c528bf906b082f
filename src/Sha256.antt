-- ===== src/Sha256.antt =====
-- The hasher of crates/whirl-core/src/protocol.rs. Words are numbers below 2^32 with the wrap-around
-- of their additions written out; the state array is a record of eight words.
pub mod Compress
pub mod Stream
pub mod Digest
use whirl.Prelude.{
  ℕ, zero, suc, ◌+◌, ◌-◌, ◌*◌, ◌/◌, ◌%◌, ◌^◌, min, List, [], ◌∷◌, ◌++◌, Bool, true, false, Text,
  ◌==◌, ltb, if◌then◌else◌, length, take, drop,
}
use Compress.{Words, compress, initial_words}

pub record Sha256 : Type 0 where
  pub state : Words
  pub pending : Text
  pub length : ℕ

-- `Sha256::new`.
abbrev pub new : Sha256
new = record { state = initial_words; pending = []; length = 0 }

-- `chunks_exact(64)`: the whole blocks and the remainder, with the block that is being cut.
unfoldable pub chunks_exact : Text → Text → List Text × Text
chunks_exact cut [] = ([], cut)
chunks_exact cut (b ∷ rest) =
    let block = cut ++ b ∷ [] in
    elim (length block == 64) [
      | true ↦ let (blocks, remainder) = chunks_exact [] rest in (block ∷ blocks, remainder)
      | false ↦ chunks_exact block rest
    ]

-- `for block in &mut blocks { compress(&mut self.state, block); }`.
unfoldable pub compress_all : Words → List Text → Words
compress_all state [] = state
compress_all state (block ∷ blocks) = compress_all (compress state block) blocks

-- The first part of `update`: top up the bytes held back. The rest of the data comes beside.
unfoldable pub top_up : Words → Text → Text → (Words × Text) × Text
top_up state [] data' = ((state, []), data')
top_up state (p ∷ ps) data' =
    let want = 64 - length (p ∷ ps) in
    let taken = min want (length data') in
    let pending = (p ∷ ps) ++ take taken data' in
    let rest = drop taken data' in
    if length pending == 64 then ((compress state pending, []), rest) else ((state, pending), rest)

unfoldable pub update : Sha256 → Text → Sha256
unfolding top_up compress_all chunks_exact
update h data' =
    let ((state, pending), rest) = top_up h.state h.pending data' in
    let (blocks, remainder) = chunks_exact [] rest in
    record {
      state = compress_all state blocks;
      pending = pending ++ remainder;
      length = (h.length + length data') % 2 ^ 64;
    }

-- `while tail.len() % 64 != 56 { tail.push(0); }`, for at most `fuel` rounds.
unfoldable pub pad : ℕ → Text → Text
pad zero tail = tail
pad (suc fuel) tail = elim (length tail % 64 == 56) [
  | true ↦ tail
  | false ↦ pad fuel (tail ++ 0 ∷ [])
]

-- `u32::to_be_bytes` and `u64::to_be_bytes`.
abbrev pub be_bytes32 : ℕ → Text
be_bytes32 w = w / 2 ^ 24 % 256 ∷ w / 2 ^ 16 % 256 ∷ w / 2 ^ 8 % 256 ∷ w % 256 ∷ []

abbrev pub be_bytes64 : ℕ → Text
be_bytes64 w = be_bytes32 (w / 2 ^ 32) ++ be_bytes32 w

-- The blocks that `finish` compresses last.
unfoldable pub tail_of : Sha256 → Text
unfolding pad
tail_of h = pad 64 (h.pending ++ 0x80 ∷ []) ++ be_bytes64 (h.length * 8 % 2 ^ 64)

-- `for (index, word) in self.state.iter().enumerate()`: the words, big-endian.
unfoldable pub words_be_bytes : Words → Text
words_be_bytes v =
    be_bytes32 v.h0
    ++ (be_bytes32 v.h1
        ++ (be_bytes32 v.h2
            ++ (be_bytes32 v.h3
                ++ (be_bytes32 v.h4 ++ (be_bytes32 v.h5 ++ (be_bytes32 v.h6 ++ be_bytes32 v.h7))))))

unfoldable pub finish : Sha256 → Text
unfolding tail_of compress_all chunks_exact words_be_bytes
finish h = words_be_bytes (compress_all h.state (chunks_exact [] (tail_of h)).0)

-- `char::from_digit(nibble, 16)`; a nibble is a hexadecimal digit, so the source's default is never
-- taken.
unfoldable pub hex_digit : ℕ → ℕ
hex_digit n = if ltb n 10 then b'0' + n else if ltb n 16 then b'a' + (n - 10) else b'0'

unfoldable pub hex_of : Text → Text
unfolding hex_digit
hex_of [] = []
hex_of (b ∷ bytes) = hex_digit (b / 16) ∷ hex_digit (b % 16) ∷ hex_of bytes

-- `Sha256::hex` and `sha256_hex`.
unfoldable pub hex : Sha256 → Text
unfolding hex_of finish
hex h = hex_of (finish h)

unfoldable pub sha256_hex : Text → Text
unfolding hex update
sha256_hex data' = hex (update new data')
