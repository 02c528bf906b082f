-- ===== src/Sha256/Compress.antt =====
-- `compress` of crates/whirl-core/src/protocol.rs: one 64-byte block folded into the eight words.
use Prim.Native.Nat.{bit_and, bit_xor}
use whirl.Prelude.{ℕ, zero, suc, ◌+◌, ◌-◌, ◌*◌, ◌/◌, ◌%◌, ◌^◌, List, [], ◌∷◌, ◌++◌, Text}

pub record Words : Type 0 where
  pub h0 : ℕ
  pub h1 : ℕ
  pub h2 : ℕ
  pub h3 : ℕ
  pub h4 : ℕ
  pub h5 : ℕ
  pub h6 : ℕ
  pub h7 : ℕ

-- `H`.
abbrev pub initial_words : Words
initial_words = record {
  h0 = 0x6a09e667;
  h1 = 0xbb67ae85;
  h2 = 0x3c6ef372;
  h3 = 0xa54ff53a;
  h4 = 0x510e527f;
  h5 = 0x9b05688c;
  h6 = 0x1f83d9ab;
  h7 = 0x5be0cd19;
}

-- `K`.
round_constants : List ℕ
round_constants =
    0x428a2f98 ∷ 0x71374491 ∷ 0xb5c0fbcf ∷ 0xe9b5dba5 ∷ 0x3956c25b ∷ 0x59f111f1 ∷ 0x923f82a4
    ∷ 0xab1c5ed5 ∷ 0xd807aa98 ∷ 0x12835b01 ∷ 0x243185be ∷ 0x550c7dc3 ∷ 0x72be5d74 ∷ 0x80deb1fe
    ∷ 0x9bdc06a7 ∷ 0xc19bf174 ∷ 0xe49b69c1 ∷ 0xefbe4786 ∷ 0x0fc19dc6 ∷ 0x240ca1cc ∷ 0x2de92c6f
    ∷ 0x4a7484aa ∷ 0x5cb0a9dc ∷ 0x76f988da ∷ 0x983e5152 ∷ 0xa831c66d ∷ 0xb00327c8 ∷ 0xbf597fc7
    ∷ 0xc6e00bf3 ∷ 0xd5a79147 ∷ 0x06ca6351 ∷ 0x14292967 ∷ 0x27b70a85 ∷ 0x2e1b2138 ∷ 0x4d2c6dfc
    ∷ 0x53380d13 ∷ 0x650a7354 ∷ 0x766a0abb ∷ 0x81c2c92e ∷ 0x92722c85 ∷ 0xa2bfe8a1 ∷ 0xa81a664b
    ∷ 0xc24b8b70 ∷ 0xc76c51a3 ∷ 0xd192e819 ∷ 0xd6990624 ∷ 0xf40e3585 ∷ 0x106aa070 ∷ 0x19a4c116
    ∷ 0x1e376c08 ∷ 0x2748774c ∷ 0x34b0bcb5 ∷ 0x391c0cb3 ∷ 0x4ed8aa4a ∷ 0x5b9cca4f ∷ 0x682e6ff3
    ∷ 0x748f82ee ∷ 0x78a5636f ∷ 0x84c87814 ∷ 0x8cc70208 ∷ 0x90befffa ∷ 0xa4506ceb ∷ 0xbef9a3f7
    ∷ 0xc67178f2 ∷ []

abbrev add32 : ℕ → ℕ → ℕ
add32 a b = (a + b) % 2 ^ 32

rotate_right : ℕ → ℕ → ℕ
rotate_right w k = w / 2 ^ k + w % 2 ^ k * 2 ^ (32 - k)

xor3 : ℕ → ℕ → ℕ → ℕ
xor3 a b c = bit_xor (bit_xor a b) c

nth : List ℕ → ℕ → ℕ
nth [] i = 0
nth (w ∷ ws) zero = w
nth (w ∷ ws) (suc i) = nth ws i

-- The first sixteen words of the schedule: the block read big-endian.
load : Text → List ℕ
load (a ∷ b ∷ c ∷ d ∷ rest) = (a * 2 ^ 24 + b * 2 ^ 16 + c * 2 ^ 8 + d) ∷ load rest
load _ = []

-- `for index in 16..64`: the next word from the words so far, `rounds` times.
extend : ℕ → ℕ → List ℕ → List ℕ
unfolding nth xor3 rotate_right
extend zero index w = w
extend (suc rounds) index w =
    let w15 = nth w (index - 15) in
    let w2 = nth w (index - 2) in
    let s0 = xor3 (rotate_right w15 7) (rotate_right w15 18) (w15 / 2 ^ 3) in
    let s1 = xor3 (rotate_right w2 17) (rotate_right w2 19) (w2 / 2 ^ 10) in
    let word = add32 (add32 (add32 (nth w (index - 16)) s0) (nth w (index - 7))) s1 in
    extend rounds (suc index) (w ++ word ∷ [])

-- One pass of the loop over `K`.
round : Words → ℕ → ℕ → Words
unfolding xor3 rotate_right
round v constant word =
    let s1 = xor3 (rotate_right v.h4 6) (rotate_right v.h4 11) (rotate_right v.h4 25) in
    let choose = bit_xor (bit_and v.h4 v.h5) (bit_and (2 ^ 32 - 1 - v.h4) v.h6) in
    let temp1 = add32 (add32 (add32 (add32 v.h7 s1) choose) constant) word in
    let s0 = xor3 (rotate_right v.h0 2) (rotate_right v.h0 13) (rotate_right v.h0 22) in
    let majority = xor3 (bit_and v.h0 v.h1) (bit_and v.h0 v.h2) (bit_and v.h1 v.h2) in
    let temp2 = add32 s0 majority in
    record {
      h0 = add32 temp1 temp2;
      h1 = v.h0;
      h2 = v.h1;
      h3 = v.h2;
      h4 = add32 v.h3 temp1;
      h5 = v.h4;
      h6 = v.h5;
      h7 = v.h6;
    }

run_rounds : Words → List ℕ → List ℕ → Words
unfolding round
run_rounds v [] w = v
run_rounds v (constant ∷ constants) [] = v
run_rounds v (constant ∷ constants) (word ∷ w) = run_rounds (round v constant word) constants w

unfoldable pub compress : Words → Text → Words
unfolding run_rounds extend load round_constants
compress state chunk =
    let v = run_rounds state round_constants (extend 48 16 (load chunk)) in
    record {
      h0 = add32 state.h0 v.h0;
      h1 = add32 state.h1 v.h1;
      h2 = add32 state.h2 v.h2;
      h3 = add32 state.h3 v.h3;
      h4 = add32 state.h4 v.h4;
      h5 = add32 state.h5 v.h5;
      h6 = add32 state.h6 v.h6;
      h7 = add32 state.h7 v.h7;
    }
