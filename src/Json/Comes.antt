-- ===== src/Json/Comes.antt =====
-- Readings that come to a given rest of the text with a value that meets a condition.
use whirl.Prelude.{ℕ, zero, suc, ◌≤◌, ◌≡◌, refl, Text, length, arith}
use whirl.Json.{at, Parsed, ok, err, spent, Reader, and_then, is_ws, past_ws}
use whirl.Json.Write.{indent_into}
use whirl.Json.Settles.{size, Reads, got, refuses}

module _ {A : Type 0} where
  pub data Comes (P : A → Type 0) (rest : Text) : Parsed A → Type 0 where
    comes : (a : A) (line : ℕ) → P a → Comes P rest (ok a (at rest line))

  pub Comes-of_eq :
      (P : A → Type 0) (rest : Text) (r : Parsed A) (a : A) (line : ℕ)
      → r ≡ ok a (at rest line)
      → P a
      → Comes P rest r
  Comes-of_eq P rest r a line e h = rw e (comes a line h)

  pub Comes-map :
      (P Q : A → Type 0) (rest : Text) (r : Parsed A)
      → ((a : A) → P a → Q a)
      → Comes P rest r
      → Comes Q rest r
  Comes-map P Q rest r f (comes a line h) = comes a line (f a h)

  abbrev Left : Parsed A → ℕ → Type 0
  Left (ok a q) n = size q ≤ n
  Left (err line why now) n = Unit
  Left spent n = Unit

  left : (n : ℕ) (r : Parsed A) → Reads n r → Left r n
  left n r (got b q small) = small
  left n r (refuses l why now) = tt

  -- A reading that ends leaves no more text than it may.
  pub Comes-le :
      (P : A → Type 0) (rest : Text) (n : ℕ) (r : Parsed A)
      → Comes P rest r
      → Reads n r
      → length rest ≤ n
  Comes-le P rest n r (comes a line h) reads = left n _ reads

pub Comes-bind :
    {A B : Type 0} (P : A → Type 0) (Q : B → Type 0) (s rest : Text) (r : Parsed A)
    (f : A → Reader B)
    → Comes P s r
    → ((a : A) (line : ℕ) → P a → Comes Q rest (f a (at s line)))
    → Comes Q rest (and_then r f)
Comes-bind P Q s rest r f (comes a line h) next = next a line h

-- Indentation is passed over, on the same line.
pub past_ws-indent_into :
    (n : ℕ) (s : Text) (line : ℕ) → past_ws (indent_into n s) line ≡ past_ws s line
unfolding past_ws indent_into is_ws
past_ws-indent_into zero s line = refl
past_ws-indent_into (suc n) s line = past_ws-indent_into n s line

pub length-indent_into : (n : ℕ) (s : Text) → length s ≤ length (indent_into n s)
unfolding indent_into
length-indent_into zero s = omega arith
length-indent_into (suc n) s = omega (arith, length-indent_into n s)
