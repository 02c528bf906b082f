-- ===== src/Json.antt =====
-- The JSON reader of crates/whirl-core/src/config.rs (`json`): its trees, the place in the text with
-- the line that is counted there, and what a reading gives. A number is kept as its literal.
pub mod Strings
pub mod Numbers
pub mod Parser
pub mod Write
pub mod Escapes
pub mod Literals
pub mod Same
pub mod Numerals
pub mod Comes
pub mod Steps
pub mod Loops
pub mod Pieces
pub mod Roundtrip
pub mod Settles
pub mod Lexemes
pub mod Total
use whirl.Prelude.{
  ℕ, suc, List, [], ◌∷◌, Bool, true, false, Option, none, some, Text, codes, length, ◌==◌, ◌||◌,
  text_eq, if◌then◌else◌,
}

mutual
  pub data Node : Type 0 where
    node : Value → ℕ → Node

  pub data Value : Type 0 where
    null : Value
    bool : Bool → Value
    num : Text → Value
    str : Text → Value
    arr : Nodes → Value
    obj : Entries → Value

  pub data Nodes : Type 0 where
    nil : Nodes
    cons : Node → Nodes → Nodes

  pub data Entries : Type 0 where
    end : Entries
    entry : Text → Node → Entries → Entries

abbrev pub node_line : Node → ℕ
node_line (node value line) = line

-- `Vec::push`.
unfoldable pub push_node : Nodes → Node → Nodes
push_node nil n = cons n nil
push_node (cons m ms) n = cons m (push_node ms n)

unfoldable pub push_entry : Entries → Text → Node → Entries
push_entry end key n = entry key n end
push_entry (entry k m es) key n = entry k m (push_entry es key n)

unfoldable pub holds_key : Text → Entries → Bool
holds_key key end = false
holds_key key (entry k m es) = text_eq k key || holds_key key es

-- The messages of a refusal.
pub data Reason : Type 0 where
  trailing_content no_value trailing_comma_object expected_comma_object trailing_comma_array :
      Reason
  expected_comma_array unterminated_string unterminated_escape not_a_low_surrogate : Reason
  invalid_pair control_character not_utf8 unterminated_u not_hex : Reason
  expected_found : Text → ℕ → ℕ → Reason
  expected_end : Text → ℕ → Reason
  unexpected unknown_escape not_a_character : ℕ → Reason
  duplicate_key bad_literal not_a_number : Text → Reason
  in_an_object_key : Reason → Reason

-- What is left of the text, and the line that is counted there.
pub data Cursor : Type 0 where
  at : Text → ℕ → Cursor

-- A refusal names a line, and the parser stands at a line of its own then; `spent` is a loop with no
-- fuel left.
pub data Parsed {ℓ} (A : Type ℓ) : Type ℓ where
  ok : A → Cursor → Parsed A
  err : ℕ → Reason → ℕ → Parsed A
  spent : Parsed A

abbrev pub Reader {ℓ} : Type ℓ → Type ℓ
Reader A = Cursor → Parsed A

abbrev pub and_then {ℓ κ} : {A : Type ℓ} {B : Type κ} → Parsed A → (A → Reader B) → Parsed B
and_then (ok a p) f = f a p
and_then (err line why now) f = err line why now
and_then spent f = spent

infixl 5 ◌>>=◌ ◌>>◌
abbrev pub ◌>>=◌ {ℓ κ} : {A : Type ℓ} {B : Type κ} → Reader A → (A → Reader B) → Reader B
m >>= f = λ p. and_then (m p) f

abbrev pub ◌>>◌ {ℓ κ} : {A : Type ℓ} {B : Type κ} → Reader A → Reader B → Reader B
m >> k = m >>= λ u. k

abbrev pub done {ℓ} : {A : Type ℓ} → A → Reader A
done a p = ok a p

abbrev pub fail {ℓ} : {A : Type ℓ} → Reason → Reader A
fail why (at s line) = err line why line

abbrev pub fail_at {ℓ} : {A : Type ℓ} → ℕ → Reason → Reader A
fail_at line why (at s now) = err line why now

abbrev pub newline : ℕ
newline = 10

abbrev pub next_line : ℕ → ℕ → ℕ
next_line c line = if c == newline then suc line else line

abbrev pub here : Reader ℕ
here (at s line) = ok line (at s line)

abbrev pub peek : Reader (Option ℕ)
peek (at [] line) = ok none (at [] line)
peek (at (c ∷ s) line) = ok (some c) (at (c ∷ s) line)

abbrev pub bump : Reader (Option ℕ)
bump (at [] line) = ok none (at [] line)
bump (at (c ∷ s) line) = ok (some c) (at s (next_line c line))

unfoldable pub is_ws : ℕ → Bool
is_ws c = (c == b' ') || (c == 9) || (c == newline) || (c == 13)

unfoldable pub past_ws : Text → ℕ → Cursor
unfolding is_ws
past_ws [] line = at [] line
past_ws (c ∷ s) line = elim (is_ws c) [
  | true ↦ past_ws s (next_line c line)
  | false ↦ at (c ∷ s) line
]

abbrev pub skip_ws : Reader (Unit {0})
skip_ws (at s line) = ok tt (past_ws s line)

abbrev pub expect : ℕ → Text → Reader (Unit {0})
expect byte what (at [] line) = err line (expected_end what byte) line
expect byte what (at (c ∷ s) line) =
    if c == byte
    then ok tt (at s (next_line c line))
    else err line (expected_found what byte c) line
