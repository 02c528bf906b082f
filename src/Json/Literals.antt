-- ===== src/Json/Literals.antt =====
-- A text of ASCII that is written as a string is read back; a byte of another character is refused.
use whirl.Prelude.{
  ℕ, zero, suc, ◌+◌, ◌≤◌, ◌<◌, ◌≡◌, ◌∙◌, refl, ap, sym, [], ◌∷◌, ◌++◌, append-nil, append_assoc,
  false, Option, none, some, Text, length, ltb, ◌==◌, All, arith,
}
use whirl.Json.{
  at, Parsed, ok, err, spent, Reader, and_then, ◌>>=◌, done, next_line, bump, not_utf8,
}
use whirl.Json.Strings.{string_turn, string_from, string_body, string}
use whirl.Json.Write.{char_into, chars_into, string_into}
use whirl.Json.Escapes.{IsAscii, turn-char_into, chunk-foreign}

length-char_into : (c : ℕ) (rest : Text) → suc (length rest) ≤ length (char_into c rest)
unfolding char_into
length-char_into c rest = ground arith

pub length-chars_into : (s rest : Text) → length s + length rest ≤ length (chars_into s rest)
unfolding chars_into
length-chars_into [] rest = omega arith
length-chars_into (c ∷ s) rest =
    omega (arith, length-char_into c (chars_into s rest), length-chars_into s rest)

and_then_assoc :
    {A B C : Type 0} (r : Parsed A) (f : A → Reader B) (g : B → Reader C)
    → and_then r (λ a. f a >>= g) ≡ and_then (and_then r f) g
and_then_assoc (ok a p) f g = refl
and_then_assoc (err line why now) f g = refl
and_then_assoc spent f g = refl

-- What the loop does with what a turn adds.
going : ℕ → ℕ → Text → Option Text → Reader Text
going fuel start out none = done out
going fuel start out (some more) = string_from fuel start (out ++ more)

string_from-turn :
    (fuel start c : ℕ) (out rest : Text) (line : ℕ)
    → c < 0x80
    → string_from (suc fuel) start out (at (char_into c rest) line)
      ≡ string_from fuel start (out ++ c ∷ []) (at rest line)
unfolding string_from going
string_from-turn fuel start c out rest line h =
    and_then_assoc (bump (at (char_into c rest) line)) (string_turn start) _
    ∙ ap (λ r. and_then r (going fuel start out)) (turn-char_into start c h rest line)

string_from-chars_into :
    (fuel start : ℕ) (out s rest : Text) (line : ℕ)
    → All IsAscii s
    → length s < fuel
    → string_from fuel start out (at (chars_into s (b'"' ∷ rest)) line)
      ≡ ok (out ++ s) (at rest line)
unfolding string_from chars_into
string_from-chars_into zero start out s rest line h small = absurd (omega arith)
string_from-chars_into (suc fuel) start out [] rest line h small =
    ap (λ t. ok t (at rest line)) (sym (append-nil out))
string_from-chars_into (suc fuel) start out (c ∷ s) rest line h small =
    string_from-turn fuel start c out (chars_into s (b'"' ∷ rest)) line h.0
    ∙ string_from-chars_into fuel start (out ++ c ∷ []) s rest line h.1 (omega arith)
    ∙ ap (λ t. ok t (at rest line)) (append_assoc out (c ∷ []) s)

-- A text of ASCII that is written as a string is read back, whatever follows it.
pub string-string_into :
    (s rest : Text) (line : ℕ)
    → All IsAscii s
    → string (at (string_into s rest) line) ≡ ok s (at rest line)
unfolding string string_body string_into
string-string_into s rest line h =
    string_from-chars_into (suc (length (chars_into s (b'"' ∷ rest)))) line [] s rest line h
      (omega (arith, length-chars_into s (b'"' ∷ rest)))

foreign_tests :
    (c line : ℕ)
    → 0x80 ≤ c
    → (next_line c line ≡ line)
      × ((c == b'"') ≡ false)
      × ((c == b'\\') ≡ false)
      × (ltb c 0x20 ≡ false)
foreign_tests c line big = (ground arith, ground arith, ground arith, ground arith)

turn-foreign :
    (start c : ℕ) (rest : Text) (line : ℕ)
    → 0x80 ≤ c
    → string_turn start (some c) (at rest (next_line c line)) ≡ err line not_utf8 line
unfolding string_turn
turn-foreign start c rest line big =
    let (same_line, q, b, k) = foreign_tests c line big in
    ap (λ l. string_turn start (some c) (at rest l)) same_line
    ∙ rw (q, b, k, string_turn) (chunk-foreign c rest line big)

string_from-foreign :
    (fuel start : ℕ) (out s : Text) (c : ℕ) (rest : Text) (line : ℕ)
    → All IsAscii s
    → 0x80 ≤ c
    → length s < fuel
    → string_from fuel start out (at (chars_into s (c ∷ rest)) line) ≡ err line not_utf8 line
unfolding string_from chars_into going
string_from-foreign zero start out s c rest line h big small = absurd (omega arith)
string_from-foreign (suc fuel) start out [] c rest line h big small =
    ap (λ r. and_then r (going fuel start out)) (turn-foreign start c rest line big)
string_from-foreign (suc fuel) start out (d ∷ s) c rest line h big small =
    string_from-turn fuel start d out (chars_into s (c ∷ rest)) line h.0
    ∙ string_from-foreign fuel start (out ++ d ∷ []) s c rest line h.1 big (omega arith)

chars_into-append : (s t rest : Text) → chars_into (s ++ t) rest ≡ chars_into s (chars_into t rest)
unfolding chars_into
chars_into-append [] t rest = refl
chars_into-append (c ∷ s) t rest = ap (char_into c) (chars_into-append s t rest)

char_into-foreign : (c : ℕ) (rest : Text) → 0x80 ≤ c → char_into c rest ≡ c ∷ rest
unfolding char_into
char_into-foreign c rest big = ground arith

-- A text that holds a byte of a character beyond ASCII is written as a string that the reader refuses,
-- as no UTF-8, wherever the byte stands and whatever follows.
pub string-refuses :
    (s more rest : Text) (c line : ℕ)
    → All IsAscii s
    → 0x80 ≤ c
    → string (at (string_into (s ++ c ∷ more) rest) line) ≡ err line not_utf8 line
unfolding string string_body string_into chars_into
string-refuses s more rest c line h big =
    let behind = chars_into more (b'"' ∷ rest) in
    ap (λ t. string_from (suc (length t)) line [] (at t line))
      (chars_into-append s (c ∷ more) (b'"' ∷ rest)
        ∙ ap (chars_into s) (char_into-foreign c behind big))
    ∙ string_from-foreign (suc (length (chars_into s (c ∷ behind)))) line [] s c behind line h big
        (omega (arith, length-chars_into s (c ∷ behind)))
