-- ===== src/Json/Lexemes.antt =====
-- Strings, numbers and literals are read to an end.
use whirl.Prelude.{
  ℕ, zero, suc, ◌+◌, ◌-◌, ◌*◌, ◌≤◌, [], ◌∷◌, ◌++◌, not, ◌&&◌, ◌||◌, Option, none, some, Text, codes,
  length, leb, ltb, ◌==◌, Bool-cases, Option-cases, inl, inr, arith,
}
use whirl.Json.{
  Reason, Cursor, at, Parsed, Reader, done, fail, next_line, here, bump, expect, not_hex,
  unterminated_u, not_a_low_surrogate, invalid_pair, not_a_character, unknown_escape,
}
use whirl.Json.Strings.{
  to_digit, hex_digit_of, hex_digits, is_char, push_char, surrogate_pair, unicode, escape, control,
  breaks, copied, is_utf8, chunk, string_turn, string_from, string_body, string,
}
use whirl.Json.Numbers.{is_number_byte, number_bytes, number_text, is_float, number_literal}
use whirl.Json.Parser.{literal_from, retold, in_key}
use whirl.Json.Settles.{
  size, Reads, got, refuses, Keeps, Drops, dropped, denies, Eats, Reads-weaken, if-Keeps,
  done-Keeps, fail-Keeps, fail_at-Keeps, Eats-Keeps, Keeps-bind, Eats-bind, Keeps-bind-Eats,
  here-Keeps, bump-Keeps, expect-Eats,
}

hex_digit_of-Keeps : (k : ℕ) (b : Option ℕ) → Keeps k (hex_digit_of b)
unfolding hex_digit_of
hex_digit_of-Keeps k none p h = fail-Keeps k unterminated_u p h
hex_digit_of-Keeps k (some c) p h = elim (Option-cases (to_digit c)) [
  | inl e ↦ rw (e, hex_digit_of) (fail-Keeps k not_hex p h)
  | inr (d, e) ↦ rw (e, hex_digit_of) (done-Keeps k d p h)
]

hex_digits-Keeps : (k n v : ℕ) → Keeps k (hex_digits n v)
unfolding hex_digits
hex_digits-Keeps k zero v = done-Keeps k v
hex_digits-Keeps k (suc n) v = Keeps-bind k bump _ (bump-Keeps k) λ b.
    Keeps-bind k (hex_digit_of b) _ (hex_digit_of-Keeps k b) λ d. hex_digits-Keeps k n (v * 16 + d)

push_char-Keeps : (k code : ℕ) (why : Reason) → Keeps k (push_char code why)
unfolding push_char
push_char-Keeps k code why = if-Keeps k (is_char code) _ _ (done-Keeps k _) (fail-Keeps k why)

pub expect-Keeps : (k byte : ℕ) (what : Text) → Keeps k (expect byte what)
expect-Keeps zero byte what p h = absurd (omega arith)
expect-Keeps (suc k) byte what p h = Eats-Keeps k (expect byte what) (expect-Eats k byte what) p h

surrogate_pair-Keeps : (k high : ℕ) → Keeps k (surrogate_pair high)
unfolding surrogate_pair
surrogate_pair-Keeps k high =
    Keeps-bind k (expect b'\\' (codes "a low surrogate")) _ (expect-Keeps k _ _) λ u.
      Keeps-bind k (expect b'u' (codes "a low surrogate")) _ (expect-Keeps k _ _) λ v.
        Keeps-bind k (hex_digits 4 0) _ (hex_digits-Keeps k 4 0) λ low.
          if-Keeps k (not (leb 0xdc00 low && ltb low 0xe000)) _ _ (fail-Keeps k not_a_low_surrogate)
            (push_char-Keeps k (0x10000 + (high - 0xd800) * 1024 + (low - 0xdc00)) invalid_pair)

unicode-Keeps : (k : ℕ) → Keeps k unicode
unfolding unicode
unicode-Keeps k = Keeps-bind k (hex_digits 4 0) _ (hex_digits-Keeps k 4 0) λ high.
    if-Keeps k (leb 0xd800 high && ltb high 0xdc00) _ _ (surrogate_pair-Keeps k high)
      (push_char-Keeps k high (not_a_character high))

escape-Keeps : (k : ℕ) (b : Option ℕ) → Keeps k (escape b)
unfolding escape
escape-Keeps k none = fail-Keeps k _
escape-Keeps k (some c) =
    let one = λ (b : ℕ). done-Keeps k (some (b ∷ [])) in
    if-Keeps k ((c == b'"') || (c == b'\\') || (c == b'/')) _ _ (one c) (
      if-Keeps k (c == b'b') _ _ (one 8) (
        if-Keeps k (c == b'f') _ _ (one 12) (
          if-Keeps k (c == b'n') _ _ (one 10) (
            if-Keeps k (c == b'r') _ _ (one 13) (
              if-Keeps k (c == b't') _ _ (one 9) (
                if-Keeps k (c == b'u') _ _ (unicode-Keeps k) (fail-Keeps k (unknown_escape c))))))))

length-copied : (s : Text) (line : ℕ) → size (copied s line).1 ≤ length s
unfolding copied
length-copied [] line = omega arith
length-copied (c ∷ s) line = elim (Bool-cases (breaks c)) [
  | inl e ↦ rw (e, copied) (omega arith)
  | inr e ↦ rw (e, copied) (omega (arith, length-copied s (next_line c line)))
]

fail-size : {A : Type 0} (why : Reason) (p : Cursor) (n : ℕ) → Reads {A = A} n (fail why p)
fail-size why (at s line) n = refuses line why line

chunk-Keeps : (k c : ℕ) → Keeps k (chunk c)
unfolding chunk
chunk-Keeps k c (at s line) h = elim (Bool-cases (is_utf8 (c ∷ (copied s line).0))) [
  | inl e ↦ rw e (got _ _ (length-copied s line))
  | inr e ↦ rw e (fail-size _ _ _)
]

control-Keeps : (k c : ℕ) → Keeps k (control c)
unfolding control
control-Keeps k c (at s line) h = refuses _ _ _

string_turn-Keeps : (k start : ℕ) (b : Option ℕ) → Keeps k (string_turn start b)
unfolding string_turn
string_turn-Keeps k start none = fail_at-Keeps k start _
string_turn-Keeps k start (some c) = if-Keeps k (c == b'"') _ _ (done-Keeps k none) (
    if-Keeps k (c == b'\\') _ _ (Keeps-bind k bump escape (bump-Keeps k) (escape-Keeps k))
      (if-Keeps k (ltb c 0x20) _ _ (control-Keeps k c) (chunk-Keeps k c)))

follow_turn :
    (k fuel start : ℕ) (out : Text) (added : Option Text)
    → ((next : Text) → Keeps k (string_from fuel start next))
    → Keeps k (elim added [ none ↦ done out | some more ↦ string_from fuel start (out ++ more) ])
follow_turn k fuel start out none rest = done-Keeps k out
follow_turn k fuel start out (some more) rest = rest (out ++ more)

string_from-Keeps : (fuel start : ℕ) (out : Text) → Keeps fuel (string_from fuel start out)
unfolding string_from string_turn
string_from-Keeps zero start out p h = absurd (omega arith)
string_from-Keeps (suc fuel) start out (at [] line) h = refuses _ _ _
string_from-Keeps (suc fuel) start out (at (c ∷ s) line) h =
    Reads-weaken (length s) _ _ (omega arith) (
      Keeps-bind fuel (string_turn start (some c)) _ (string_turn-Keeps fuel start (some c))
        (λ added. follow_turn fuel fuel start out added (string_from-Keeps fuel start))
        (at s (next_line c line)) (omega arith))

string_body-Keeps : (k start : ℕ) → Keeps k (string_body start)
unfolding string_body
string_body-Keeps k start (at s line) h =
    string_from-Keeps (suc (length s)) start [] (at s line) (omega arith)

pub string-Eats : (k : ℕ) → Eats k string
unfolding string
string-Eats k = Keeps-bind-Eats k here _ (here-Keeps (suc k)) λ start.
    Eats-bind k (expect b'"' (codes "a string")) _ (expect-Eats k _ _)
      λ u. string_body-Keeps k start

length-number_bytes : (s : Text) → length (number_bytes s).1 ≤ length s
unfolding number_bytes
length-number_bytes [] = omega arith
length-number_bytes (c ∷ s) = elim (Bool-cases (is_number_byte c)) [
  | inl e ↦ rw (e, number_bytes) (omega (arith, length-number_bytes s))
  | inr e ↦ rw (e, number_bytes) (omega arith)
]

length-number_text : (s : Text) → length (number_text s).1 ≤ length s
unfolding number_text
length-number_text [] = omega arith
length-number_text (c ∷ s) = elim (Bool-cases (c == b'-')) [
  | inl e ↦ rw e (omega (arith, length-number_bytes s))
  | inr e ↦ rw e (length-number_bytes (c ∷ s))
]

pub number_literal-Keeps : (k : ℕ) → Keeps k number_literal
unfolding number_literal
number_literal-Keeps k (at s line) h = elim (Bool-cases (is_float (number_text s).0)) [
  | inl e ↦ rw e (got _ _ (length-number_text s))
  | inr e ↦ rw e (refuses _ _ _)
]

pub literal-Keeps : (k : ℕ) (word w : Text) → Keeps k (literal_from word w)
unfolding literal_from
literal-Keeps k word [] p h = got tt p (omega arith)
literal-Keeps k word (e ∷ w) (at [] line) h = refuses _ _ _
literal-Keeps k word (e ∷ w) (at (c ∷ s) line) h = elim (Bool-cases (c == e)) [
  | inl same ↦
      rw (same, literal_from)
        (Reads-weaken (length s) _ _ (omega arith)
          (literal-Keeps k word w (at s (next_line c line)) (omega arith)))
  | inr other ↦ rw (other, literal_from) (refuses _ _ _)
]

retold-Drops : {A : Type 0} (n : ℕ) (r : Parsed A) → Drops n r → Drops n (retold r)
unfolding retold
retold-Drops n r (dropped a q small) = dropped a q small
retold-Drops n r (denies line why now) = denies _ _ _

pub in_key-Eats : {A : Type 0} (k : ℕ) (m : Reader A) → Eats k m → Eats k (in_key m)
unfolding in_key
in_key-Eats k m h p small = retold-Drops (size p) (m p) (h p small)
