-- ===== src/Json/Escapes.antt =====
-- One character that is written in a string, and the turn of the reader that takes it.
use whirl.Prelude.{
  ℕ, suc, ◌+◌, ◌*◌, ◌/◌, ◌%◌, ◌≤◌, ◌<◌, ◌≡◌, ◌∙◌, refl, ap, subst, [], ◌∷◌, ◌++◌, true, false, ◌&&◌,
  Option, some, Text, leb, ltb, ◌==◌, if◌then◌else◌, Bool-cases, inl, inr, ◌⊎◌, arith,
}
use whirl.Json.{
  Reason, Cursor, at, Parsed, ok, err, and_then, ◌>>=◌, fail, next_line, bump, not_utf8,
  not_a_character,
}
use whirl.Json.Strings.{
  lead, to_digit, hex_digit_of, hex_digits, is_char, utf8, push_char, surrogate_pair, unicode,
  escape, breaks, copied, is_utf8_after, chunk, string_turn,
}
use whirl.Json.Write.{hex_lower, char_into}

abbrev pub IsAscii : ℕ → Type 0
IsAscii c = c < 0x80

-- The copying of a character breaks off before every byte.
breaks-always : (c : ℕ) → breaks c ≡ true
unfolding breaks
breaks-always c = ground arith

copied-nothing : (s : Text) (line : ℕ) → copied s line ≡ ([], at s line)
unfolding copied
copied-nothing [] line = refl
copied-nothing (c ∷ s) line = rw (breaks-always c, copied) refl

to_digit-hex_lower : (d : ℕ) → d < 16 → to_digit (hex_lower d) ≡ some d
unfolding to_digit
to_digit-hex_lower d h = ground arith

hex_lower-plain : (d : ℕ) → d < 16 → (hex_lower d == 10) ≡ false
hex_lower-plain d h = ground arith

pub plain_line : (c line : ℕ) → (c == 10) ≡ false → next_line c line ≡ line
plain_line c line h = rw h refl

no_more : (n : ℕ) → 0 * 16 + n ≡ n
no_more n = omega arith

split_again : (c : ℕ) → c / 16 * 16 + c % 16 ≡ c
split_again c = omega arith

last_digits :
    (c : ℕ) (rest : Text) (line : ℕ)
    → hex_digits 0 (c / 16 * 16 + c % 16) (at rest line) ≡ ok c (at rest line)
unfolding hex_digits
last_digits c rest line = ap (λ n. ok n (at rest line)) (split_again c)

digit-back : (d : ℕ) (p : Cursor) → d < 16 → hex_digit_of (some (hex_lower d)) p ≡ ok d p
unfolding hex_digit_of
digit-back d p h = rw (to_digit-hex_lower d h, hex_digit_of) refl

hex_digits-step :
    (n v d : ℕ) (s : Text) (line : ℕ)
    → d < 16
    → hex_digits (suc n) v (at (hex_lower d ∷ s) line) ≡ hex_digits n (v * 16 + d) (at s line)
unfolding hex_digits
hex_digits-step n v d s line h =
    ap (λ l. and_then (hex_digit_of (some (hex_lower d)) (at s l)) (λ e. hex_digits n (v * 16 + e)))
      (plain_line (hex_lower d) line (hex_lower-plain d h))
    ∙ ap (λ r. and_then r (λ e. hex_digits n (v * 16 + e))) (digit-back d (at s line) h)

hex-back :
    (c : ℕ) (rest : Text) (line : ℕ)
    → c < 0x20
    → hex_digits 4 0 (at (b'0' ∷ b'0' ∷ hex_lower (c / 16) ∷ hex_lower (c % 16) ∷ rest) line)
      ≡ ok c (at rest line)
hex-back c rest line h =
    hex_digits-step 3 0 0 _ line (omega arith)
    ∙ hex_digits-step 2 0 0 _ line (omega arith)
    ∙ hex_digits-step 1 0 (c / 16) _ line (omega arith)
    ∙ ap (λ v. hex_digits 1 v (at (hex_lower (c % 16) ∷ rest) line)) (no_more (c / 16))
    ∙ hex_digits-step 0 (c / 16) (c % 16) rest line (omega arith)
    ∙ last_digits c rest line

utf8-ascii : (c : ℕ) → c < 0x80 → is_utf8_after (some lead) (c ∷ []) ≡ true
unfolding is_utf8_after
utf8-ascii c h = ground arith

utf8-foreign : (c : ℕ) → 0x80 ≤ c → is_utf8_after (some lead) (c ∷ []) ≡ false
unfolding is_utf8_after
utf8-foreign c h = ground arith

checked : Text → Text × Cursor → Parsed (Option Text)
checked c (more, p) =
    if is_utf8_after (some lead) (c ++ more) then ok (some (c ++ more)) p else fail not_utf8 p

chunk-checked :
    (c : ℕ) (s : Text) (line : ℕ) → chunk c (at s line) ≡ checked (c ∷ []) ([], at s line)
unfolding chunk checked
chunk-checked c s line = ap (checked (c ∷ [])) (copied-nothing s line)

chunk-ascii :
    (c : ℕ) (s : Text) (line : ℕ) → c < 0x80 → chunk c (at s line) ≡ ok (some (c ∷ [])) (at s line)
unfolding checked
chunk-ascii c s line h = chunk-checked c s line ∙ rw (utf8-ascii c h) refl

pub chunk-foreign :
    (c : ℕ) (s : Text) (line : ℕ) → 0x80 ≤ c → chunk c (at s line) ≡ err line not_utf8 line
unfolding checked
chunk-foreign c s line h = chunk-checked c s line ∙ rw (utf8-foreign c h) refl

abbrev pub Turns : ℕ → ℕ → Type 0
Turns start c =
    (rest : Text) (line : ℕ)
    → (bump >>= string_turn start) (at (char_into c rest) line) ≡ ok (some (c ∷ [])) (at rest line)

turn-quote : (start : ℕ) → Turns start b'"'
unfolding char_into string_turn escape
turn-quote start rest line = refl

turn-backslash : (start : ℕ) → Turns start b'\\'
unfolding char_into string_turn escape
turn-backslash start rest line = refl

char_into-plain :
    (c : ℕ) (rest : Text)
    → 0x20 ≤ c
    → (c == b'"') ≡ false
    → (c == b'\\') ≡ false
    → char_into c rest ≡ c ∷ rest
unfolding char_into
char_into-plain c rest low q b = ground arith

not_newline : (c : ℕ) → 0x20 ≤ c → (c == 10) ≡ false
not_newline c low = ground arith

not_control : (c : ℕ) → 0x20 ≤ c → ltb c 0x20 ≡ false
not_control c low = ground arith

turn-plain :
    (start c : ℕ) → 0x20 ≤ c → c < 0x80 → (c == b'"') ≡ false → (c == b'\\') ≡ false → Turns start c
unfolding string_turn
turn-plain start c low h q b rest line =
    ap (λ t. (bump >>= string_turn start) (at t line)) (char_into-plain c rest low q b)
    ∙ ap (λ l. string_turn start (some c) (at rest l)) (plain_line c line (not_newline c low))
    ∙ rw (q, b, not_control c low, string_turn) (chunk-ascii c rest line h)

turn-escaped : (start c : ℕ) → (c ≡ 9) ⊎ (c ≡ 10) ⊎ (c ≡ 13) → Turns start c
unfolding char_into string_turn escape
turn-escaped start c h rest line = ground arith

char_into-control :
    (c : ℕ) (rest : Text)
    → c < 0x20
    → (c == 9) ≡ false
    → (c == 10) ≡ false
    → (c == 13) ≡ false
    → char_into c rest ≡ b'\\' ∷ b'u' ∷ b'0' ∷ b'0' ∷ hex_lower (c / 16) ∷ hex_lower (c % 16) ∷ rest
unfolding char_into
char_into-control c rest h t n r = ground arith

push_char-control :
    (c : ℕ) (why : Reason) (p : Cursor) → c < 0x20 → push_char c why p ≡ ok (some (c ∷ [])) p
unfolding push_char is_char utf8
push_char-control c why p h = ground arith

not_high : (c : ℕ) → c < 0x20 → (leb 0xd800 c && ltb c 0xdc00) ≡ false
not_high c h = ground arith

escape-u :
    (start c : ℕ) (rest : Text) (line : ℕ)
    → c < 0x20
    → (bump >>= string_turn start)
        (at (b'\\' ∷ b'u' ∷ b'0' ∷ b'0' ∷ hex_lower (c / 16) ∷ hex_lower (c % 16) ∷ rest) line)
      ≡ ok (some (c ∷ [])) (at rest line)
unfolding string_turn escape unicode
escape-u start c rest line h =
    ap
      (λ r. and_then r λ high.
        if leb 0xd800 high && ltb high 0xdc00
        then surrogate_pair high
        else push_char high (not_a_character high))
      (hex-back c rest line h)
    ∙ rw (not_high c h) (push_char-control c (not_a_character c) (at rest line) h)

turn-control :
    (start c : ℕ)
    → c < 0x20
    → (c == 9) ≡ false
    → (c == 10) ≡ false
    → (c == 13) ≡ false
    → Turns start c
turn-control start c h t n r rest line =
    ap (λ text. (bump >>= string_turn start) (at text line)) (char_into-control c rest h t n r)
    ∙ escape-u start c rest line h

same : {c d : ℕ} → (c == d) ≡ true → d ≡ c
same h = ground arith

pub turn-char_into : (start c : ℕ) → c < 0x80 → Turns start c
turn-char_into start c h = elim (Bool-cases (ltb c 0x20)) [
  | inr large ↦ elim (Bool-cases (c == b'"')) [
    | inl q ↦ subst (Turns start) (same q) (turn-quote start)
    | inr q ↦ elim (Bool-cases (c == b'\\')) [
      | inl b ↦ subst (Turns start) (same b) (turn-backslash start)
      | inr b ↦ turn-plain start c (ground arith) h q b
    ]
  ]
  | inl small ↦ elim (Bool-cases (c == 9)) [
    | inl t ↦ turn-escaped start c (inl (ground arith))
    | inr t ↦ elim (Bool-cases (c == 10)) [
      | inl n ↦ turn-escaped start c (inr (inl (ground arith)))
      | inr n ↦ elim (Bool-cases (c == 13)) [
        | inl r ↦ turn-escaped start c (inr (inr (ground arith)))
        | inr r ↦ turn-control start c (ground arith) t n r
      ]
    ]
  ]
]
