-- ===== src/Http/Quoted.antt =====
-- A value in quotes is read back, and what is written for `curl` has the lines it is meant to have.
use whirl.Prelude.{
  ℕ, suc, ◌+◌, ◌==◌, ◌≡◌, ◌≢◌, ◌∙◌, refl, ap, Bool, true, false, [], ◌∷◌, ◌++◌, append_assoc,
  Option, none, some, Text, codes, if◌then◌else◌, arith, Lacks,
}
use whirl.Http.{
  HttpRequest, escaped, escapes, quoted, option_line, key_line, options, configuration,
  body_configuration, write_out_line, user_agent,
}

-- The reader of a value in quotes: a backslash takes the character after it, and a quote ends the value.
abbrev with_front : ℕ → Option (Text × Text) → Option (Text × Text)
with_front c none = none
with_front c (some (value, rest)) = some (c ∷ value, rest)

abbrev meaning : ℕ → ℕ
meaning c = if c == b'n' then 10 else if c == b'r' then 13 else c

unfoldable pub read_value : Bool → Text → Option (Text × Text)
read_value escape [] = none
read_value true (c ∷ text) = with_front (meaning c) (read_value false text)
read_value false (c ∷ text) =
    let plain = with_front c (read_value false text) in
    let escape = read_value true text in
    if c == b'"' then some ([], text) else if c == b'\\' then escape else plain

unfoldable pub read_quoted : Text → Option (Text × Text)
unfolding read_value
read_quoted [] = none
read_quoted (c ∷ text) = if c == b'"' then read_value false text else none

read_value-escaped :
    (c : ℕ) (rest : Text)
    → read_value false (escaped c ++ rest) ≡ with_front c (read_value false rest)
unfolding read_value escaped
read_value-escaped c rest = ground arith

Lacks-append : (b : ℕ) (s t : Text) → Lacks b s → Lacks b t → Lacks b (s ++ t)
Lacks-append b [] t hs ht = ht
Lacks-append b (c ∷ s) t hs ht = (hs.0, Lacks-append b s t hs.1 ht)

read_value-escapes :
    (value rest : Text) → read_value false (escapes value ++ b'"' ∷ rest) ≡ some (value, rest)
unfolding escapes read_value
read_value-escapes [] rest = refl
read_value-escapes (c ∷ value) rest =
    ap (read_value false) (append_assoc (escaped c) (escapes value) (b'"' ∷ rest))
    ∙ read_value-escaped c (escapes value ++ b'"' ∷ rest)
    ∙ ap (with_front c) (read_value-escapes value rest)

two_bytes : (a b : ℕ) → a ≢ 10 → b ≢ 10 → Lacks 10 (a ∷ b ∷ [])
two_bytes a b ha hb = (ha, (hb, tt))

if-Lacks :
    (b : Bool) (x y : Text)
    → (b ≡ true → Lacks 10 x)
    → (b ≡ false → Lacks 10 y)
    → Lacks 10 (if b then x else y)
if-Lacks true x y hx hy = hx refl
if-Lacks false x y hx hy = hy refl

escaped-Lacks : (c : ℕ) → Lacks 10 (escaped c)
unfolding escaped
escaped-Lacks c =
    if-Lacks (c == b'\\') _ _
      (λ e. two_bytes _ _ (λ f. absurd (omega arith)) λ f. absurd (omega arith))
      λ e1.
        if-Lacks (c == b'"') _ _
          (λ e. two_bytes _ _ (λ f. absurd (omega arith)) λ f. absurd (omega arith))
          λ e2.
            if-Lacks (c == 10) _ _
              (λ e. two_bytes _ _ (λ f. absurd (omega arith)) λ f. absurd (omega arith))
              λ e3.
                if-Lacks (c == 13) _ _
                  (λ e. two_bytes _ _ (λ f. absurd (omega arith)) λ f. absurd (omega arith))
                  λ e4. (ground arith, tt)

escapes-Lacks : (value : Text) → Lacks 10 (escapes value)
unfolding escapes
escapes-Lacks [] = tt
escapes-Lacks (c ∷ value) =
    Lacks-append 10 (escaped c) (escapes value) (escaped-Lacks c) (escapes-Lacks value)

abbrev quote : ℕ
quote = b'"'

quote_stays : quote ≢ 10
quote_stays e = absurd (omega arith)

pub quoted-Lacks : (value : Text) → Lacks 10 (quoted value)
unfolding quoted
quoted-Lacks value = (
  quote_stays,
  Lacks-append 10 (escapes value) (b'"' ∷ []) (escapes-Lacks value) (quote_stays, tt),
)

-- A value in quotes is one line, and it is read back, whatever it holds and whatever follows it.
pub read_quoted-quoted :
    (value rest : Text)
    → Lacks 10 (quoted value) × (read_quoted (quoted value ++ rest) ≡ some (value, rest))
unfolding quoted read_quoted
read_quoted-quoted value rest = (
  quoted-Lacks value,
  ap (read_value false) (append_assoc (escapes value) (b'"' ∷ []) rest)
      ∙ read_value-escapes value rest,
)

-- How many lines a text ends.
abbrev pub newlines : Text → ℕ
newlines [] = 0
newlines (c ∷ s) = if c == 10 then suc (newlines s) else newlines s

newlines-append : (s t : Text) → newlines (s ++ t) ≡ newlines s + newlines t
newlines-append [] t = omega arith
newlines-append (c ∷ s) t = ground (arith, newlines-append s t)

newlines-Lacks : (s : Text) → Lacks 10 s → newlines s ≡ 0
newlines-Lacks [] h = refl
newlines-Lacks (c ∷ s) h = ground (arith, h.0, newlines-Lacks s h.1)

-- The line of an option, whatever stands in its quotes.
newlines-quoted : (value rest : Text) → newlines (quoted value ++ 10 ∷ rest) ≡ suc (newlines rest)
newlines-quoted value rest = omega (
  arith,
  newlines-append (quoted value) (10 ∷ rest),
  newlines-Lacks (quoted value) (quoted-Lacks value),
)

abbrev pub keys : Option Text → ℕ
keys none = 0
keys (some key) = 1

newlines-option_line :
    (name value : Text) → newlines name ≡ 0 → newlines (option_line name (quoted value)) ≡ 1
newlines-option_line name value plain = omega (
  arith,
  plain,
  newlines-append (name ++ codes " = " ++ quoted value) (10 ∷ []),
  newlines-append (name ++ codes " = ") (quoted value),
  newlines-append name (codes " = "),
  newlines-Lacks (quoted value) (quoted-Lacks value),
)

newlines-key_line : (key : Option Text) → newlines (key_line key) ≡ keys key
unfolding key_line
newlines-key_line none = refl
newlines-key_line (some key) =
    newlines-option_line (codes "header") (codes "X-API-Key: " ++ key) refl

newlines-options : (r : HttpRequest) → newlines (options r) ≡ 5 + keys r.key
unfolding options
newlines-options r =
    let url = option_line (codes "url") (quoted r.url) in
    let agent = option_line (codes "user-agent") (quoted user_agent) in
    omega (
      arith,
      newlines-append (url ++ agent) (key_line r.key),
      newlines-append url agent,
      newlines-option_line (codes "url") r.url refl,
      newlines-option_line (codes "user-agent") user_agent refl,
      newlines-key_line r.key,
    )

-- What is written for a listing is six lines, and one more where there is a key; for a body it is one
-- line less. Nothing that stands in the address or the key can add a line.
pub newlines-configuration :
    (r : HttpRequest)
    → (newlines (configuration r) ≡ 6 + keys r.key)
      × (newlines (body_configuration r) ≡ 5 + keys r.key)
unfolding configuration
newlines-configuration r = (
  omega (arith, newlines-append (options r) write_out_line, newlines-options r),
  newlines-options r,
)
