-- ===== src/Protocol/Line.antt =====
-- The greeting, and `classify_line`: what one line read off the wire is.
pub mod Agreement
use whirl.Prelude.{
  ℕ, List, [], ◌∷◌, ◌++◌, Option, none, some, Text, Bool, true, false, ◌&&◌, ◌||◌, codes, text_eq,
  leb, ◌==◌, all, if◌then◌else◌,
}
use whirl.Prelude.Decimal.{decimal}
use whirl.Strings.Split.{split, split_once}
use whirl.Strings.Strip.{strip_prefix, strip_cr}
use whirl.Strings.Number.{read_unsigned, u32_max, is_decimal}
use whirl.Vocabulary.ErrorCode
use whirl.Vocabulary.ErrorCode.{ErrorCode}
use whirl.Protocol.Response.{split_err}

abbrev pub protocol_version : ℕ
protocol_version = 2

abbrev pub product_name : Text
product_name = codes "whirl"

-- `build` is the version of the workspace manifest, which the build puts in.
unfoldable pub greeting : Text → Text
greeting build =
    codes "OK "
    ++ (product_name ++ (b' ' ∷ build ++ (codes " protocol " ++ decimal protocol_version)))

pub record Greeting : Type 0 where
  pub product : Text
  pub version : Text
  pub protocol : ℕ

unfoldable pub greeting_of : Text → Text → Option ℕ → Option Greeting
greeting_of p v none = none
greeting_of p v (some n) = some (record { product = p; version = v; protocol = n })

unfoldable pub greeting_fields : List Text → Option Greeting
unfolding greeting_of
greeting_fields (status ∷ p ∷ v ∷ word ∷ number ∷ []) =
    if text_eq status (codes "OK") && text_eq word (codes "protocol")
    then greeting_of p v (read_unsigned u32_max number)
    else none
greeting_fields _ = none

unfoldable pub parse_greeting : Text → Option Greeting
unfolding greeting_fields
parse_greeting line = greeting_fields (split b' ' line)

pub data LineKind : Type 0 where
  greeting_line interim data_line event ok : LineKind
  err : (code : ErrorCode) (message : Text) → LineKind
  malformed : LineKind

unfoldable pub starts_with : Text → Text → Bool
unfolding strip_prefix
starts_with line p = elim (strip_prefix p line) [ none ↦ false | some rest ↦ true ]

unfoldable pub is_ascii_lowercase : ℕ → Bool
is_ascii_lowercase c = leb b'a' c && leb c b'z'

unfoldable pub is_key : Text → Bool
unfolding is_ascii_lowercase is_decimal
is_key [] = false
is_key (c ∷ key) =
    is_ascii_lowercase c && all (λ d. is_ascii_lowercase d || is_decimal d || (d == b'_')) (c ∷ key)

unfoldable pub is_record : Text → Text → Bool
unfolding starts_with
is_record line key = elim (strip_prefix key line) [
  | none ↦ false
  | some rest ↦ starts_with rest (codes ": ")
]

unfoldable pub has_key : Text → Bool
unfolding is_key
has_key line = elim (split_once b':' line) [ none ↦ false | some (key, value) ↦ is_key key ]

unfoldable pub is_record_or_data_line : Text → Bool
unfolding is_record has_key
is_record_or_data_line line =
    is_record line (codes "entry")
    || is_record line (codes "source")
    || is_record line (codes "set")
    || is_record line (codes "plan")
    || has_key line

unfoldable pub err_kind : Text → Text → LineKind
err_kind code message = elim (ErrorCode.parse code) [ some c ↦ err c message | none ↦ malformed ]

-- A line that is no terminator.
unfoldable pub classify_other : Text → LineKind
classify_other line = elim (parse_greeting line) [
  | some g ↦ greeting_line
  | none ↦
      if text_eq line (codes "queued")
      then interim
      else if starts_with line (codes "event: ")
      then event
      else if is_record_or_data_line line
      then data_line
      else malformed
]

unfoldable pub classify_stripped : Text → LineKind
unfolding err_kind classify_other
classify_stripped line =
    if text_eq line (codes "OK") then ok else elim (strip_prefix (codes "ERR ") line) [
      | some tail ↦ err_kind (split_err tail).0 (split_err tail).1
      | none ↦ classify_other line
    ]

unfoldable pub classify_line : Text → LineKind
unfolding classify_stripped strip_cr
classify_line line = classify_stripped (strip_cr line)
