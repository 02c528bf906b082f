-- ===== src/Protocol/Response.antt =====
-- `Terminator`, `Response` and `parse_response`: data lines, then exactly one terminator. `quoted`
-- is the `{:?}` of a text in a message, which the standard library prints.
pub mod Roundtrip
use whirl.Prelude.{
  ℕ, List, [], ◌∷◌, ◌++◌, Option, none, some, Text, Bool, codes, text_eq, map, if◌then◌else◌,
}
use whirl.Strings.Split.{split_once, split_inclusive}
use whirl.Strings.Strip.{strip_prefix, strip_suffix, strip_cr}
use whirl.Vocabulary.ErrorCode
use whirl.Vocabulary.ErrorCode.{ErrorCode}
use whirl.Protocol.Request.{Result, ProtocolError}

pub data Terminator : Type 0 where
  ok : Terminator
  err : (code : ErrorCode) (message : Text) → Terminator

unfoldable pub encode_err : Text → Text → Text
encode_err code [] = codes "ERR " ++ code
encode_err code (c ∷ message) = codes "ERR " ++ (code ++ b' ' ∷ c ∷ message)

unfoldable pub encode_terminator : Terminator → Text
unfolding encode_err
encode_terminator ok = codes "OK"
encode_terminator (err code message) = encode_err (ErrorCode.as_str code) message

-- A response, and a response that was parsed: the two have the same fields.
pub record Response : Type 0 where
  pub lines : List Text
  pub terminator : Terminator

-- `Response::ok` and `Response::err`, and a data line put behind the others.
unfoldable pub ok_response : Response
ok_response = record { lines = []; terminator = ok }

unfoldable pub err_response : ErrorCode → Text → Response
err_response code message = record { lines = []; terminator = err code message }

unfoldable pub add_line : Response → Text → Response
add_line r text = record r { lines = r.lines ++ text ∷ [] }

unfoldable pub kv : Response → Text → Text → Response
unfolding add_line
kv r key value = add_line r (key ++ (codes ": " ++ value))

unfoldable pub write_lines : List Text → Text → Text
write_lines [] rest = rest
write_lines (line ∷ lines) rest = line ++ b'\n' ∷ write_lines lines rest

unfoldable pub encode : Response → Text
unfolding write_lines encode_terminator
encode r = write_lines r.lines (encode_terminator r.terminator ++ b'\n' ∷ [])

-- `str::lines`: a piece without its newline, and without a carriage return before the newline.
unfoldable pub line_of : Text → Text
unfolding strip_suffix strip_cr
line_of piece = elim (strip_suffix b'\n' piece) [ none ↦ piece | some line ↦ strip_cr line ]

unfoldable pub text_lines : Text → List Text
unfolding line_of split_inclusive
text_lines text = map line_of (split_inclusive b'\n' text)

-- The code and the message behind `ERR `.
unfoldable pub split_err : Text → Text × Text
split_err rest = elim (split_once b' ' rest) [ none ↦ (rest, []) | some parts ↦ parts ]

-- A data line in front of what follows it.
unfoldable pub push_line : Text → Result Response → Result Response
push_line line (Result.ok r) = Result.ok (record r { lines = line ∷ r.lines })
push_line line (Result.err e) = Result.err e

abbrev internal_error : Text → Result Response
internal_error why = Result.err (record { code = ErrorCode.internal; message = why })

module _ (quoted : Text → Text) where
  unfoldable pub read_err : Text → Text → Result Response
  read_err code message = elim (ErrorCode.parse code) [
    | some c ↦ Result.ok (record { lines = []; terminator = err c message })
    | none ↦ internal_error (codes "unknown error code " ++ quoted code)
  ]

  -- Line after line up to the terminator; what stands behind it is not read.
  unfoldable pub parse_lines : List Text → Result Response
  unfolding read_err split_err push_line
  parse_lines [] = internal_error (codes "no OK or ERR terminator")
  parse_lines (raw ∷ more) =
      let line = strip_cr raw in
      let rest = parse_lines more in
      if text_eq line (codes "OK")
      then Result.ok (record { lines = []; terminator = ok })
      else elim (strip_prefix (codes "ERR ") line) [
        | some tail ↦ read_err (split_err tail).0 (split_err tail).1
        | none ↦ push_line line rest
      ]

  unfoldable pub parse_response : Text → Result Response
  unfolding parse_lines text_lines
  parse_response text = parse_lines (text_lines text)
