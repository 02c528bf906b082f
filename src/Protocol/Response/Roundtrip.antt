-- ===== src/Protocol/Response/Roundtrip.antt =====
-- What `Response::encode` writes, `parse_response` reads back, whatever follows it on the wire.
use whirl.Prelude.{
  ℕ, ◌≡◌, refl, ap, List, [], ◌∷◌, ◌++◌, none, Text, false, codes, text_eq, Lacks, All, arith,
  append_assoc,
}
use whirl.Strings.Split.{split_inclusive-append, split_once-append, split_once_of-Lacks}
use whirl.Strings.Strip.{
  strip_prefix, strip_suffix, strip_cr, strip_cr_of_none, strip_suffix-append,
}
use whirl.Vocabulary.ErrorCode
use whirl.Vocabulary.ErrorCode.{ErrorCode}
use whirl.Protocol.Request.{Result}
use whirl.Protocol.Response.{
  Terminator, ok, err, Response, encode, encode_terminator, write_lines, line_of, text_lines,
  split_err, push_line, read_err, parse_lines, parse_response,
}

-- A line of its own: no newline in it, and no carriage return at its end.
pub record IsLine (line : Text) : Type 0 where
  pub one : Lacks b'\n' line
  pub no_cr : strip_suffix 13 line ≡ none

-- A line that is not taken for a terminator.
pub record IsDataLine (line : Text) : Type 0 where
  pub is_line : IsLine line
  pub not_ok : text_eq line (codes "OK") ≡ false
  pub not_err : strip_prefix (codes "ERR ") line ≡ none

line_of-newline : (line : Text) → IsLine line → line_of (line ++ b'\n' ∷ []) ≡ line
unfolding line_of
line_of-newline line h = rw (strip_suffix-append b'\n' line, strip_cr_of_none line h.no_cr, line_of)

text_lines-append :
    (line rest : Text) → IsLine line → text_lines (line ++ b'\n' ∷ rest) ≡ line ∷ text_lines rest
unfolding text_lines line_of
text_lines-append line rest h =
    rw (split_inclusive-append b'\n' line rest h.one, line_of-newline line h)

module _ (quoted : Text → Text) where
  read_err-as_str :
      (code : ErrorCode) (message : Text)
      → read_err quoted (ErrorCode.as_str code) message
        ≡ Result.ok (record { lines = []; terminator = err code message })
  unfolding read_err
  read_err-as_str code message = rw (ErrorCode.parse-as_str code, read_err)

  as_str-Lacks_space : (code : ErrorCode) → Lacks b' ' (ErrorCode.as_str code)
  unfolding ErrorCode.as_str
  as_str-Lacks_space code = ground arith

  split_err-code :
      (code : ErrorCode) (c : ℕ) (message : Text)
      → split_err (ErrorCode.as_str code ++ b' ' ∷ c ∷ message)
        ≡ (ErrorCode.as_str code, c ∷ message)
  unfolding split_err
  split_err-code code c message = rw (
    split_once-append b' ' (ErrorCode.as_str code) (c ∷ message) (as_str-Lacks_space code),
    split_err,
  )

  split_err-bare :
      (code : ErrorCode) → split_err (ErrorCode.as_str code) ≡ (ErrorCode.as_str code, [])
  unfolding split_err
  split_err-bare code =
      rw (split_once_of-Lacks b' ' (ErrorCode.as_str code) (as_str-Lacks_space code), split_err)

  parse_lines-err :
      (tail : Text) (more : List Text)
      → IsLine (codes "ERR " ++ tail)
      → parse_lines quoted ((codes "ERR " ++ tail) ∷ more)
        ≡ read_err quoted (split_err tail).0 (split_err tail).1
  unfolding parse_lines strip_prefix text_eq
  parse_lines-err tail more h = rw (strip_cr_of_none (codes "ERR " ++ tail) h.no_cr)

  parse_lines-terminator :
      (t : Terminator) (more : List Text)
      → IsLine (encode_terminator t)
      → parse_lines quoted (encode_terminator t ∷ more)
        ≡ Result.ok (record { lines = []; terminator = t })
  unfolding encode_terminator parse_lines text_eq strip_cr
  parse_lines-terminator ok more h = refl
  parse_lines-terminator (err code []) more h =
      rw (parse_lines-err (ErrorCode.as_str code) more h, split_err-bare code)
        (read_err-as_str code [])
  parse_lines-terminator (err code (c ∷ message)) more h =
      rw
        (
          parse_lines-err (ErrorCode.as_str code ++ b' ' ∷ c ∷ message) more h,
          split_err-code code c message,
        )
        (read_err-as_str code (c ∷ message))

  parse_lines-data :
      (line : Text) (more : List Text)
      → IsDataLine line
      → parse_lines quoted (line ∷ more) ≡ push_line line (parse_lines quoted more)
  unfolding parse_lines
  parse_lines-data line more h =
      rw (strip_cr_of_none line h.is_line.no_cr, h.not_ok, h.not_err)
        (ap (λ l. push_line l (parse_lines quoted more)) (strip_cr_of_none line h.is_line.no_cr))

  parse_lines-write :
      (lines : List Text) (t : Terminator) (rest : Text)
      → All IsDataLine lines
      → IsLine (encode_terminator t)
      → parse_lines quoted
          (text_lines (write_lines lines (encode_terminator t ++ b'\n' ∷ []) ++ rest))
        ≡ Result.ok (record { lines = lines; terminator = t })
  unfolding write_lines push_line
  parse_lines-write [] t rest h k =
      rw
        (
          append_assoc (encode_terminator t) (b'\n' ∷ []) rest,
          text_lines-append (encode_terminator t) rest k,
        )
        (parse_lines-terminator t (text_lines rest) k)
  parse_lines-write (line ∷ lines) t rest h k =
      let after = write_lines lines (encode_terminator t ++ b'\n' ∷ []) in
      rw
        (
          append_assoc line (b'\n' ∷ after) rest,
          text_lines-append line (after ++ rest) h.0.is_line,
          parse_lines-data line (text_lines (after ++ rest)) h.0,
          parse_lines-write lines t rest h.1 k,
        )
        refl

  -- Whatever follows a response on the wire is left alone: the lines come back as they were written,
  -- and so does the terminator, where no line is taken for a terminator and none holds a newline or
  -- ends in a carriage return.
  pub parse_response-encode :
      (r : Response) (rest : Text)
      → All IsDataLine r.lines
      → IsLine (encode_terminator r.terminator)
      → parse_response quoted (encode r ++ rest) ≡ Result.ok r
  unfolding encode parse_response
  parse_response-encode r rest h t = parse_lines-write r.lines r.terminator rest h t
