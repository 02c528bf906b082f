-- ===== src/Protocol/Line/Agreement.antt =====
-- The client that prints as it reads and the one that parses a whole response see the same lines.
use whirl.Prelude.{
  ◌≡◌, refl, List, [], ◌∷◌, ◌++◌, some, Text, codes, text_eq, Lacks, arith, Bool-cases,
  Option-cases, inl, inr, ◌⊎◌,
}
use whirl.Prelude.Decimal.{decimal}
use whirl.Strings.Split.{split, split-append}
use whirl.Strings.Strip.{strip_prefix, strip_cr}
use whirl.Strings.Number.{read_unsigned}
use whirl.Vocabulary.ErrorCode
use whirl.Protocol.Request.{Result}
use whirl.Protocol.Response.{Terminator, Response, split_err, push_line, read_err, parse_lines}
use whirl.Protocol.Line.{
  LineKind, greeting_line, interim, data_line, event, malformed, classify_line, classify_other,
  err_kind, greeting, parse_greeting, product_name, protocol_version, starts_with,
  is_record_or_data_line,
}

-- The greeting that this build writes is read back with its three parts.
pub parse_greeting-greeting :
    (build : Text)
    → Lacks b' ' build
    → parse_greeting (greeting build)
      ≡ some (record { product = product_name; version = build; protocol = protocol_version })
unfolding parse_greeting greeting split decimal read_unsigned text_eq
parse_greeting-greeting build h =
    rw (split-append b' ' build (codes "protocol" ++ b' ' ∷ decimal protocol_version) h) refl

-- A line that the grammar allows and that is no terminator.
abbrev IsKept : LineKind → Type 0
IsKept k = (k ≡ greeting_line) ⊎ (k ≡ interim) ⊎ (k ≡ data_line) ⊎ (k ≡ event)

-- What the rest of a response is from a line on, by the line's kind: a terminator ends it, and any
-- other line is put in front of what the lines after it give. Nothing is said of a malformed line.
pub data Continues (line : Text) (here after : Result Response) : LineKind → Type 0 where
  ends_ok :
      here ≡ Result.ok (record { lines = []; terminator = Terminator.ok })
      → Continues line here after LineKind.ok
  ends_err :
      (code : ErrorCode.ErrorCode) (message : Text)
      → here ≡ Result.ok (record { lines = []; terminator = Terminator.err code message })
      → Continues line here after (LineKind.err code message)
  unread : Continues line here after malformed
  kept :
      (k : LineKind)
      → IsKept k
      → here ≡ push_line (strip_cr line) after
      → Continues line here after k

module _ (line : Text) (here after : Result Response) where
  classify_other-Continues :
      (stripped : Text)
      → here ≡ push_line (strip_cr line) after
      → Continues line here after (classify_other stripped)
  unfolding classify_other
  classify_other-Continues stripped h = elim (Option-cases (parse_greeting stripped)) [
    | inr (g, e) ↦ rw (e, classify_other) (kept _ (ground arith) h)
    | inl none_read ↦ elim (Bool-cases (text_eq stripped (codes "queued"))) [
      | inl queued ↦ rw (none_read, queued, classify_other) (kept _ (ground arith) h)
      | inr other ↦ elim (Bool-cases (starts_with stripped (codes "event: "))) [
        | inl e ↦ rw (none_read, other, e, classify_other) (kept _ (ground arith) h)
        | inr still ↦ elim (Bool-cases (is_record_or_data_line stripped)) [
          | inl e ↦ rw (none_read, other, still, e, classify_other) (kept _ (ground arith) h)
          | inr e ↦ rw (none_read, other, still, e, classify_other) unread
        ]
      ]
    ]
  ]

module _ (quoted : Text → Text) where
  err_kind-Continues :
      (line code message : Text) (after : Result Response)
      → Continues line (read_err quoted code message) after (err_kind code message)
  unfolding err_kind read_err
  err_kind-Continues line code message after = elim (Option-cases (ErrorCode.parse code)) [
    | inl unknown ↦ rw (unknown, err_kind) unread
    | inr (c, e) ↦ rw (e, err_kind, read_err) (ends_err c message refl)
  ]

  -- A line that is classified as a terminator ends the response with that terminator, and one that is
  -- classified as a greeting, an interim line, data or an event is put in front of what the lines after
  -- it give. Nothing is said of a malformed line.
  pub parse_lines-classify_line :
      (line : Text) (more : List Text)
      → Continues line
          (parse_lines quoted (line ∷ more))
          (parse_lines quoted more)
          (classify_line line)
  unfolding classify_line parse_lines
  parse_lines-classify_line line more = elim (Bool-cases (text_eq (strip_cr line) (codes "OK"))) [
    | inl done ↦ rw done (ends_ok refl)
    | inr other ↦ elim (Option-cases (strip_prefix (codes "ERR ") (strip_cr line))) [
      | inl e ↦
          rw (other, e)
            (classify_other-Continues line _ (parse_lines quoted more) (strip_cr line) refl)
      | inr (tail, e) ↦
          rw (other, e)
            (err_kind-Continues line (split_err tail).0 (split_err tail).1
              (parse_lines quoted more))
    ]
  ]
