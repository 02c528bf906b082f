-- ===== src/Tests/Protocol.antt =====
-- Requests, responses and records at concrete lines.
use whirl.Prelude.{◌≡◌, refl, [], ◌∷◌, ◌++◌, Text, codes, arith, text_eq}
use whirl.Vocabulary.ErrorCode.{busy, no_prev}
use whirl.Protocol.Request.{
  Request, hello, set_path, history, next, Result, ok, encode, IsAccepted, IsFramed,
}
use whirl.Protocol.Parse.{parse}
use whirl.Protocol.Parse.Roundtrip.{parse-encode}
use whirl.Protocol.Response.{Terminator, Response, encode_terminator, parse_response, parse_lines}
use whirl.Protocol.Response
use whirl.Protocol.Response.Roundtrip.{IsLine, IsDataLine, parse_response-encode}
use whirl.Protocol.Line.{classify_line}
use whirl.Protocol.Line.Agreement.{Continues, parse_lines-classify_line}

-- How the standard library prints a text that needs no escapes.
abbrev quoted_line : Text → Text
quoted_line text = b'"' ∷ text ++ b'"' ∷ []

abbrev set_spaced : Request
set_spaced = set_path (codes "/pictures/a b.png")

set_spaced-IsAccepted : IsAccepted set_spaced
unfolding whirl.Protocol.Request.is_absolute_path whirl.Strings.Strip.strip_suffix
set_spaced-IsAccepted = (refl, refl)

set_spaced-IsFramed : IsFramed (encode set_spaced)
unfolding encode whirl.Strings.Strip.contains whirl.Strings.Strip.strip_suffix
set_spaced-IsFramed = record { short = omega arith; no_nul = refl; no_cr = refl }

parse-encode_example : parse quoted_line (encode set_spaced) ≡ ok set_spaced
parse-encode_example = parse-encode quoted_line set_spaced set_spaced-IsAccepted set_spaced-IsFramed

parse_crlf : parse quoted_line (codes "history 7" ++ 13 ∷ []) ≡ ok (history 7)
unfolding parse whirl.Strings.Strip.contains whirl.Strings.Split.split_once
    whirl.Protocol.Parse.parse_verb text_eq whirl.Strings.Number.read_unsigned
parse_crlf = refl

abbrev reply : Response
reply = record {
  lines = codes "paused: 0" ∷ codes "queued" ∷ [];
  terminator = Terminator.err no_prev (codes "the ring is empty");
}

paused-IsDataLine : IsDataLine (codes "paused: 0")
unfolding whirl.Strings.Strip.strip_suffix text_eq whirl.Strings.Strip.strip_prefix
paused-IsDataLine = record {
  is_line = record { one = omega arith; no_cr = refl };
  not_ok = refl;
  not_err = refl;
}

queued-IsDataLine : IsDataLine (codes "queued")
unfolding whirl.Strings.Strip.strip_suffix text_eq whirl.Strings.Strip.strip_prefix
queued-IsDataLine = record {
  is_line = record { one = omega arith; no_cr = refl };
  not_ok = refl;
  not_err = refl;
}

reply-IsLine : IsLine (encode_terminator reply.terminator)
unfolding encode_terminator whirl.Vocabulary.ErrorCode.as_str whirl.Strings.Strip.strip_suffix
reply-IsLine = record { one = omega arith; no_cr = refl }

parse_response-encode_example :
    parse_response quoted_line (Response.encode reply ++ codes "event: 1 paused") ≡ Result.ok reply
parse_response-encode_example =
    parse_response-encode quoted_line reply (codes "event: 1 paused")
      (paused-IsDataLine, (queued-IsDataLine, tt)) reply-IsLine

parse_lines-classify_line_example :
    Continues
      (codes "ERR busy run 3")
      (parse_lines quoted_line (codes "ERR busy run 3" ∷ []))
      (parse_lines quoted_line [])
      (classify_line (codes "ERR busy run 3"))
parse_lines-classify_line_example =
    parse_lines-classify_line quoted_line (codes "ERR busy run 3") []
