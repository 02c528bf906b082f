-- ===== src/Protocol/Parse/Refusals.antt =====
-- What `Request::parse` accepts, and the code of each refusal.
use whirl.Prelude.{
  ◌≤◌, ◌<◌, ◌≡◌, List, [], ◌∷◌, Text, true, false, Bool, length, text_eq, map, ◌||◌,
}
use whirl.Strings.Split.{split}
use whirl.Strings.Strip.{strip_cr, contains}
use whirl.Vocabulary.ErrorCode.{unknown_verb, too_long, bad_framing}
use whirl.Protocol.Request.{
  Request, Result, ok, err, ProtocolError, IsAccepted, verbs, max_request_line,
}
use whirl.Protocol.Parse.{first_or_empty}
use whirl.Protocol.Parse.Grammar.{Means}
use whirl.Protocol.Parse.Answers.{Answers, argument_code}

listed : Text → List Text → Bool
listed name [] = false
listed name (v ∷ vs) = text_eq name v || listed name vs

-- The first word of a text, and whether it is the first word of a verb of the grammar.
abbrev pub first_word : Text → Text
first_word line = first_or_empty (split b' ' line)

unfoldable pub is_verb : Text → Bool
unfolding listed
is_verb name = listed name (map first_word verbs)

-- What a line is answered, with the condition of each answer.
pub data Outcome (line : Text) : Result Request → Type 0 where
  exceeds :
      (e : ProtocolError)
      → max_request_line < length line
      → e.code ≡ too_long
      → Outcome line (err e)
  has_nul :
      (e : ProtocolError)
      → length line ≤ max_request_line
      → contains 0 line ≡ true
      → e.code ≡ bad_framing
      → Outcome line (err e)
  unheard :
      (e : ProtocolError)
      → length line ≤ max_request_line
      → contains 0 line ≡ false
      → is_verb (first_word (strip_cr line)) ≡ false
      → e.code ≡ unknown_verb
      → ((r : Request) → ¬ Means (strip_cr line) r)
      → Outcome line (err e)
  misused :
      (e : ProtocolError)
      → length line ≤ max_request_line
      → contains 0 line ≡ false
      → is_verb (first_word (strip_cr line)) ≡ true
      → argument_code e.code ≡ true
      → ((r : Request) → ¬ Means (strip_cr line) r)
      → Outcome line (err e)
  understood :
      (r : Request)
      → length line ≤ max_request_line
      → contains 0 line ≡ false
      → is_verb (first_word (strip_cr line)) ≡ true
      → IsAccepted r
      → Means (strip_cr line) r
      → Outcome line (ok r)
