-- ===== src/Protocol/Parse.antt =====
-- `Request::parse` and its helpers. `quoted` is the `{:?}` of a text in a message, which the
-- standard library prints.
pub mod Grammar
pub mod Rest
pub mod Answers
pub mod Arms
pub mod Roundtrip
pub mod Refusals
use whirl.Prelude.{
  ℕ, zero, suc, List, [], ◌∷◌, ◌++◌, Option, none, some, Text, Bool, true, false, ◌&&◌, ◌||◌, codes,
  ltb, leb, text_eq, length, if◌then◌else◌,
}
use whirl.Prelude.Decimal.{decimal}
use whirl.Strings.Split.{split, split_once}
use whirl.Strings.Strip.{strip_prefix, strip_cr, trim_end, contains}
use whirl.Strings.Number.{read_unsigned, u32_max, u64_max}
use whirl.Vocabulary.ErrorCode.{
  ErrorCode, unknown_verb, bad_args, too_long, bad_framing, bad_protocol,
}
use whirl.Protocol.Request.{
  Request, hello, ping, version, status, next, prev, set_path, set_id, pause, resume, history,
  favorites, favorite, unfavorite, sources, config_path, config_check, subscribe, close, Result, ok,
  err, ProtocolError, verb, is_absolute_path, max_request_line, default_history_count,
  max_history_count,
}

abbrev pub refuse {ℓ} : {A : Type ℓ} → ErrorCode → Text → Result A
refuse c why = err (record { code = c; message = why })

unfoldable pub no_args : List Text → Request → Result Request
no_args [] request = ok request
no_args ([] ∷ []) request = ok request
no_args _ request = refuse bad_args (verb request ++ codes ": takes no arguments")

unfoldable pub non_empty : Text → Text → (Text → Request) → Result Request
non_empty [] verb_name make = refuse bad_args (verb_name ++ codes ": an argument is required")
non_empty (c ∷ value) verb_name make = ok (make (c ∷ value))

unfoldable pub range_message : Text → Text
range_message got = codes "history: n must be 1..=50, got " ++ got

unfoldable pub check_count : Text → Option ℕ → Result Request
unfolding range_message
check_count got none = refuse bad_args (range_message got)
check_count got (some n) =
    if ltb n 1
    then refuse bad_args (range_message got)
    else if ltb max_history_count n
    then refuse bad_args (range_message (decimal n))
    else ok (history n)

unfoldable pub parse_history : List Text → Result Request
unfolding check_count
parse_history [] = check_count [] (some default_history_count)
parse_history (n ∷ []) = check_count n (read_unsigned u64_max n)
parse_history (n ∷ m ∷ more) = refuse bad_args (codes "history: at most one count")

unfoldable pub parse_favorite : List Text → Result Request
unfolding non_empty
parse_favorite [] = ok (favorite none)
parse_favorite (id ∷ []) = non_empty id (codes "favorite") (λ i. favorite (some i))
parse_favorite (id ∷ other ∷ more) = refuse bad_args (codes "favorite: at most one id")

unfoldable pub parse_unfavorite : List Text → Result Request
unfolding non_empty
parse_unfavorite (id ∷ []) = non_empty id (codes "unfavorite") unfavorite
parse_unfavorite _ = refuse bad_args (codes "unfavorite: exactly one id")

unfoldable pub parse_config : List Text → Result Request
parse_config (what ∷ []) =
    if text_eq what (codes "path")
    then ok config_path
    else if text_eq what (codes "check")
    then ok config_check
    else refuse bad_args (codes "config: the second token must be `path` or `check`")
parse_config _ = refuse bad_args (codes "config: the second token must be `path` or `check`")

unfoldable pub check_since : Text → Option ℕ → Result Request
check_since got none =
    refuse bad_args (codes "subscribe: " ++ (got ++ codes " is not a sequence number"))
check_since got (some seq) = ok (subscribe (some seq))

unfoldable pub parse_subscribe : List Text → Result Request
unfolding check_since
parse_subscribe [] = ok (subscribe none)
parse_subscribe (seq ∷ []) = check_since seq (read_unsigned u64_max seq)
parse_subscribe (seq ∷ other ∷ more) =
    refuse bad_args (codes "subscribe: at most one sequence number")

-- The list of arguments: none for a bare verb, one empty argument for a trailing space.
unfoldable pub arguments : Option Text → List Text
unfolding split
arguments none = []
arguments (some []) = [] ∷ []
arguments (some (c ∷ rest)) = split b' ' (c ∷ rest)

unfoldable pub first_or_empty : List Text → Text
first_or_empty [] = []
first_or_empty (a ∷ args) = a

unfoldable pub text_or_empty : Option Text → Text
text_or_empty none = []
text_or_empty (some t) = t

-- The client id of `hello`: the second argument, where nothing follows it.
unfoldable pub hello_client : ℕ → List Text → Result Request
hello_client v (a ∷ client ∷ []) = ok (hello v (some client))
hello_client v (a ∷ client ∷ b ∷ more) = refuse bad_args (codes "hello: at most one client id")
hello_client v _ = ok (hello v none)

-- The first arm whose verb is `name`, or the arm for any other.
unfoldable pub match_verb : Text → List (Text × Result Request) → Result Request → Result Request
match_verb name [] other = other
match_verb name ((v, answer) ∷ more) other =
    if text_eq name v then answer else match_verb name more other

module _ (quoted : Text → Text) where
  unfoldable pub hello_version : List Text → Option ℕ → Result Request
  unfolding hello_client first_or_empty
  hello_version args none =
      refuse bad_protocol
        (codes "hello: " ++ (quoted (first_or_empty args) ++ codes " is not a protocol version"))
  hello_version args (some v) = hello_client v args

  unfoldable pub parse_hello : List Text → Result Request
  unfolding hello_version
  parse_hello args = hello_version args (read_unsigned u32_max (first_or_empty args))

  unfoldable pub check_path : Text → Result Request
  check_path [] = refuse bad_args (codes "set path: an absolute path is required")
  check_path (c ∷ path) =
      if is_absolute_path (c ∷ path)
      then ok (set_path (c ∷ path))
      else refuse bad_args (codes "set path: " ++ (quoted (c ∷ path) ++ codes " is not absolute"))

  -- `set path` and `set id` take the rest of the line, spaces included.
  unfoldable pub parse_set : Text → Result Request
  unfolding check_path non_empty
  parse_set rest = elim (strip_prefix (codes "path ") rest) [
    | some path ↦ check_path (trim_end 13 path)
    | none ↦ elim (strip_prefix (codes "id ") rest) [
      | some id ↦ non_empty (trim_end 13 id) (codes "set id") set_id
      | none ↦ refuse bad_args (codes "set: the second token must be `path` or `id`")
    ]
  ]

  -- The arms of the `match` on the verb, in their order.
  unfoldable pub arms : Option Text → List (Text × Result Request)
  unfolding no_args arguments parse_hello parse_history parse_favorite parse_unfavorite parse_set
      parse_config parse_subscribe text_or_empty
  arms rest =
      let args = arguments rest in
      (codes "hello", parse_hello args)
      ∷ (codes "ping", no_args args ping)
      ∷ (codes "version", no_args args version)
      ∷ (codes "status", no_args args status)
      ∷ (codes "next", no_args args next)
      ∷ (codes "prev", no_args args prev)
      ∷ (codes "pause", no_args args pause)
      ∷ (codes "resume", no_args args resume)
      ∷ (codes "favorites", no_args args favorites)
      ∷ (codes "sources", no_args args sources)
      ∷ (codes "close", no_args args close)
      ∷ (codes "history", parse_history args)
      ∷ (codes "favorite", parse_favorite args)
      ∷ (codes "unfavorite", parse_unfavorite args)
      ∷ (codes "set", parse_set (text_or_empty rest))
      ∷ (codes "config", parse_config args)
      ∷ (codes "subscribe", parse_subscribe args)
      ∷ []

  unfoldable pub parse_verb : Text → Option Text → Result Request
  unfolding arms match_verb
  parse_verb name rest =
      match_verb name (arms rest) (refuse unknown_verb (codes "unknown command " ++ quoted name))

  -- The line after the framing: up to the first space, and the rest.
  unfoldable pub parse_stripped : Text → Result Request
  parse_stripped line = elim (split_once b' ' line) [
    | none ↦ parse_verb line none
    | some (name, rest) ↦ parse_verb name (some rest)
  ]

  unfoldable pub parse : Text → Result Request
  unfolding parse_stripped strip_cr
  parse line =
      if ltb max_request_line (length line)
      then refuse too_long (codes "request line exceeds 8192 bytes")
      else if contains 0 line
      then refuse bad_framing (codes "NUL in request line")
      else parse_stripped (strip_cr line)
