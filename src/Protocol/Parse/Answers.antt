-- ===== src/Protocol/Parse/Answers.antt =====
-- What each arm of `Request::parse` accepts, and which arm a verb has.
use whirl.Prelude.{
  ℕ, ◌≡◌, refl, List, [], ◌∷◌, Option, none, some, Text, true, false, Bool, codes, inl, inr, Lacks,
  arith, All, text_eq, text_eq_iff, Bool-cases, Option-cases, ltb, ◌++◌, ap,
}
use whirl.Strings.Number.{u32_max, u64_max, read_unsigned, read_unsigned-le}
use whirl.Vocabulary.ErrorCode.{ErrorCode, bad_args, bad_protocol}
use whirl.Protocol.Request.{
  Request, hello, history, favorite, unfavorite, config_path, config_check, subscribe, Result, ok,
  verb, IsAccepted, IsWord,
}
use whirl.Protocol.Parse.{
  no_args, check_count, parse_hello, hello_version, hello_client, first_or_empty, parse_history,
  parse_favorite, parse_unfavorite, parse_config, check_since, parse_subscribe, refuse,
}
use whirl.Protocol.Parse.Rest.{join, rest_text}
use whirl.Protocol.Parse.Grammar.{
  is_bare, Means, bare, greets, greets_as, asks_history, asks_history_of, pins, pins_id, unpins,
  asks_path, asks_check, joins, joins_since,
}

-- The codes by which the arguments of a verb are refused.
abbrev pub argument_code : ErrorCode → Bool
argument_code bad_args = true
argument_code bad_protocol = true
argument_code _ = false

-- The line that a verb and what follows its space are taken from.
abbrev pub line_of : Text → Option Text → Text
line_of name none = name
line_of name (some rest) = name ++ b' ' ∷ rest

-- A verb's answer: a request as the grammar asks, which is what the line means, or its arguments
-- refused.
pub data Answers (name : Text) (rest : Option Text) : Result Request → Type 0 where
  accepted : (r : Request) → IsAccepted r → Means (line_of name rest) r → Answers name rest (ok r)
  refused : (c : ErrorCode) (why : Text) → argument_code c ≡ true → Answers name rest (refuse c why)

pub no_args-Answers :
    (args : List Text) (r : Request)
    → IsAccepted r
    → is_bare r ≡ true
    → Answers (verb r) (rest_text args) (no_args args r)
unfolding no_args join
no_args-Answers [] r h k = accepted r h (bare r k (inl refl))
no_args-Answers ([] ∷ []) r h k = accepted r h (bare r k (inr refl))
no_args-Answers ([] ∷ b ∷ more) r h k = refused bad_args _ refl
no_args-Answers ((c ∷ a) ∷ more) r h k = refused bad_args _ refl

check_count-Answers :
    (word : Text)
    → Lacks b' ' word
    → Answers (codes "history") (some word) (check_count word (read_unsigned u64_max word))
unfolding check_count
check_count-Answers word l = elim (Option-cases (read_unsigned u64_max word)) [
  | inl e ↦ rw e (refused bad_args _ refl)
  | inr (n, e) ↦ rw e (elim (Bool-cases (ltb n 1)) [
    | inl low ↦ rw low (refused bad_args _ refl)
    | inr enough ↦ elim (Bool-cases (ltb 50 n)) [
      | inl high ↦ rw (enough, high) (refused bad_args _ refl)
      | inr within ↦
          rw (enough, within)
            (accepted (history n) (ground arith, ground arith)
              (asks_history_of n word l e (ground arith) (ground arith) refl))
    ]
  ])
]

pub parse_history-Answers :
    (args : List Text)
    → All (Lacks b' ') args
    → Answers (codes "history") (rest_text args) (parse_history args)
unfolding parse_history check_count join
parse_history-Answers [] h = accepted (history 10) (omega arith) (asks_history refl)
parse_history-Answers (n ∷ []) h = check_count-Answers n h.0
parse_history-Answers (n ∷ m ∷ more) h = refused bad_args _ refl

pub parse_favorite-Answers :
    (args : List Text)
    → All (Lacks b' ') args
    → Answers (codes "favorite") (rest_text args) (parse_favorite args)
unfolding parse_favorite join
parse_favorite-Answers [] h = accepted (favorite none) tt (pins refl)
parse_favorite-Answers ([] ∷ []) h = refused bad_args _ refl
parse_favorite-Answers ((c ∷ id) ∷ []) h =
    let word : IsWord (c ∷ id) = record { filled = ground arith; spaceless = h.0 } in
    accepted (favorite (some (c ∷ id))) word (pins_id (c ∷ id) word refl)
parse_favorite-Answers (id ∷ other ∷ more) h = refused bad_args _ refl

pub parse_unfavorite-Answers :
    (args : List Text)
    → All (Lacks b' ') args
    → Answers (codes "unfavorite") (rest_text args) (parse_unfavorite args)
unfolding parse_unfavorite join
parse_unfavorite-Answers [] h = refused bad_args _ refl
parse_unfavorite-Answers ([] ∷ []) h = refused bad_args _ refl
parse_unfavorite-Answers ((c ∷ id) ∷ []) h =
    let word : IsWord (c ∷ id) = record { filled = ground arith; spaceless = h.0 } in
    accepted (unfavorite (c ∷ id)) word (unpins (c ∷ id) word refl)
parse_unfavorite-Answers (id ∷ other ∷ more) h = refused bad_args _ refl

config_line :
    (what other : Text)
    → text_eq what other ≡ true
    → codes "config " ++ what ≡ codes "config " ++ other
config_line what other h = ap (λ t. codes "config " ++ t) ((text_eq_iff what other).0 h)

pub parse_config-Answers :
    (args : List Text) → Answers (codes "config") (rest_text args) (parse_config args)
unfolding parse_config join
parse_config-Answers [] = refused bad_args _ refl
parse_config-Answers (what ∷ []) = elim (Bool-cases (text_eq what (codes "path"))) [
  | inl path ↦ rw path (accepted config_path tt (asks_path (config_line what (codes "path") path)))
  | inr other ↦ elim (Bool-cases (text_eq what (codes "check"))) [
    | inl check ↦
        rw (other, check)
          (accepted config_check tt (asks_check (config_line what (codes "check") check)))
    | inr neither ↦ rw (other, neither) (refused bad_args _ refl)
  ]
]
parse_config-Answers (what ∷ other ∷ more) = refused bad_args _ refl

check_since-Answers :
    (word : Text)
    → Lacks b' ' word
    → Answers (codes "subscribe") (some word) (check_since word (read_unsigned u64_max word))
unfolding check_since
check_since-Answers word l = elim (Option-cases (read_unsigned u64_max word)) [
  | inl e ↦ rw e (refused bad_args _ refl)
  | inr (n, e) ↦ rw e (
      accepted (subscribe (some n)) (read_unsigned-le u64_max word n e)
        (joins_since n word l e refl))
]

pub parse_subscribe-Answers :
    (args : List Text)
    → All (Lacks b' ') args
    → Answers (codes "subscribe") (rest_text args) (parse_subscribe args)
unfolding parse_subscribe join
parse_subscribe-Answers [] h = accepted (subscribe none) tt (joins refl)
parse_subscribe-Answers (seq ∷ []) h = check_since-Answers seq h.0
parse_subscribe-Answers (seq ∷ other ∷ more) h = refused bad_args _ refl

hello_client-Answers :
    (v : ℕ) (a : Text) (more : List Text)
    → All (Lacks b' ') (a ∷ more)
    → read_unsigned u32_max a ≡ some v
    → Answers (codes "hello") (rest_text (a ∷ more)) (hello_client v (a ∷ more))
unfolding hello_client join
hello_client-Answers v a [] h e =
    accepted (hello v none) (read_unsigned-le u32_max a v e) (greets v a h.0 e refl)
hello_client-Answers v a (client ∷ []) h e =
    accepted (hello v (some client)) (read_unsigned-le u32_max a v e, h.1.0)
      (greets_as v a client h.0 h.1.0 e refl)
hello_client-Answers v a (client ∷ b ∷ more) h e = refused bad_args _ refl

pub parse_hello-Answers :
    (quoted : Text → Text) (args : List Text)
    → All (Lacks b' ') args
    → Answers (codes "hello") (rest_text args) (parse_hello quoted args)
unfolding parse_hello hello_version first_or_empty read_unsigned join
parse_hello-Answers quoted [] h = refused bad_protocol _ refl
parse_hello-Answers quoted (a ∷ more) h = elim (Option-cases (read_unsigned u32_max a)) [
  | inl e ↦ rw e (refused bad_protocol _ refl)
  | inr (v, e) ↦ rw e (hello_client-Answers v a more h e)
]
