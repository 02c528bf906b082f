-- ===== src/Protocol/Parse/Arms.antt =====
-- What the arms of `Request::parse` answer, one for each verb.
use whirl.Prelude.{
  ◌≡◌, refl, [], ◌∷◌, Option, none, some, Text, true, codes, inl, inr, arith, All, Bool-cases,
  Option-cases, ◌++◌, sym, subst,
}
use whirl.Strings.Strip.{strip_prefix, trim_end, strip_suffix-trim_end, strip_prefix-eq-some}
use whirl.Vocabulary.ErrorCode.{bad_args}
use whirl.Protocol.Request.{
  Request, ping, version, status, next, prev, pause, resume, favorites, sources, close, set_path,
  set_id, Result, verb, is_absolute_path, IsAccepted,
}
use whirl.Protocol.Parse.{arguments, no_args, arms, parse_set, check_path, non_empty, text_or_empty}
use whirl.Protocol.Parse.Rest.{rest_text, rest_text-arguments, arguments-Lacks}
use whirl.Protocol.Parse.Grammar.{is_bare, Means, sets_path, sets_id}
use whirl.Protocol.Parse.Answers.{
  Answers, accepted, refused, no_args-Answers, parse_history-Answers, parse_favorite-Answers,
  parse_unfavorite-Answers, parse_config-Answers, parse_subscribe-Answers, parse_hello-Answers,
}

check_path-Answers :
    (quoted : Text → Text) (path q : Text)
    → trim_end 13 path ≡ q
    → Answers (codes "set") (some (codes "path " ++ path)) (check_path quoted q)
unfolding check_path
check_path-Answers quoted path [] e = refused bad_args _ refl
check_path-Answers quoted path (c ∷ q) e = elim (Bool-cases (is_absolute_path (c ∷ q))) [
  | inl rooted ↦ rw rooted (
      accepted (set_path (c ∷ q)) (rooted, cc (e, strip_suffix-trim_end 13 path))
        (subst (λ t. Means (codes "set path " ++ path) (set_path t)) e
          (sets_path path (cc (e, rooted)) refl)))
  | inr relative ↦ rw relative (refused bad_args _ refl)
]

set_id-Answers :
    (id q : Text)
    → trim_end 13 id ≡ q
    → Answers (codes "set") (some (codes "id " ++ id)) (non_empty q (codes "set id") set_id)
unfolding non_empty
set_id-Answers id [] e = refused bad_args _ refl
set_id-Answers id (c ∷ q) e =
    accepted (set_id (c ∷ q)) (ground arith, cc (e, strip_suffix-trim_end 13 id))
      (subst (λ t. Means (codes "set id " ++ id) (set_id t)) e (sets_id id (λ empty. cc) refl))

parse_set-Answers :
    (quoted : Text → Text) (rest : Text) → Answers (codes "set") (some rest) (parse_set quoted rest)
unfolding parse_set
parse_set-Answers quoted rest = elim (Option-cases (strip_prefix (codes "path ") rest)) [
  | inl no_path ↦ elim (Option-cases (strip_prefix (codes "id ") rest)) [
    | inl no_id ↦ rw (no_path, no_id, parse_set) (refused bad_args _ refl)
    | inr (id, e) ↦
        rw (no_path, e, parse_set)
          (subst
            (λ t.
              Answers (codes "set") (some t) (non_empty (trim_end 13 id) (codes "set id") set_id))
            (sym (strip_prefix-eq-some (codes "id ") rest id e))
            (set_id-Answers id (trim_end 13 id) refl))
  ]
  | inr (path, e) ↦
      rw (e, parse_set)
        (subst (λ t. Answers (codes "set") (some t) (check_path quoted (trim_end 13 path)))
          (sym (strip_prefix-eq-some (codes "path ") rest path e))
          (check_path-Answers quoted path (trim_end 13 path) refl))
]

set-Answers :
    (quoted : Text → Text) (rest : Option Text)
    → Answers (codes "set") rest (parse_set quoted (text_or_empty rest))
unfolding text_or_empty parse_set strip_prefix
set-Answers quoted none = refused bad_args _ refl
set-Answers quoted (some rest) = parse_set-Answers quoted rest

of_arguments :
    (name : Text) (rest : Option Text) {answer : Result Request}
    → Answers name (rest_text (arguments rest)) answer
    → Answers name rest answer
of_arguments name rest {answer} h = subst (λ t. Answers name t answer) (rest_text-arguments rest) h

bare-Answers :
    (rest : Option Text) (r : Request)
    → IsAccepted r
    → is_bare r ≡ true
    → Answers (verb r) rest (no_args (arguments rest) r)
bare-Answers rest r h k = of_arguments (verb r) rest (no_args-Answers (arguments rest) r h k)

-- An answer in front of the others.
infixr 5 ◌&◌
abbrev ◌&◌ {ℓ ℓ'} : {A : Type ℓ} {B : Type ℓ'} → A → B → A × B
a & b = (a, b)

-- The arms all answer.
pub arms-Answers :
    (quoted : Text → Text) (rest : Option Text)
    → All (λ arm. Answers arm.0 rest arm.1) (arms quoted rest)
unfolding arms verb
arms-Answers quoted rest =
    let args = arguments rest in
    let l = arguments-Lacks rest in
    of_arguments (codes "hello") rest (parse_hello-Answers quoted args l)
    & bare-Answers rest ping tt refl
    & bare-Answers rest version tt refl
    & bare-Answers rest status tt refl
    & bare-Answers rest next tt refl
    & bare-Answers rest prev tt refl
    & bare-Answers rest pause tt refl
    & bare-Answers rest resume tt refl
    & bare-Answers rest favorites tt refl
    & bare-Answers rest sources tt refl
    & bare-Answers rest close tt refl
    & of_arguments (codes "history") rest (parse_history-Answers args l)
    & of_arguments (codes "favorite") rest (parse_favorite-Answers args l)
    & of_arguments (codes "unfavorite") rest (parse_unfavorite-Answers args l)
    & set-Answers quoted rest
    & of_arguments (codes "config") rest (parse_config-Answers args)
    & of_arguments (codes "subscribe") rest (parse_subscribe-Answers args l)
    & tt
