-- ===== src/Vocabulary/ErrorCode.antt =====
-- `ErrorCode` of crates/whirl-core/src/protocol.rs: the closed set of error codes.
use whirl.Prelude.{
  ◌≡◌, refl, List, [], ◌∷◌, true, false, Bool, Option, some, Text, codes, text_eq, text_eq_iff,
  find, arith,
}

pub data ErrorCode : Type 0 where
  unknown_verb bad_args too_long bad_framing bad_protocol busy not_found : ErrorCode
  no_prev no_candidates offline too_large not_an_image set_failed enospc : ErrorCode
  cache_readonly cache_unwritable worker_failed timeout favorites_degraded bad_config internal :
      ErrorCode

abbrev pub all : List ErrorCode
all =
    unknown_verb ∷ bad_args ∷ too_long ∷ bad_framing ∷ bad_protocol ∷ busy ∷ not_found ∷ no_prev
    ∷ no_candidates ∷ offline ∷ too_large ∷ not_an_image ∷ set_failed ∷ enospc ∷ cache_readonly
    ∷ cache_unwritable ∷ worker_failed ∷ timeout ∷ favorites_degraded ∷ bad_config ∷ internal ∷ []

unfoldable pub as_str : ErrorCode → Text
as_str unknown_verb = codes "unknown_verb"
as_str bad_args = codes "bad_args"
as_str too_long = codes "too_long"
as_str bad_framing = codes "bad_framing"
as_str bad_protocol = codes "bad_protocol"
as_str busy = codes "busy"
as_str not_found = codes "not_found"
as_str no_prev = codes "no_prev"
as_str no_candidates = codes "no_candidates"
as_str offline = codes "offline"
as_str too_large = codes "too_large"
as_str not_an_image = codes "not_an_image"
as_str set_failed = codes "set_failed"
as_str enospc = codes "enospc"
as_str cache_readonly = codes "cache_readonly"
as_str cache_unwritable = codes "cache_unwritable"
as_str worker_failed = codes "worker_failed"
as_str timeout = codes "timeout"
as_str favorites_degraded = codes "favorites_degraded"
as_str bad_config = codes "bad_config"
as_str internal = codes "internal"

unfoldable pub parse : Text → Option ErrorCode
unfolding as_str
parse name = find (λ c. text_eq (as_str c) name) all

-- Every name is read back as what it names.
pub parse-as_str : (c : ErrorCode) → parse (as_str c) ≡ some c
unfolding parse text_eq
parse-as_str unknown_verb = refl
parse-as_str bad_args = refl
parse-as_str too_long = refl
parse-as_str bad_framing = refl
parse-as_str bad_protocol = refl
parse-as_str busy = refl
parse-as_str not_found = refl
parse-as_str no_prev = refl
parse-as_str no_candidates = refl
parse-as_str offline = refl
parse-as_str too_large = refl
parse-as_str not_an_image = refl
parse-as_str set_failed = refl
parse-as_str enospc = refl
parse-as_str cache_readonly = refl
parse-as_str cache_unwritable = refl
parse-as_str worker_failed = refl
parse-as_str timeout = refl
parse-as_str favorites_degraded = refl
parse-as_str bad_config = refl
parse-as_str internal = refl

-- Nothing but a name is read.
find-as_str :
    (name : Text) (c : ErrorCode) (cs : List ErrorCode)
    → find (λ x. text_eq (as_str x) name) cs ≡ some c
    → as_str c ≡ name
find-as_str name c [] h = cc
find-as_str name c (x ∷ cs) h = ground (arith, text_eq_iff (as_str x) name, find-as_str name c cs)

-- A name that is read as a code is the name of that code.
as_str-parse : (name : Text) (c : ErrorCode) → parse name ≡ some c → as_str c ≡ name
unfolding parse
as_str-parse name c h = find-as_str name c all h

-- Whether the `ERR` ends the connection.
unfoldable pub closes : ErrorCode → Bool
closes too_long = true
closes bad_framing = true
closes bad_protocol = true
closes busy = true
closes _ = false
