-- ===== src/Protocol/Parse/Roundtrip.antt =====
-- What `Request::encode` writes, `Request::parse` reads back.
use whirl.Prelude.{
  ℕ, ◌≤◌, ◌≡◌, refl, [], ◌∷◌, ◌++◌, none, some, Text, true, codes, ◌≢◌, text_eq, inl, Lacks, arith,
}
use whirl.Prelude.Decimal.{decimal}
use whirl.Strings.Split.{split_once}
use whirl.Strings.Strip.{strip_prefix, strip_suffix, strip_cr_of_none, trim_end_of_none}
use whirl.Strings.Number.{
  u32_max, u64_max, read_unsigned-decimal, decimal-IsDecimal, IsDecimal-Lacks,
}
use whirl.Protocol.Request.{
  Request, hello, ping, version, status, next, prev, set_path, set_id, pause, resume, history,
  favorites, favorite, unfavorite, sources, config_path, config_check, subscribe, close, ok, encode,
  is_absolute_path, max_history_count, IsAccepted, IsFramed,
}
use whirl.Protocol.Parse.Grammar.{arguments_word, arguments_two}
use whirl.Protocol.Parse.{
  check_count, parse_hello, parse_history, parse_favorite, parse_unfavorite, parse_set, check_path,
  parse_subscribe, parse_stripped, parse_verb, parse,
}

decimal-Lacks_space : (n : ℕ) → Lacks b' ' (decimal n)
decimal-Lacks_space n = IsDecimal-Lacks b' ' (decimal n) (inl (omega arith)) (decimal-IsDecimal n)

check_count-some :
    (got : Text) (n : ℕ) → 1 ≤ n → n ≤ max_history_count → check_count got (some n) ≡ ok (history n)
unfolding check_count
check_count-some got n h k = ground arith

parse_history-decimal :
    (n : ℕ) → 1 ≤ n → n ≤ max_history_count → parse_history (decimal n ∷ []) ≡ ok (history n)
unfolding parse_history
parse_history-decimal n h k =
    rw (read_unsigned-decimal u64_max n (omega arith)) (check_count-some (decimal n) n h k)

parse_favorite-word : (id : Text) → id ≢ [] → parse_favorite (id ∷ []) ≡ ok (favorite (some id))
unfolding parse_favorite
parse_favorite-word [] h = absurd (h refl)
parse_favorite-word (c ∷ id) h = refl

parse_unfavorite-word : (id : Text) → id ≢ [] → parse_unfavorite (id ∷ []) ≡ ok (unfavorite id)
unfolding parse_unfavorite
parse_unfavorite-word [] h = absurd (h refl)
parse_unfavorite-word (c ∷ id) h = refl

parse_subscribe-decimal :
    (n : ℕ) → n ≤ u64_max → parse_subscribe (decimal n ∷ []) ≡ ok (subscribe (some n))
unfolding parse_subscribe
parse_subscribe-decimal n h = rw (read_unsigned-decimal u64_max n h)

module _ (quoted : Text → Text) where
  parse_hello-decimal :
      (v : ℕ) → v ≤ u32_max → parse_hello quoted (decimal v ∷ []) ≡ ok (hello v none)
  unfolding parse_hello
  parse_hello-decimal v h = rw (read_unsigned-decimal u32_max v h)

  parse_hello-decimal_client :
      (v : ℕ) (client : Text)
      → v ≤ u32_max
      → parse_hello quoted (decimal v ∷ client ∷ []) ≡ ok (hello v (some client))
  unfolding parse_hello
  parse_hello-decimal_client v client h = rw (read_unsigned-decimal u32_max v h)

  check_path-absolute :
      (c : ℕ) (path : Text)
      → is_absolute_path (c ∷ path) ≡ true
      → check_path quoted (c ∷ path) ≡ ok (set_path (c ∷ path))
  unfolding check_path
  check_path-absolute c path h = rw h

  parse_set-path :
      (path : Text)
      → is_absolute_path path ≡ true
      → strip_suffix 13 path ≡ none
      → parse_set quoted (codes "path " ++ path) ≡ ok (set_path path)
  unfolding parse_set strip_prefix is_absolute_path
  parse_set-path [] h k = cc
  parse_set-path (c ∷ path) h k =
      rw (trim_end_of_none 13 (c ∷ path) k) (check_path-absolute c path h)

  parse_set-id :
      (id : Text)
      → id ≢ []
      → strip_suffix 13 id ≡ none
      → parse_set quoted (codes "id " ++ id) ≡ ok (set_id id)
  unfolding parse_set strip_prefix
  parse_set-id [] h k = absurd (h refl)
  parse_set-id (c ∷ id) h k = rw (trim_end_of_none 13 (c ∷ id) k)

  parse_stripped-encode : (r : Request) → IsAccepted r → parse_stripped quoted (encode r) ≡ ok r
  unfolding parse_stripped parse_verb encode split_once text_eq
  parse_stripped-encode (hello v none) h =
      rw (arguments_word (decimal v) (decimal-Lacks_space v)) (parse_hello-decimal v h)
  parse_stripped-encode (hello v (some client)) h =
      rw (arguments_two (decimal v) client (decimal-Lacks_space v) h.1)
        (parse_hello-decimal_client v client h.0)
  parse_stripped-encode ping h = refl
  parse_stripped-encode version h = refl
  parse_stripped-encode status h = refl
  parse_stripped-encode next h = refl
  parse_stripped-encode prev h = refl
  parse_stripped-encode (set_path path) h = parse_set-path path h.0 h.1
  parse_stripped-encode (set_id id) h = parse_set-id id h.0 h.1
  parse_stripped-encode pause h = refl
  parse_stripped-encode resume h = refl
  parse_stripped-encode (history count) h =
      rw (arguments_word (decimal count) (decimal-Lacks_space count))
        (parse_history-decimal count h.0 h.1)
  parse_stripped-encode favorites h = refl
  parse_stripped-encode (favorite (some id)) h =
      rw (arguments_word id h.spaceless) (parse_favorite-word id h.filled)
  parse_stripped-encode (favorite none) h = refl
  parse_stripped-encode (unfavorite id) h =
      rw (arguments_word id h.spaceless) (parse_unfavorite-word id h.filled)
  parse_stripped-encode sources h = refl
  parse_stripped-encode config_path h = refl
  parse_stripped-encode config_check h = refl
  parse_stripped-encode (subscribe (some seq)) h =
      rw (arguments_word (decimal seq) (decimal-Lacks_space seq)) (parse_subscribe-decimal seq h)
  parse_stripped-encode (subscribe none) h = refl
  parse_stripped-encode close h = refl

  -- A request whose arguments are as the grammar asks, on a line that passes the framing and that no
  -- carriage return ends, is read back as itself.
  pub parse-encode :
      (r : Request) → IsAccepted r → IsFramed (encode r) → parse quoted (encode r) ≡ ok r
  unfolding parse
  parse-encode r h f = ground (arith, strip_cr_of_none (encode r), parse_stripped-encode r h)
