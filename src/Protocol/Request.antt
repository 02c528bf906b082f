-- ===== src/Protocol/Request.antt =====
-- `Request`, `ProtocolError` and `Request::encode`: a request and its line.
use whirl.Prelude.{
  ℕ, ◌≤◌, ◌≡◌, ◌≢◌, List, [], ◌∷◌, ◌++◌, Option, none, some, Text, Bool, true, false, ◌&&◌, ◌||◌,
  codes, leb, ◌==◌, Lacks, length,
}
use whirl.Prelude.Decimal.{decimal}
use whirl.Strings.Number.{u32_max, u64_max}
use whirl.Strings.Strip.{strip_suffix, contains}
use whirl.Vocabulary.ErrorCode.{ErrorCode}

-- A request line that could not be turned into a request.
pub record ProtocolError : Type 0 where
  pub code : ErrorCode
  pub message : Text

pub data Result {ℓ} (A : Type ℓ) : Type ℓ where
  ok : A → Result A
  err : ProtocolError → Result A

pub data Request : Type 0 where
  hello : (version : ℕ) (client : Option Text) → Request
  ping version status next prev : Request
  set_path : Text → Request
  set_id : Text → Request
  pause resume : Request
  history : (count : ℕ) → Request
  favorites : Request
  favorite : (id : Option Text) → Request
  unfavorite : Text → Request
  sources config_path config_check : Request
  subscribe : (since : Option ℕ) → Request
  close : Request

abbrev pub max_request_line : ℕ
max_request_line = 8192

abbrev pub default_history_count : ℕ
default_history_count = 10

abbrev pub max_history_count : ℕ
max_history_count = 50

abbrev pub verbs : List Text
verbs =
    codes "hello"
    ∷ codes "ping"
    ∷ codes "version"
    ∷ codes "status"
    ∷ codes "next"
    ∷ codes "prev"
    ∷ codes "set path"
    ∷ codes "set id"
    ∷ codes "pause"
    ∷ codes "resume"
    ∷ codes "history"
    ∷ codes "favorites"
    ∷ codes "favorite"
    ∷ codes "unfavorite"
    ∷ codes "sources"
    ∷ codes "config path"
    ∷ codes "config check"
    ∷ codes "subscribe"
    ∷ codes "close"
    ∷ []

unfoldable pub verb : Request → Text
verb (hello v c) = codes "hello"
verb ping = codes "ping"
verb version = codes "version"
verb status = codes "status"
verb next = codes "next"
verb prev = codes "prev"
verb (set_path p) = codes "set path"
verb (set_id i) = codes "set id"
verb pause = codes "pause"
verb resume = codes "resume"
verb (history n) = codes "history"
verb favorites = codes "favorites"
verb (favorite i) = codes "favorite"
verb (unfavorite i) = codes "unfavorite"
verb sources = codes "sources"
verb config_path = codes "config path"
verb config_check = codes "config check"
verb (subscribe s) = codes "subscribe"
verb close = codes "close"

unfoldable pub encode : Request → Text
encode (hello v (some client)) = codes "hello " ++ (decimal v ++ b' ' ∷ client)
encode (hello v none) = codes "hello " ++ decimal v
encode ping = codes "ping"
encode version = codes "version"
encode status = codes "status"
encode next = codes "next"
encode prev = codes "prev"
encode (set_path path) = codes "set path " ++ path
encode (set_id id) = codes "set id " ++ id
encode pause = codes "pause"
encode resume = codes "resume"
encode (history count) = codes "history " ++ decimal count
encode favorites = codes "favorites"
encode (favorite (some id)) = codes "favorite " ++ id
encode (favorite none) = codes "favorite"
encode (unfavorite id) = codes "unfavorite " ++ id
encode sources = codes "sources"
encode config_path = codes "config path"
encode config_check = codes "config check"
encode (subscribe (some seq)) = codes "subscribe " ++ decimal seq
encode (subscribe none) = codes "subscribe"
encode close = codes "close"

unfoldable pub is_ascii_alphabetic : ℕ → Bool
is_ascii_alphabetic c = (leb b'a' c && leb c b'z') || (leb b'A' c && leb c b'Z')

unfoldable pub starts_with_drive : Text → Bool
unfolding is_ascii_alphabetic
starts_with_drive (a ∷ b ∷ c ∷ _) =
    is_ascii_alphabetic a && (b == b':') && ((c == b'\\') || (c == b'/'))
starts_with_drive _ = false

unfoldable pub starts_absolute : Text → Bool
starts_absolute [] = false
starts_absolute (a ∷ []) = (a == b'/') || (a == b'~')
starts_absolute (a ∷ b ∷ _) = (a == b'/') || (a == b'~') || ((a == b'\\') && (b == b'\\'))

unfoldable pub is_absolute_path : Text → Bool
unfolding starts_absolute starts_with_drive
is_absolute_path path = starts_absolute path || starts_with_drive path

-- One argument of the line: not empty, no space in it.
pub record IsWord (word : Text) : Type 0 where
  pub filled : word ≢ []
  pub spaceless : Lacks b' ' word

-- What the types and the grammar ask of a request's arguments.
abbrev pub IsAccepted : Request → Type 0
IsAccepted (hello v none) = v ≤ u32_max
IsAccepted (hello v (some client)) = (v ≤ u32_max) × Lacks b' ' client
IsAccepted (set_path path) = (is_absolute_path path ≡ true) × (strip_suffix 13 path ≡ none)
IsAccepted (set_id id) = (id ≢ []) × (strip_suffix 13 id ≡ none)
IsAccepted (history count) = (1 ≤ count) × (count ≤ max_history_count)
IsAccepted (favorite (some id)) = IsWord id
IsAccepted (unfavorite id) = IsWord id
IsAccepted (subscribe (some seq)) = seq ≤ u64_max
IsAccepted _ = Unit

-- A line that passes the framing, and that no carriage return ends.
pub record IsFramed (line : Text) : Type 0 where
  pub short : length line ≤ max_request_line
  pub no_nul : contains 0 line ≡ false
  pub no_cr : strip_suffix 13 line ≡ none
