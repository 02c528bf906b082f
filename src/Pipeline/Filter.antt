-- ===== src/Pipeline/Filter.antt =====
-- `filter_pipeline` and its five stages.
pub mod Partition
pub mod Admits
pub mod Verdicts
pub mod Exact
use whirl.Prelude.{
  ℕ, ◌+◌, List, [], ◌∷◌, ◌++◌, Bool, true, false, not, ◌&&◌, ◌||◌, Option, none, some, Text, codes,
  text_eq, ltb, leb, ◌==◌, find, all, map, length, if◌then◌else◌,
}
use whirl.Strings.Strip.{trim_end}
use whirl.Protocol.Request.{is_ascii_alphabetic}
use whirl.Strings.Number.{is_decimal}

-- What a stage reads of a candidate.
pub record Candidate : Type 0 where
  pub id : Text
  pub origin : Text
  pub width : Option ℕ
  pub height : Option ℕ
  pub bytes : Option ℕ

pub record Seeking : Type 0 where
  pub source : Text
  pub candidate : Candidate

unfoldable pub origin_key : Seeking → Text
origin_key s = s.source ++ b':' ∷ s.candidate.id

-- What the stages read of a source's section and of the configuration.
pub record SourceFloors : Type 0 where
  pub id : Text
  pub min_width : Option ℕ
  pub min_height : Option ℕ
  pub max_bytes : Option ℕ

pub record Limits : Type 0 where
  pub sources : List SourceFloors
  pub min_width : ℕ
  pub min_height : ℕ
  pub max_bytes : ℕ

pub record Stage : Type 0 where
  pub kept : List Seeking
  pub rejected : ℕ

-- The loop of a stage: a candidate that the test rejects is counted, any other is kept.
unfoldable pub stage : (Seeking → Bool) → List Seeking → Stage
stage rejects [] = record { kept = []; rejected = 0 }
stage rejects (s ∷ input) =
    let rest = stage rejects input in
    if rejects s
    then record rest { rejected = rest.rejected + 1 }
    else record rest { kept = s ∷ rest.kept }

unfoldable pub source_of : Limits → Seeking → Option SourceFloors
source_of config s = find (λ source. text_eq source.id s.source) config.sources

unfoldable pub unwrap_or : Option ℕ → ℕ → ℕ
unwrap_or none d = d
unwrap_or (some n) d = n

unfoldable pub floors_of : Limits → Option SourceFloors → ℕ × ℕ
unfolding unwrap_or
floors_of config none = (config.min_width, config.min_height)
floors_of config (some source) =
    (unwrap_or source.min_width config.min_width, unwrap_or source.min_height config.min_height)

unfoldable pub floors : Limits → Seeking → ℕ × ℕ
unfolding floors_of source_of
floors config s = floors_of config (source_of config s)

unfoldable pub small : Option ℕ → ℕ → Bool
small none floor = false
small (some value) floor = ltb value floor

unfoldable pub too_small : Limits → Seeking → Bool
unfolding floors small
too_small config s =
    small s.candidate.width (floors config s).0 || small s.candidate.height (floors config s).1

unfoldable pub stage_resolution : List Seeking → Limits → Stage
unfolding stage
stage_resolution input config = stage (too_small config) input

unfoldable pub cap_of : Limits → Option SourceFloors → ℕ
unfolding unwrap_or
cap_of config none = config.max_bytes
cap_of config (some source) = unwrap_or source.max_bytes config.max_bytes

unfoldable pub above : Option ℕ → ℕ → Bool
above none cap_bytes = false
above (some bytes) cap_bytes = ltb cap_bytes bytes

unfoldable pub too_large : Limits → Seeking → Bool
unfolding above cap_of source_of
too_large config s = above s.candidate.bytes (cap_of config (source_of config s))

unfoldable pub stage_size : List Seeking → Limits → Stage
unfolding stage
stage_size input config = stage (too_large config) input

-- `off w h` is the test of a ratio `w / h` against the target in floating point, which has no model
-- here; it is asked only where both dimensions are known and the height is not 0. `none` where the
-- configuration has no target or one that is not positive.
unfoldable pub off_ratio : Option (ℕ → ℕ → Bool) → Option ℕ → Option ℕ → Bool
off_ratio (some off) (some width) (some height) = ltb 0 height && off width height
off_ratio _ _ _ = false

unfoldable pub wrong_ratio : Option (ℕ → ℕ → Bool) → Seeking → Bool
unfolding off_ratio
wrong_ratio target s = off_ratio target s.candidate.width s.candidate.height

unfoldable pub stage_ratio : List Seeking → Option (ℕ → ℕ → Bool) → Stage
unfolding stage
stage_ratio input target = stage (wrong_ratio target) input

-- `origin.split(['?', '#']).next()`.
unfoldable pub without_query : Text → Text
without_query [] = []
without_query (c ∷ s) =
    let rest = without_query s in if (c == b'?') || (c == b'#') then [] else c ∷ rest

unfoldable pub rsplit_step : ℕ → ℕ → Text → Option (Text × Text) → Option (Text × Text)
rsplit_step b c s (some (front, back)) = some (c ∷ front, back)
rsplit_step b c s none = if c == b then some ([], s) else none

-- `str::rsplit_once`, at the last separator.
unfoldable pub rsplit_once : ℕ → Text → Option (Text × Text)
unfolding rsplit_step
rsplit_once b [] = none
rsplit_once b (c ∷ s) = rsplit_step b c s (rsplit_once b s)

unfoldable pub leaf : Text → Text
unfolding rsplit_once
leaf path = elim (rsplit_once b'/' path) [ none ↦ path | some (front, name) ↦ name ]

unfoldable pub to_ascii_lowercase : ℕ → ℕ
to_ascii_lowercase c = if leb b'A' c && leb c b'Z' then c + 32 else c

unfoldable pub is_ascii_alphanumeric : ℕ → Bool
unfolding is_ascii_alphabetic is_decimal
is_ascii_alphanumeric c = is_ascii_alphabetic c || is_decimal c

unfoldable pub named_extension : Text → Option Text
unfolding is_ascii_alphanumeric to_ascii_lowercase
named_extension [] = none
named_extension (c ∷ ext) =
    if all is_ascii_alphanumeric (c ∷ ext) then some (map to_ascii_lowercase (c ∷ ext)) else none

unfoldable pub extension_of : Text → Option Text
unfolding leaf without_query trim_end rsplit_once named_extension
extension_of origin = elim (rsplit_once b'.' (leaf (trim_end b'/' (without_query origin)))) [
  | none ↦ none
  | some (front, ext) ↦ named_extension ext
]

pub data Platform : Type 0 where
  macos windows linux other : Platform

unfoldable pub is_macos : Platform → Bool
is_macos macos = true
is_macos _ = false

unfoldable pub settable : Platform → Text → Bool
unfolding is_macos
settable platform ext =
    if text_eq ext (codes "jpg")
      || text_eq ext (codes "jpeg")
      || text_eq ext (codes "png")
      || text_eq ext (codes "webp")
    then true
    else if text_eq ext (codes "heic") || text_eq ext (codes "heif")
    then is_macos platform
    else false

unfoldable pub unsettable_name : Platform → Option Text → Bool
unfolding settable
unsettable_name platform none = false
unsettable_name platform (some ext) = not (settable platform ext)

unfoldable pub wrong_type : Platform → Seeking → Bool
unfolding unsettable_name extension_of
wrong_type platform s = unsettable_name platform (extension_of s.candidate.origin)

unfoldable pub stage_type : List Seeking → Platform → Stage
unfolding stage
stage_type input platform = stage (wrong_type platform) input

-- `Window::contains`: the keys of the recent window.
unfoldable pub window_contains : List Text → Text → Bool
window_contains [] key = false
window_contains (k ∷ keys) key = text_eq k key || window_contains keys key

unfoldable pub is_recent : List Text → Seeking → Bool
unfolding window_contains origin_key
is_recent window s = window_contains window (origin_key s) || window_contains window s.candidate.id

unfoldable pub stage_recent : List Seeking → List Text → Stage
unfolding stage
stage_recent input window = stage (is_recent window) input

pub record Counters : Type 0 where
  pub candidates : ℕ
  pub admitted : ℕ
  pub rejected_resolution : ℕ
  pub rejected_ratio : ℕ
  pub rejected_size : ℕ
  pub rejected_type : ℕ
  pub rejected_dedupe : ℕ

pub record Filtered : Type 0 where
  pub kept : List Seeking
  pub counters : Counters

unfoldable pub filter_pipeline :
    Limits → Platform → Option (ℕ → ℕ → Bool) → List Text → List Seeking → Filtered
unfolding stage_resolution stage_ratio stage_size stage_type stage_recent
filter_pipeline config platform target window input =
    let resolution = stage_resolution input config in
    let ratio = stage_ratio resolution.kept target in
    let size = stage_size ratio.kept config in
    let kind = stage_type size.kept platform in
    let dedupe = stage_recent kind.kept window in
    record {
      kept = dedupe.kept;
      counters = record {
        candidates = length input;
        admitted = length dedupe.kept;
        rejected_resolution = resolution.rejected;
        rejected_ratio = ratio.rejected;
        rejected_size = size.rejected;
        rejected_type = kind.rejected;
        rejected_dedupe = dedupe.rejected;
      };
    }
