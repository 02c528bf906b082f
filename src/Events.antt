-- ===== src/Events.antt =====
-- `Event` of crates/whirld/src/events.rs and the line that a subscriber reads.
pub mod Bus
use whirl.Prelude.{ℕ, ◌+◌, [], ◌∷◌, ◌++◌, Option, none, some, Text, codes}
use whirl.Prelude.Int.{ℤ, pos, negsuc}
use whirl.Prelude.Decimal.{decimal}
use whirl.Vocabulary.ErrorCode.{ErrorCode}
use whirl.Vocabulary

pub data Event : Type 0 where
  rotate_start : ℕ → Event
  rotate_ok : Text → Text → Text → Option Text → Event
  rotate_failed : ErrorCode → Text → Event
  paused resumed config_reloaded anchor_unverified shutdown : Event
  favorite_added : Text → Text → Event
  favorite_removed : Text → Event
  cache_swept : ℕ → ℕ → ℕ → Event
  clock_jump : ℤ → Event
  heartbeat : ℤ → Event

unfoldable pub name : Event → Text
name (rotate_start run) = codes "rotate_start"
name (rotate_ok digest origin_key via path) = codes "rotate_ok"
name (rotate_failed code message) = codes "rotate_failed"
name paused = codes "paused"
name resumed = codes "resumed"
name (favorite_added digest origin_key) = codes "favorite_added"
name (favorite_removed digest) = codes "favorite_removed"
name (cache_swept removed reclaimed_bytes hidden) = codes "cache_swept"
name (clock_jump seconds) = codes "clock_jump"
name config_reloaded = codes "config_reloaded"
name anchor_unverified = codes "anchor_unverified"
name shutdown = codes "shutdown"
name (heartbeat unix_seconds) = codes "heartbeat"

-- `Display` of a signed integer.
signed : ℤ → Text
signed (pos n) = decimal n
signed (negsuc n) = b'-' ∷ decimal (n + 1)

-- A field after its space; `-` where there is none.
field : Text → Text
field text = b' ' ∷ text

or_dash : Option Text → Text
or_dash none = codes "-"
or_dash (some text) = text

unfoldable pub fields : Event → Text
unfolding field or_dash signed
fields (rotate_start run) = field (decimal run)
fields (rotate_ok digest origin_key via path) =
    field digest ++ field origin_key ++ field via ++ field (or_dash path)
fields (rotate_failed code message) = field (Vocabulary.ErrorCode.as_str code) ++ field message
fields (favorite_added digest origin_key) = field digest ++ field origin_key
fields (favorite_removed digest) = field digest
fields (cache_swept removed reclaimed_bytes hidden) =
    field (decimal removed) ++ field (decimal reclaimed_bytes) ++ field (decimal hidden)
fields (clock_jump seconds) = field (signed seconds)
fields (heartbeat unix_seconds) = field (signed unix_seconds)
fields paused = []
fields resumed = []
fields config_reloaded = []
fields anchor_unverified = []
fields shutdown = []

unfoldable pub line : ℕ → Event → Text
unfolding name fields
line seq event = codes "event: " ++ decimal seq ++ b' ' ∷ name event ++ fields event ++ b'\n' ∷ []
