-- ===== src/Tests/StateFile.antt =====
-- State files that are written and read back.
use whirl.Prelude.{
  ℕ, ◌≡◌, refl, [], ◌∷◌, ◌++◌, Bool, true, Option, none, some, Text, codes, All, map, text_eq,
  arith,
}
use whirl.Vocabulary.Kind.{local}
use whirl.Vocabulary.Via.{manual}
use whirl.State.{HistoryEntry, missing}
use whirl.Daemon.{CurrentFile, HistoryFile, FavoritesFile}
use whirl.Json.{not_utf8, holds_key, push_entry}
use whirl.Json.Escapes.{IsAscii}
use whirl.StateFile.{read, ok, err, not_json, schema_newer}
use whirl.StateFile.History.{parse_history_file, encode_history}
use whirl.StateFile.History.Back.{IsAsciiEntry, parse_history_file-encode_history}
use whirl.StateFile.Current.{parse_current, encode_current}
use whirl.StateFile.Current.Plain.{IsPlain}
use whirl.StateFile.Current.Back.{parse_current-encode_current}
use whirl.Map.{text_ltb}
use whirl.Cache.{CacheIndexEntry, IndexFile}
use whirl.StateFile.Index.{parse_index, encode_index}
use whirl.StateFile.Index.Plain.{IsU32Option, IsPlainEntry, IsPlainIndex}
use whirl.StateFile.Index.Back.{parse_index-encode_index}
use whirl.StateFile.Favorites.{parse_favorites, encode_favorites}
use whirl.StateFile.Favorites.Back.{looked_up, parse_favorites-encode_favorites}

abbrev no_other : Text → Option ℕ
no_other literal = none

abbrev time : Text
time = codes "2026-09-25T07:41:12Z"

abbrev set : Text → HistoryEntry
set path = record {
  set_at = time;
  via = manual;
  kind = local;
  origin_key = codes "a \"b\".jpg";
  digest = none;
  path = some path;
}

abbrev history : Text → HistoryFile
history path = record { seq = 12; written_at = time; entries = set (codes "/a\tb") ∷ set path ∷ [] }

set-IsAscii : (path : Text) → All IsAscii path → IsAsciiEntry (set path)
set-IsAscii path h = record {
  set_at = omega arith;
  origin_key = omega arith;
  digest = tt;
  path = h;
}

parse_history_file-encode_history_example :
    parse_history_file no_other (encode_history (history (codes "/c")))
    ≡ ok (read (history (codes "/c")))
parse_history_file-encode_history_example =
    parse_history_file-encode_history no_other (history (codes "/c")) (omega arith) (omega arith)
      (set-IsAscii (codes "/a\tb") (omega arith), (set-IsAscii (codes "/c") (omega arith), tt))

abbrev current : CurrentFile
current = record {
  seq = 3;
  written_at = time;
  written_by = some (codes "whirld 1");
  paused = true;
  rotation_count = 7;
  next_at = none;
  last_error = some (codes "no \\ file");
  anchor =
      some (record {
        digest = codes "ab";
        cached_path = none;
        set_at = some time;
        display_mode = none;
      });
  cache = some (record {
    root_id = some (codes "r");
    files = 2;
    bytes = 9007199254740991;
    over_cap_bytes = 0;
    over_cap_files = 0;
  });
}

current-IsPlain : IsPlain current
current-IsPlain = record {
  seq = omega arith;
  rotation_count = omega arith;
  written_at = omega arith;
  written_by = omega arith;
  next_at = tt;
  last_error = omega arith;
  anchor = (omega arith, tt, omega arith, tt);
  cache = (omega arith, omega arith, omega arith, omega arith, omega arith);
}

parse_current-encode_current_example :
    parse_current no_other (encode_current current) ≡ ok (read current)
parse_current-encode_current_example = parse_current-encode_current no_other current current-IsPlain

abbrev is_there : Text → Bool
is_there path = text_eq path (codes "/c")

abbrev pins : FavoritesFile
pins = record {
  seq = 1;
  written_at = time;
  entries =
      record {
        added_at = time;
        kind = local;
        origin_key = codes "c";
        digest = none;
        state = missing;
        path = some (codes "/c");
      }
      ∷ [];
}

parse_favorites-encode_favorites_example :
    parse_favorites is_there no_other (encode_favorites pins)
    ≡ ok (read (record pins { entries = map (looked_up is_there) pins.entries }))
parse_favorites-encode_favorites_example =
    parse_favorites-encode_favorites is_there no_other pins (omega arith) (omega arith) (
      record { added_at = omega arith; origin_key = omega arith; digest = tt; path = omega arith },
      tt,
    )

abbrev entry_of : Option ℕ → CacheIndexEntry
entry_of width = record {
  ext = codes "png";
  bytes = 77;
  first_seen = time;
  last_used = time;
  source = codes "shots";
  kind = local;
  origin = none;
  origin_key = codes "a";
  width = width;
  height = some 4294967295;
  pinned = true;
}

abbrev cached : IndexFile
cached = record {
  seq = 5;
  written_at = time;
  root_id = codes "r";
  entries = (codes "ab", entry_of none) ∷ (codes "b", entry_of (some 640)) ∷ [];
  dangling = codes "c" ∷ [];
}

entry_of-IsPlainEntry :
    (digest : Text) (width : Option ℕ)
    → All IsAscii digest
    → IsU32Option width
    → IsPlainEntry (digest, entry_of width)
entry_of-IsPlainEntry digest width d w = record {
  digest = d;
  ext = omega arith;
  bytes = omega arith;
  first_seen = omega arith;
  last_used = omega arith;
  source = omega arith;
  origin = tt;
  origin_key = omega arith;
  width = w;
  height = omega arith;
}

cached-IsPlainIndex : IsPlainIndex cached
unfolding text_ltb
cached-IsPlainIndex = record {
  seq = omega arith;
  written_at = omega arith;
  root_id = omega arith;
  entries = (
    entry_of-IsPlainEntry (codes "ab") none (omega arith) tt,
    (entry_of-IsPlainEntry (codes "b") (some 640) (omega arith) (omega arith), tt),
  );
  ascending = ((refl, tt), (tt, tt));
  dangling = (omega arith, tt);
}

parse_index-encode_index_example : parse_index no_other (encode_index cached) ≡ ok (read cached)
parse_index-encode_index_example = parse_index-encode_index no_other cached cached-IsPlainIndex

-- A file of a newer build is told apart.
newer : parse_history_file no_other (codes "{\"schema\": 2}") ≡ ok (schema_newer 2)
unfolding parse_history_file holds_key text_eq push_entry
newer = refl

-- A path with an umlaut, which UTF-8 writes as the bytes c3 bc: the file is written and then refused.
umlaut_refused :
    parse_history_file no_other
      (encode_history (history (codes "/k" ++ 0xc3 ∷ (0xbc ∷ codes "che.jpg"))))
    ≡ err (not_json (codes "history.json") 18 not_utf8)
unfolding parse_history_file encode_history holds_key text_eq push_entry
umlaut_refused = refl
