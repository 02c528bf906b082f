-- ===== src/Protocol/Parse/Grammar.antt =====
-- The grammar of a request line, and that a line of the grammar is parsed as what it means.
use whirl.Prelude.{
  ℕ, ◌≤◌, ◌≡◌, ◌≢◌, ◌∙◌, ◌⊎◌, refl, [], ◌∷◌, ◌++◌, none, some, Text, Bool, true, false, codes,
  text_eq, Lacks, inl, inr, arith,
}
use whirl.Strings.Split.{split, split_once, split-append, split_of-Lacks}
use whirl.Strings.Strip.{strip_prefix, trim_end}
use whirl.Strings.Number.{u32_max, u64_max, read_unsigned}
use whirl.Protocol.Request.{
  Request, hello, ping, version, status, next, prev, set_path, set_id, pause, resume, history,
  favorites, favorite, unfavorite, sources, config_path, config_check, subscribe, close, ok, verb,
  is_absolute_path, default_history_count, max_history_count, IsWord,
}
use whirl.Protocol.Parse.{
  arguments, check_count, parse_hello, parse_history, parse_favorite, parse_unfavorite, parse_set,
  check_path, non_empty, parse_subscribe, parse_stripped, parse_verb,
}

-- A request that takes no arguments.
abbrev pub is_bare : Request → Bool
is_bare ping = true
is_bare version = true
is_bare status = true
is_bare next = true
is_bare prev = true
is_bare pause = true
is_bare resume = true
is_bare favorites = true
is_bare sources = true
is_bare close = true
is_bare _ = false

-- What a line means, without its carriage return. A bare verb may have one space behind it.
pub data Means (line : Text) : Request → Type 0 where
  bare :
      (r : Request)
      → is_bare r ≡ true
      → (line ≡ verb r) ⊎ (line ≡ verb r ++ b' ' ∷ [])
      → Means line r
  greets :
      (v : ℕ) (word : Text)
      → Lacks b' ' word
      → read_unsigned u32_max word ≡ some v
      → line ≡ codes "hello " ++ word
      → Means line (hello v none)
  greets_as :
      (v : ℕ) (word client : Text)
      → Lacks b' ' word
      → Lacks b' ' client
      → read_unsigned u32_max word ≡ some v
      → line ≡ codes "hello " ++ (word ++ b' ' ∷ client)
      → Means line (hello v (some client))
  sets_path :
      (path : Text)
      → is_absolute_path (trim_end 13 path) ≡ true
      → line ≡ codes "set path " ++ path
      → Means line (set_path (trim_end 13 path))
  sets_id :
      (id : Text)
      → trim_end 13 id ≢ []
      → line ≡ codes "set id " ++ id
      → Means line (set_id (trim_end 13 id))
  asks_history : line ≡ codes "history" → Means line (history default_history_count)
  asks_history_of :
      (n : ℕ) (word : Text)
      → Lacks b' ' word
      → read_unsigned u64_max word ≡ some n
      → 1 ≤ n
      → n ≤ max_history_count
      → line ≡ codes "history " ++ word
      → Means line (history n)
  pins : line ≡ codes "favorite" → Means line (favorite none)
  pins_id :
      (id : Text) → IsWord id → line ≡ codes "favorite " ++ id → Means line (favorite (some id))
  unpins : (id : Text) → IsWord id → line ≡ codes "unfavorite " ++ id → Means line (unfavorite id)
  asks_path : line ≡ codes "config path" → Means line config_path
  asks_check : line ≡ codes "config check" → Means line config_check
  joins : line ≡ codes "subscribe" → Means line (subscribe none)
  joins_since :
      (n : ℕ) (word : Text)
      → Lacks b' ' word
      → read_unsigned u64_max word ≡ some n
      → line ≡ codes "subscribe " ++ word
      → Means line (subscribe (some n))

arguments-some : (s : Text) → arguments (some s) ≡ split b' ' s
unfolding arguments
arguments-some [] = refl
arguments-some (c ∷ s) = refl

-- One argument with no space in it, and two.
pub arguments_word : (s : Text) → Lacks b' ' s → arguments (some s) ≡ s ∷ []
arguments_word s h = arguments-some s ∙ split_of-Lacks b' ' s h

pub arguments_two :
    (s t : Text) → Lacks b' ' s → Lacks b' ' t → arguments (some (s ++ b' ' ∷ t)) ≡ s ∷ t ∷ []
arguments_two s t hs ht =
    cc (arguments-some (s ++ b' ' ∷ t), split-append b' ' s t hs, split_of-Lacks b' ' t ht)

word_favorite : (id : Text) → id ≢ [] → parse_favorite (id ∷ []) ≡ ok (favorite (some id))
unfolding parse_favorite
word_favorite [] h = absurd (h refl)
word_favorite (c ∷ id) h = refl

word_unfavorite : (id : Text) → id ≢ [] → parse_unfavorite (id ∷ []) ≡ ok (unfavorite id)
unfolding parse_unfavorite
word_unfavorite [] h = absurd (h refl)
word_unfavorite (c ∷ id) h = refl

word_history :
    (n : ℕ) (word : Text)
    → read_unsigned u64_max word ≡ some n
    → 1 ≤ n
    → n ≤ max_history_count
    → parse_history (word ∷ []) ≡ ok (history n)
unfolding parse_history check_count
word_history n word e h k = rw e (ground arith)

word_subscribe :
    (n : ℕ) (word : Text)
    → read_unsigned u64_max word ≡ some n
    → parse_subscribe (word ∷ []) ≡ ok (subscribe (some n))
unfolding parse_subscribe
word_subscribe n word e = rw e refl

module _ (quoted : Text → Text) where
  word_hello :
      (v : ℕ) (word : Text)
      → read_unsigned u32_max word ≡ some v
      → parse_hello quoted (word ∷ []) ≡ ok (hello v none)
  unfolding parse_hello
  word_hello v word e = rw e refl

  words_hello :
      (v : ℕ) (word client : Text)
      → read_unsigned u32_max word ≡ some v
      → parse_hello quoted (word ∷ client ∷ []) ≡ ok (hello v (some client))
  unfolding parse_hello
  words_hello v word client e = rw e refl

  absolute_path :
      (path : Text) → is_absolute_path path ≡ true → check_path quoted path ≡ ok (set_path path)
  unfolding check_path is_absolute_path
  absolute_path [] h = cc
  absolute_path (c ∷ path) h = rw (h, check_path) refl

  filled_id : (id : Text) → id ≢ [] → non_empty id (codes "set id") set_id ≡ ok (set_id id)
  unfolding non_empty
  filled_id [] h = absurd (h refl)
  filled_id (c ∷ id) h = refl

  set_of_path :
      (path : Text)
      → is_absolute_path (trim_end 13 path) ≡ true
      → parse_set quoted (codes "path " ++ path) ≡ ok (set_path (trim_end 13 path))
  unfolding parse_set strip_prefix
  set_of_path path h = absolute_path (trim_end 13 path) h

  set_of_id :
      (id : Text)
      → trim_end 13 id ≢ []
      → parse_set quoted (codes "id " ++ id) ≡ ok (set_id (trim_end 13 id))
  unfolding parse_set strip_prefix
  set_of_id id h = filled_id (trim_end 13 id) h

  bare_verb : (r : Request) → is_bare r ≡ true → parse_stripped quoted (verb r) ≡ ok r
  unfolding parse_stripped parse_verb split_once text_eq verb
  bare_verb ping h = refl
  bare_verb version h = refl
  bare_verb status h = refl
  bare_verb next h = refl
  bare_verb prev h = refl
  bare_verb pause h = refl
  bare_verb resume h = refl
  bare_verb favorites h = refl
  bare_verb sources h = refl
  bare_verb close h = refl
  bare_verb _ h = absurd cc

  bare_space : (r : Request) → is_bare r ≡ true → parse_stripped quoted (verb r ++ b' ' ∷ []) ≡ ok r
  unfolding parse_stripped parse_verb split_once text_eq verb
  bare_space ping h = refl
  bare_space version h = refl
  bare_space status h = refl
  bare_space next h = refl
  bare_space prev h = refl
  bare_space pause h = refl
  bare_space resume h = refl
  bare_space favorites h = refl
  bare_space sources h = refl
  bare_space close h = refl
  bare_space _ h = absurd cc

  -- A line of the grammar is parsed as what it means.
  pub parse_stripped-Means :
      (line : Text) (r : Request) → Means line r → parse_stripped quoted line ≡ ok r
  unfolding parse_stripped parse_verb split_once text_eq
  parse_stripped-Means line r (bare _ h (inl e)) = rw e (bare_verb r h)
  parse_stripped-Means line r (bare _ h (inr e)) = rw e (bare_space r h)
  parse_stripped-Means line r (greets v word l h e) =
      rw e (rw (arguments_word word l) (word_hello v word h))
  parse_stripped-Means line r (greets_as v word client l k h e) =
      rw e (rw (arguments_two word client l k) (words_hello v word client h))
  parse_stripped-Means line r (sets_path path h e) = rw e (set_of_path path h)
  parse_stripped-Means line r (sets_id id h e) = rw e (set_of_id id h)
  parse_stripped-Means line r (asks_history e) = rw e refl
  parse_stripped-Means line r (asks_history_of n word l h low high e) =
      rw e (rw (arguments_word word l) (word_history n word h low high))
  parse_stripped-Means line r (pins e) = rw e refl
  parse_stripped-Means line r (pins_id id w e) =
      rw e (rw (arguments_word id w.spaceless) (word_favorite id w.filled))
  parse_stripped-Means line r (unpins id w e) =
      rw e (rw (arguments_word id w.spaceless) (word_unfavorite id w.filled))
  parse_stripped-Means line r (asks_path e) = rw e refl
  parse_stripped-Means line r (asks_check e) = rw e refl
  parse_stripped-Means line r (joins e) = rw e refl
  parse_stripped-Means line r (joins_since n word l h e) =
      rw e (rw (arguments_word word l) (word_subscribe n word h))
