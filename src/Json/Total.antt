-- ===== src/Json/Total.antt =====
-- No text makes the reader go on for ever.
use whirl.Prelude.{
  ℕ, zero, suc, ◌≤◌, ◌<◌, ◌≢◌, [], ◌∷◌, Bool, true, false, ◌||◌, Option, none, some, Text, codes,
  length, ◌==◌, if◌then◌else◌, arith,
}
use whirl.Strings.Number.{is_decimal}
use whirl.Json.{
  Node, node, Value, null, bool, num, str, arr, obj, Nodes, nil, Entries, end, node_line, push_node,
  push_entry, holds_key, Cursor, at, Parsed, Reader, ◌>>=◌, next_line, here, peek, bump, skip_ws,
  expect, trailing_comma_object, trailing_comma_array, unexpected, no_value, duplicate_key,
}
use whirl.Json.Strings.{string}
use whirl.Json.Numbers.{number_literal}
use whirl.Json.Parser.{
  literal_from, found_byte, in_key, after_entry, object_loop, object, after_element, array_loop,
  array, value_of, value, unfinished, closed, whole, parse,
}
use whirl.Json.Settles.{
  Reads, got, refuses, Keeps, Reads-weaken, if-Keeps, done-Keeps, fail-Keeps, fail_at-Keeps,
  Eats-Keeps, Keeps-bind, Eats-bind, skip_ws-Keeps, here-Keeps, peek-Keeps, bump-Keeps, expect-Eats,
}
use whirl.Json.Lexemes.{expect-Keeps, string-Eats, number_literal-Keeps, literal-Keeps, in_key-Eats}

-- What stands behind an entry takes a byte before it goes on.
peeked :
    {A : Type 0} (k : ℕ) (f : Option ℕ → Reader A)
    → ((line : ℕ) → Reads 0 (f none (at [] line)))
    → ((c : ℕ) (s : Text) (line : ℕ)
        → length s < k
        → Reads (length s) (f (some c) (at (c ∷ s) line)))
    → Keeps (suc k) (peek >>= f)
peeked k f hn hs (at [] line) h = hn line
peeked k f hn hs (at (c ∷ s) line) h =
    Reads-weaken (length s) _ _ (omega arith) (hs c s line (omega arith))

if-Reads :
    {A : Type 0} (n : ℕ) (b : Bool) (x y : Reader A) (p : Cursor)
    → Reads n (x p)
    → Reads n (y p)
    → Reads n ((if b then x else y) p)
if-Reads n true x y p hx hy = hx
if-Reads n false x y p hx hy = hy

module _ (k : ℕ) where
  after_entry-Keeps :
      (more : Reader Value) (es : Entries)
      → Keeps k more
      → Keeps (suc k) (peek >>= after_entry more es)
  unfolding after_entry found_byte
  after_entry-Keeps more es hm =
      peeked k (after_entry more es) (λ line. refuses _ _ _)
        λ c s line h.
          if-Reads (length s) (c == b',') _ _ (at (c ∷ s) line)
            (Keeps-bind k skip_ws _ (skip_ws-Keeps k)
              (λ u.
                Keeps-bind k peek _ (peek-Keeps k)
                  λ b. if-Keeps k (found_byte b b'}') _ _ (fail-Keeps k trailing_comma_object) hm)
              (at s (next_line c line)) h)
            (if-Reads (length s) (c == b'}') _ _ (at (c ∷ s) line) (got _ _ (omega arith))
              (refuses _ _ _))

  after_element-Keeps :
      (more : Reader Value) (ns : Nodes)
      → Keeps k more
      → Keeps (suc k) (peek >>= after_element more ns)
  unfolding after_element found_byte
  after_element-Keeps more ns hm =
      peeked k (after_element more ns) (λ line. refuses _ _ _)
        λ c s line h.
          if-Reads (length s) (c == b',') _ _ (at (c ∷ s) line)
            (Keeps-bind k skip_ws _ (skip_ws-Keeps k)
              (λ u.
                Keeps-bind k peek _ (peek-Keeps k)
                  λ b. if-Keeps k (found_byte b b']') _ _ (fail-Keeps k trailing_comma_array) hm)
              (at s (next_line c line)) h)
            (if-Reads (length s) (c == b']') _ _ (at (c ∷ s) line) (got _ _ (omega arith))
              (refuses _ _ _))

module _ (rec : Reader Node) where
  array_loop-Keeps :
      (fuel : ℕ)
      → ((k : ℕ) → k ≤ fuel → Keeps k rec)
      → (ns : Nodes) → Keeps fuel (array_loop fuel rec ns)
  unfolding array_loop
  array_loop-Keeps zero hv ns p h = absurd (omega arith)
  array_loop-Keeps (suc fuel) hv ns p small =
      Keeps-bind (suc fuel) rec _ (hv (suc fuel) (omega arith))
        (λ n. Keeps-bind (suc fuel) skip_ws _ (skip_ws-Keeps (suc fuel)) λ u.
          after_element-Keeps fuel (array_loop fuel rec (push_node ns n)) (push_node ns n)
            (array_loop-Keeps fuel (λ k h. hv k (omega arith)) (push_node ns n)))
        p small

  object_loop-Keeps :
      (fuel : ℕ)
      → ((k : ℕ) → k ≤ fuel → Keeps k rec)
      → (es : Entries) → Keeps fuel (object_loop fuel rec es)
  unfolding object_loop
  object_loop-Keeps zero hv es p h = absurd (omega arith)
  object_loop-Keeps (suc fuel) hv es p small =
      let k : ℕ = suc fuel in
      Keeps-bind k skip_ws _ (skip_ws-Keeps k)
        (λ u1.
          Keeps-bind k (in_key string) _
            (Eats-Keeps fuel (in_key string) (in_key-Eats fuel string (string-Eats fuel)))
            λ key. Keeps-bind k skip_ws _ (skip_ws-Keeps k) λ u2.
              Keeps-bind k (expect b':' (codes "a colon after the key")) _ (expect-Keeps k _ _)
                λ u3. Keeps-bind k rec _ (hv k (omega arith)) λ n.
                  if-Keeps k (holds_key key es) _ _
                    (fail_at-Keeps k (node_line n) (duplicate_key key))
                    (Keeps-bind k skip_ws _ (skip_ws-Keeps k) λ u4.
                      after_entry-Keeps fuel (object_loop fuel rec (push_entry es key n))
                        (push_entry es key n)
                        (object_loop-Keeps fuel (λ j h. hv j (omega arith)) (push_entry es key n))))
        p small

  value_of-Keeps :
      (fuel : ℕ)
      → ((k : ℕ) → k ≤ fuel → Keeps k rec)
      → (b : Option ℕ) → Keeps (suc fuel) (value_of fuel rec b)
  unfolding value_of object array
  value_of-Keeps fuel hv none = fail-Keeps (suc fuel) no_value
  value_of-Keeps fuel hv (some c) =
      let k : ℕ = suc fuel in
      let word = λ (w : Text) (v : Value).
        Keeps-bind k (literal_from w w) _ (literal-Keeps k w w) λ u. done-Keeps k v in
      if-Keeps k (c == b'{') _ _
        (Eats-Keeps fuel _ (
          Eats-bind fuel (expect b'{' (codes "an object")) _ (expect-Eats fuel _ _) λ u1.
            Keeps-bind fuel skip_ws _ (skip_ws-Keeps fuel) λ u2.
              Keeps-bind fuel peek _ (peek-Keeps fuel) λ b.
                if-Keeps fuel (found_byte b b'}') _ _
                  (Keeps-bind fuel bump _ (bump-Keeps fuel) λ v. done-Keeps fuel (obj end))
                  (object_loop-Keeps fuel hv end)))
        (if-Keeps k (c == b'[') _ _
          (Eats-Keeps fuel _ (
            Eats-bind fuel (expect b'[' (codes "an array")) _ (expect-Eats fuel _ _) λ u1.
              Keeps-bind fuel skip_ws _ (skip_ws-Keeps fuel) λ u2.
                Keeps-bind fuel peek _ (peek-Keeps fuel) λ b.
                  if-Keeps fuel (found_byte b b']') _ _
                    (Keeps-bind fuel bump _ (bump-Keeps fuel) λ v. done-Keeps fuel (arr nil))
                    (array_loop-Keeps fuel hv nil)))
          (if-Keeps k (c == b'"') _ _
            (Keeps-bind k string _ (Eats-Keeps fuel string (string-Eats fuel))
              λ s. done-Keeps k (str s))
            (if-Keeps k (c == b't') _ _ (word (codes "true") (bool true)) (
              if-Keeps k (c == b'f') _ _ (word (codes "false") (bool false)) (
                if-Keeps k (c == b'n') _ _ (word (codes "null") null) (
                  if-Keeps k ((c == b'-') || is_decimal c) _ _
                    (Keeps-bind k number_literal _ (number_literal-Keeps k)
                      λ t. done-Keeps k (num t))
                    (fail-Keeps k (unexpected c))))))))

-- With more fuel than bytes a value ends, and leaves no more text than there was.
pub value-Keeps : (fuel k : ℕ) → k ≤ fuel → Keeps k (value fuel)
unfolding value
value-Keeps zero k h p small = absurd (omega arith)
value-Keeps (suc fuel) k h p small =
    Keeps-bind (suc fuel) skip_ws _ (skip_ws-Keeps (suc fuel))
      (λ u. Keeps-bind (suc fuel) here _ (here-Keeps (suc fuel)) λ line.
        Keeps-bind (suc fuel) peek _ (peek-Keeps (suc fuel)) λ b.
          Keeps-bind (suc fuel) (value_of fuel (value fuel) b) _
            (value_of-Keeps (value fuel) fuel (value-Keeps fuel) b)
            λ v. done-Keeps (suc fuel) (node v line))
      p (omega arith)

whole-Keeps : (fuel : ℕ) → Keeps fuel (whole fuel)
unfolding whole
whole-Keeps fuel = Keeps-bind fuel skip_ws _ (skip_ws-Keeps fuel) λ u.
    Keeps-bind fuel (value fuel) _ (value-Keeps fuel fuel (omega arith))
      λ n. Keeps-bind fuel skip_ws _ (skip_ws-Keeps fuel) λ v. done-Keeps fuel n

closed-answers : (n : ℕ) (r : Parsed Node) → Reads n r → closed r ≢ unfinished
unfolding closed
closed-answers n r (got m (at [] line) small) = λ e. cc
closed-answers n r (got m (at (c ∷ s) line) small) = λ e. cc
closed-answers n r (refuses line why now) = λ e. cc

-- Every text is read as a document or refused: however its strings, numbers, arrays and objects are
-- broken off or nested, no loop of the reader goes on for ever.
pub parse-answers : (text : Text) → parse text ≢ unfinished
unfolding parse
parse-answers text =
    closed-answers (length text) _ (whole-Keeps (suc (length text)) (at text 1) (omega arith))
