-- ===== src/Json/Roundtrip.antt =====
-- What `write_json` writes is read back, but for the lines.
use whirl.Prelude.{
  ℕ, zero, suc, ◌≤◌, ◌<◌, ◌≡◌, ◌∙◌, refl, ap, sym, subst, [], ◌∷◌, ◌++◌, true, false, Text, length,
  arith,
}
use whirl.Json.{
  Node, node, null, bool, num, str, arr, obj, Nodes, nil, cons, Entries, end, entry, push_node,
  push_entry, at, Parsed, Reader, and_then, ◌>>=◌, done, skip_ws, newline, is_ws, past_ws,
}
use whirl.Json.Parser.{object_loop, array_loop, value, closed, whole, parse}
use whirl.Json.Write.{string_into, indent_into, is_nil, is_end, write_json}
use whirl.Json.Numerals.{Stops}
use whirl.Json.Comes.{Comes, comes, Comes-of_eq, Comes-map, length-indent_into}
use whirl.Json.Same.{unlined, append_nodes, append_entries, Fresh, Fresh-push_entry, Fresh-end}
use whirl.Json.Steps.{
  value-string, value-null, value-true, value-false, value-no_elements, value-no_entries,
  value-number_literal, value-entries, node-Comes,
}
use whirl.Json.Loops.{entry_last, element_last, entry_next, object_loop-entry, array_loop-element}
use whirl.Json.Pieces.{
  SameNode, Elements, Objects, Begins, write_json-Begins, elements_text, value_text, entries_text,
  behind-le, value-elements_of, element_next_of, newline-Stops, comma-Stops, last_element,
  more-Elements, last_entry, more_entries, nothing_there, key_first, array_node, object_node,
  Writable, WritableNodes, WritableEntries, Reparsed, reparsed,
}

module _ (display : Text → Text) where
  mutual
    unfolding write_json Writable unlined append_nodes append_entries

    value-back :
        (n : Node) (fuel indent : ℕ) (rest : Text) (line : ℕ)
        → Writable display n
        → Stops rest
        → length (write_json display indent n rest) < fuel
        → Comes (SameNode n) rest (value fuel (at (write_json display indent n rest) line))
    value-back n zero indent rest line w stop small = absurd (omega arith)
    value-back (node null k) (suc fuel) indent rest line w stop small =
        Comes-of_eq _ _ _ _ _ (value-null fuel rest line) refl
    value-back (node (bool true) k) (suc fuel) indent rest line w stop small =
        Comes-of_eq _ _ _ _ _ (value-true fuel rest line) refl
    value-back (node (bool false) k) (suc fuel) indent rest line w stop small =
        Comes-of_eq _ _ _ _ _ (value-false fuel rest line) refl
    value-back (node (num []) k) (suc fuel) indent rest line w stop small =
        absurd (omega (arith, w.1))
    value-back (node (num (c ∷ s)) k) (suc fuel) indent rest line (shown, numeral) stop small =
        Comes-of_eq _ _ _ (node (num (c ∷ s)) line) line
          (ap (λ t. value (suc fuel) (at (t ++ rest) line)) shown
            ∙ value-number_literal fuel c s rest line numeral stop)
          refl
    value-back (node (str s) k) (suc fuel) indent rest line w stop small =
        Comes-of_eq _ _ _ _ _ (value-string fuel s rest line w) refl
    value-back (node (arr nil) k) (suc fuel) indent rest line w stop small =
        Comes-of_eq _ _ _ _ _ (value-no_elements fuel rest line) refl
    value-back (node (arr (cons n ns)) k) (suc fuel) indent rest line w stop small =
        let text = elements_text display indent (cons n ns) rest in
        subst (Comes _ rest)
          (sym (
            value-elements_of fuel (suc indent) text line
              (write_json-Begins display n (suc indent) _ w.0)))
          (node-Comes _ rest _ line (
            Comes-map _ _ rest _ (array_node (cons n ns) k line) (
              Elements-back (cons n ns) nil fuel fuel indent rest (suc line) refl w (omega arith)
                (omega (arith, length-indent_into indent text)))))
    value-back (node (obj end) k) (suc fuel) indent rest line w stop small =
        Comes-of_eq _ _ _ _ _ (value-no_entries fuel rest line) refl
    value-back (node (obj (entry key n es)) k) (suc fuel) indent rest line w stop small =
        let behind = b':' ∷ b' ' ∷ value_text display indent n es rest in
        subst (Comes _ rest) (sym (value-entries fuel (suc indent) key behind line)) (
          node-Comes _ rest _ line (
            Comes-map _ _ rest _ (object_node (entry key n es) k line) (
              entries-back (entry key n es) end fuel fuel indent rest (suc line) refl w
                (Fresh-end (entry key n es)) (omega arith)
                (omega (arith, length-indent_into indent (string_into key behind))))))

    Elements-back :
        (ns : Nodes) (before : Nodes) (fuel rec indent : ℕ) (rest : Text) (line : ℕ)
        → is_nil ns ≡ false
        → WritableNodes display ns
        → fuel ≤ rec
        → length (elements_text display indent ns rest) < fuel
        → Comes
            (Elements before ns)
            rest
            (array_loop fuel (value rec) before (at (elements_text display indent ns rest) line))
    Elements-back ns before zero rec indent rest line some_there ws h small = absurd (omega arith)
    Elements-back nil before (suc fuel) rec indent rest line some_there ws h small =
        absurd (nothing_there some_there)
    Elements-back (cons n nil) before (suc fuel) rec indent rest line some_there (w, ws) h small =
        let behind = newline ∷ indent_into indent (b']' ∷ rest) in
        array_loop-element (SameNode n) (Elements before (cons n nil)) fuel rec before _ behind rest
          line
          (value-back n rec (suc indent) behind line w
            (newline-Stops (indent_into indent (b']' ∷ rest))) (omega arith))
          λ m l same.
            Comes-of_eq _ rest _ _ _ (element_last _ (push_node before m) indent rest l)
              (last_element before n m same)
    Elements-back (cons n (cons m ns)) before (suc fuel) rec indent rest line some_there (w, ws) h
          small =
        let text = elements_text display indent (cons m ns) rest in
        let behind = b',' ∷ newline ∷ indent_into (suc indent) text in
        let ih =
          value-back n rec (suc indent) behind line w
            (comma-Stops (newline ∷ indent_into (suc indent) text)) (omega arith) in
        let shorter = behind-le display rec (suc indent) n behind line (omega arith) ih in
        array_loop-element (SameNode n) (Elements before (cons n (cons m ns))) fuel rec before _
          behind rest line ih
          λ m' l same.
            subst (Comes _ rest)
              (sym (
                element_next_of _ (push_node before m') (suc indent) text l
                  (write_json-Begins display m (suc indent) _ ws.0)))
              (Comes-map _ _ rest _ (λ v. more-Elements before n m' (cons m ns) v same)
                (Elements-back (cons m ns) (push_node before m') fuel rec indent rest (suc l) refl
                  ws (omega arith) (omega (arith, shorter, length-indent_into indent text))))

    entries-back :
        (es : Entries) (before : Entries) (fuel rec indent : ℕ) (rest : Text) (line : ℕ)
        → is_end es ≡ false
        → WritableEntries display es
        → Fresh before es
        → fuel ≤ rec
        → length (entries_text display indent es rest) < fuel
        → Comes
            (Objects before es)
            rest
            (object_loop fuel (value rec) before (at (entries_text display indent es rest) line))
    entries-back es before zero rec indent rest line some_there w new h small = absurd (omega arith)
    entries-back end before (suc fuel) rec indent rest line some_there w new h small =
        absurd (nothing_there some_there)
    entries-back (entry key n end) before (suc fuel) rec indent rest line some_there
          (ascii, w, later, others) new h small =
        let behind = newline ∷ indent_into indent (b'}' ∷ rest) in
        let room = key_first key (write_json display (suc indent) n behind) in
        object_loop-entry (SameNode n) (Objects before (entry key n end)) fuel rec before key _
          behind rest line ascii new.0
          (value-back n rec (suc indent) behind line w
            (newline-Stops (indent_into indent (b'}' ∷ rest))) (omega (arith, room)))
          λ m l same.
            Comes-of_eq _ rest _ _ _ (entry_last _ (push_entry before key m) indent rest l)
              (last_entry before key n m same)
    entries-back (entry key n (entry key2 m es)) before (suc fuel) rec indent rest line some_there
          (ascii, w, later, others) new h small =
        let after = b':' ∷ b' ' ∷ value_text display indent m es rest in
        let behind = b',' ∷ newline ∷ indent_into (suc indent) (string_into key2 after) in
        let room = key_first key (write_json display (suc indent) n behind) in
        let ih =
          value-back n rec (suc indent) behind line w
            (comma-Stops (newline ∷ indent_into (suc indent) (string_into key2 after)))
            (omega (arith, room)) in
        let shorter = behind-le display rec (suc indent) n behind line (omega (arith, room)) ih in
        object_loop-entry (SameNode n) (Objects before (entry key n (entry key2 m es))) fuel rec
          before key _ behind rest line ascii new.0 ih
          λ m' l same.
            subst (Comes _ rest)
              (sym (entry_next _ (push_entry before key m') (suc indent) key2 after l))
              (Comes-map _ _ rest _ (λ v. more_entries before key n m' (entry key2 m es) v same)
                (entries-back (entry key2 m es) (push_entry before key m') fuel rec indent rest
                  (suc l) refl others (Fresh-push_entry before (entry key2 m es) key m' new.1 later)
                  (omega arith)
                  (omega
                    (arith, room, shorter, length-indent_into indent (string_into key2 after)))))

abbrev trailing : Node → Reader Node
trailing n = skip_ws >>= λ u. done n

closed_back :
    (n : Node) (r : Parsed Node)
    → Comes (SameNode n) (newline ∷ []) r
    → Reparsed n (closed (and_then r trailing))
unfolding closed past_ws is_ws
closed_back n r (comes m line same) = reparsed m same

no_white_space : (t : Text) (line : ℕ) → Begins t → past_ws t line ≡ at t line
unfolding past_ws
no_white_space t line (c, s, e, ws, b) =
    subst (λ u. past_ws u line ≡ at u line) (sym e) (rw (ws, past_ws) refl)

-- What is written of a tree is read back as that tree, but for the lines, where its texts are ASCII, its
-- numbers are numerals that are displayed as they are, and no object has a key twice. One line end
-- stands behind it.
pub parse-write_json :
    (display : Text → Text) (n : Node)
    → Writable display n
    → Reparsed n (parse (write_json display 0 n (newline ∷ [])))
unfolding parse whole closed
parse-write_json display n w =
    let text = write_json display 0 n (newline ∷ []) in
    subst (λ p. Reparsed n (closed (and_then (value (suc (length text)) p) trailing)))
      (sym (no_white_space text 1 (write_json-Begins display n 0 (newline ∷ []) w)))
      (closed_back n _ (
        value-back display n (suc (length text)) 0 (newline ∷ []) 1 w (newline-Stops [])
          (omega arith)))
