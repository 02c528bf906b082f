-- ===== src/Json/Same.antt =====
-- Trees that differ in nothing but the lines they were read at.
use whirl.Prelude.{◌≡◌, refl, ap, false, Text, text_eq, text_eq_iff, arith}
use whirl.Json.{
  Node, node, Value, null, bool, num, str, arr, obj, Nodes, nil, cons, Entries, end, entry,
  push_node, push_entry, holds_key,
}

unfoldable mutual
  pub unlined : Node → Node
  unlined (node v line) = node (unlined_value v) 0

  pub unlined_value : Value → Value
  unlined_value null = null
  unlined_value (bool b) = bool b
  unlined_value (num t) = num t
  unlined_value (str s) = str s
  unlined_value (arr ns) = arr (unlined_nodes ns)
  unlined_value (obj es) = obj (unlined_entries es)

  pub unlined_nodes : Nodes → Nodes
  unlined_nodes nil = nil
  unlined_nodes (cons n ns) = cons (unlined n) (unlined_nodes ns)

  pub unlined_entries : Entries → Entries
  unlined_entries end = end
  unlined_entries (entry key n es) = entry key (unlined n) (unlined_entries es)

unfoldable pub append_nodes : Nodes → Nodes → Nodes
append_nodes nil ms = ms
append_nodes (cons n ns) ms = cons n (append_nodes ns ms)

unfoldable pub append_entries : Entries → Entries → Entries
append_entries end fs = fs
append_entries (entry key n es) fs = entry key n (append_entries es fs)

pub append_nodes-push_node :
    (ns : Nodes) (n : Node) (ms : Nodes)
    → append_nodes (push_node ns n) ms ≡ append_nodes ns (cons n ms)
unfolding append_nodes push_node
append_nodes-push_node nil n ms = refl
append_nodes-push_node (cons m ns) n ms = ap (cons m) (append_nodes-push_node ns n ms)

pub append_entries-push_entry :
    (es : Entries) (key : Text) (n : Node) (fs : Entries)
    → append_entries (push_entry es key n) fs ≡ append_entries es (entry key n fs)
unfolding append_entries push_entry
append_entries-push_entry end key n fs = refl
append_entries-push_entry (entry k m es) key n fs =
    ap (entry k m) (append_entries-push_entry es key n fs)

pub append_nodes-nil : (ns : Nodes) → append_nodes ns nil ≡ ns
unfolding append_nodes
append_nodes-nil nil = refl
append_nodes-nil (cons n ns) = ap (cons n) (append_nodes-nil ns)

pub append_entries-end : (es : Entries) → append_entries es end ≡ es
unfolding append_entries
append_entries-end end = refl
append_entries-end (entry key n es) = ap (entry key n) (append_entries-end es)

pub holds_key-push_entry :
    (k : Text) (es : Entries) (key : Text) (n : Node)
    → holds_key k es ≡ false
    → text_eq key k ≡ false
    → holds_key k (push_entry es key n) ≡ false
unfolding holds_key push_entry
holds_key-push_entry k end key n h e = ground (arith, e)
holds_key-push_entry k (entry j m es) key n h e = ground (arith, holds_key-push_entry k es key n)

-- None of the keys behind is among those in front.
abbrev pub Fresh : Entries → Entries → Type 0
Fresh es end = Unit
Fresh es (entry key n fs) = (holds_key key es ≡ false) × Fresh es fs

pub text_eq_sym : (s t : Text) → text_eq s t ≡ false → text_eq t s ≡ false
text_eq_sym s t h = ground (arith, text_eq_iff s t, text_eq_iff t s)

pub Fresh-push_entry :
    (es fs : Entries) (key : Text) (n : Node)
    → Fresh es fs
    → holds_key key fs ≡ false
    → Fresh (push_entry es key n) fs
unfolding holds_key
Fresh-push_entry es end key n h new = tt
Fresh-push_entry es (entry k m fs) key n h new = (
  holds_key-push_entry k es key n h.0 (text_eq_sym k key (ground (arith))),
  Fresh-push_entry es fs key n h.1 (ground (arith)),
)

pub Fresh-end : (fs : Entries) → Fresh end fs
unfolding holds_key
Fresh-end end = tt
Fresh-end (entry key n fs) = (refl, Fresh-end fs)
