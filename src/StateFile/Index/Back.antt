-- ===== src/StateFile/Index/Back.antt =====
-- The index that is saved is read back.
use whirl.Prelude.{
  ℕ, suc, ◌≡◌, ◌∙◌, refl, ap, sym, List, [], ◌∷◌, ◌++◌, append_assoc, append-nil, false, Option,
  none, some, Text, codes, text_eq, All, arith,
}
use whirl.Map.{Map, insert}
use whirl.Cache.{CacheIndexEntry, IndexFile}
use whirl.Json.{Node, node, null, bool, num, str, arr, obj, Entries, end, entry}
use whirl.Json.Same.{unlined, unlined_entries}
use whirl.StateFile.{read, Answered, ok, err, ◌>>=◌}
use whirl.StateFile.Integer.{as_u64-decimal}
use whirl.StateFile.Blank.{is_blank, is_blank_from}
use whirl.StateFile.Fields.{field_of, opt_str_of, opt_int_of, schema_from, optional_of, read_nodes}
use whirl.StateFile.Unlined.{
  field_of-unlined_entries, unlined_option, opt_str-unlined, opt_bool-unlined, opt_int-unlined,
  schema-unlined, optional-unlined, read_nodes-unlined,
}
use whirl.StateFile.Pieces.{schema}
use whirl.StateFile.Trees.{nodes_of, kind_of_name-as_str, opt_str-leaf, document_back}
use whirl.StateFile.Current.Back.{number_back}
use whirl.StateFile.Index.{
  index_name, as_u32, dangling_of, dangling_digest, index_entry, insert_entries, read_index_entries,
  read_index_file, parse_index, encode_index,
}
use whirl.StateFile.Index.Order.{IsAscending, AllBefore, insert_last, AllBefore-append}
use whirl.StateFile.Index.Written.{
  optional_number, index_entry_tree, entries_of_map, digest_tree, index_root, encode_index-tree,
}
use whirl.StateFile.Index.Plain.{IsU32Option, IsPlainEntry, IsPlainIndex, index_tree-Writable}

dangling_digest-unlined :
    (index : ℕ) (n : Node) → dangling_digest index (unlined n) ≡ dangling_digest index n
unfolding dangling_digest unlined
dangling_digest-unlined index (node null line) = refl
dangling_digest-unlined index (node (bool b) line) = refl
dangling_digest-unlined index (node (num t) line) = refl
dangling_digest-unlined index (node (str s) line) = refl
dangling_digest-unlined index (node (arr ns) line) = refl
dangling_digest-unlined index (node (obj es) line) = refl

dangling-unlined :
    (o : Option Node)
    → (dangling_of (unlined_option o) >>= read_nodes dangling_digest 0)
      ≡ (dangling_of o >>= read_nodes dangling_digest 0)
unfolding dangling_of unlined_option unlined
dangling-unlined none = refl
dangling-unlined (some (node null line)) = refl
dangling-unlined (some (node (bool b) line)) = refl
dangling-unlined (some (node (num t) line)) = refl
dangling-unlined (some (node (str s) line)) = refl
dangling-unlined (some (node (arr ns) line)) =
    read_nodes-unlined dangling_digest dangling_digest-unlined 0 ns
dangling-unlined (some (node (obj es) line)) = refl

dangling_back :
    (ds : List Text) (index : ℕ)
    → read_nodes dangling_digest index (nodes_of digest_tree ds) ≡ ok ds
unfolding read_nodes nodes_of dangling_digest
dangling_back [] index = refl
dangling_back (d ∷ ds) index = rw (dangling_back ds (suc index)) refl

as_u32_back : (o : Option ℕ) → IsU32Option o → as_u32 o ≡ o
unfolding as_u32
as_u32_back none h = refl
as_u32_back (some n) h = ground arith

bind_same :
    {A B : Type 0} (r : Answered A) (f g : A → Answered B)
    → ((a : A) → f a ≡ g a)
    → (r >>= f) ≡ (r >>= g)
bind_same (ok a) f g h = h a
bind_same (err e) f g h = refl

module _ (other : Text → Option ℕ) where
  index_entry-unlined :
      (digest : Text) (n : Node) → index_entry other digest (unlined n) ≡ index_entry other digest n
  unfolding index_entry unlined
  index_entry-unlined digest (node null line) = refl
  index_entry-unlined digest (node (bool b) line) = refl
  index_entry-unlined digest (node (num t) line) = refl
  index_entry-unlined digest (node (str s) line) = refl
  index_entry-unlined digest (node (arr ns) line) = refl
  index_entry-unlined digest (node (obj es) line) =
      simp (field_of-unlined_entries, opt_str-unlined, opt_int-unlined, opt_bool-unlined)

  insert_entries-unlined :
      (es : Entries) (m : Map CacheIndexEntry)
      → insert_entries other (unlined_entries es) m ≡ insert_entries other es m
  unfolding insert_entries unlined
  insert_entries-unlined end m = refl
  insert_entries-unlined (entry digest n es) m =
      ap (λ r. r >>= λ e. insert_entries other (unlined_entries es) (insert digest e m))
        (index_entry-unlined digest n)
      ∙ bind_same (index_entry other digest n) _ _
          (λ e. insert_entries-unlined es (insert digest e m))

  read_index_file-unlined :
      (es : Entries) → read_index_file other (unlined_entries es) ≡ read_index_file other es
  unfolding read_index_file
  read_index_file-unlined es = simp (
    field_of-unlined_entries,
    schema-unlined,
    opt_int-unlined,
    opt_str-unlined,
    optional-unlined (read_index_entries other) (λ es. insert_entries-unlined es []),
    dangling-unlined,
  )

  optional_number_back :
      (key : Text) (o : Option ℕ)
      → IsU32Option o
      → opt_int_of other key (some (optional_number o)) ≡ ok o
  unfolding opt_int_of
  optional_number_back key none h = refl
  optional_number_back key (some n) h = rw (as_u64-decimal other n (omega arith)) refl

  index_entry_back :
      (digest : Text) (e : CacheIndexEntry)
      → IsPlainEntry (digest, e)
      → index_entry other digest (index_entry_tree e) ≡ ok e
  unfolding index_entry field_of text_eq opt_str_of
  index_entry_back digest e h =
      rw
        (
          number_back other (codes "bytes") e.bytes h.bytes,
          kind_of_name-as_str e.kind 0,
          opt_str-leaf (codes "origin") e.origin,
          optional_number_back (codes "width") e.width h.width,
          optional_number_back (codes "height") e.height h.height,
        )
        (simp (as_u32_back e.width h.width, as_u32_back e.height h.height))

  insert_entries_back :
      (m before : Map CacheIndexEntry)
      → All IsPlainEntry m
      → IsAscending m
      → AllBefore before m
      → insert_entries other (entries_of_map m) before ≡ ok (before ++ m)
  unfolding insert_entries entries_of_map
  insert_entries_back [] before h a b = ap ok (sym (append-nil before))
  insert_entries_back ((digest, e) ∷ m) before h a b =
      rw (index_entry_back digest e h.0, insert_last digest e before b.0)
        (insert_entries_back m (before ++ (digest, e) ∷ []) h.1 a.1
            (AllBefore-append digest e before m b.1 a.0)
          ∙ ap ok (append_assoc before ((digest, e) ∷ []) m))

  none_before : (m : Map CacheIndexEntry) → AllBefore [] m
  none_before [] = tt
  none_before (p ∷ m) = (tt, none_before m)

  index_root_back :
      (file : IndexFile)
      → IsPlainIndex file
      → read_index_file other (index_root file) ≡ ok (read file)
  unfolding read_index_file field_of schema_from optional_of dangling_of opt_str_of text_eq
  index_root_back file h =
      rw
        (
          as_u64-decimal other schema (omega arith),
          number_back other (codes "seq") file.seq h.seq,
          insert_entries_back file.entries [] h.entries h.ascending (none_before file.entries),
          dangling_back file.dangling 0,
        )
        refl

  brace : (file : IndexFile) → is_blank (encode_index file) ≡ false
  unfolding encode_index is_blank_from
  brace file = refl

  -- The index that is encoded is read back as it is, whatever numbers other literals are, where its keys
  -- ascend, its texts are ASCII, its numbers are below 2^53 and its dimensions are of 32 bits.
  pub parse_index-encode_index :
      (file : IndexFile)
      → IsPlainIndex file
      → parse_index other (encode_index file) ≡ ok (read file)
  unfolding parse_index
  parse_index-encode_index file h =
      document_back index_name (encode_index file) (read_index_file other) (index_root file)
        read_index_file-unlined (index_tree-Writable file h) (brace file) (encode_index-tree file)
      ∙ index_root_back file h
