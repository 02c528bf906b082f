-- ===== src/StateFile/Current/Back.antt =====
-- The live scalars that are saved are read back.
use whirl.Prelude.{
  ℕ, ◌≡◌, ◌∙◌, ◌<◌, refl, sym, false, Option, none, some, Text, codes, text_eq, arith,
}
use whirl.Daemon.{CurrentFile, Anchor, CacheFacts}
use whirl.Json.{Entries}
use whirl.Json.Same.{unlined_entries}
use whirl.StateFile.{read, ok, ◌>>=◌}
use whirl.StateFile.Integer.{as_u64-decimal, f64_exact}
use whirl.StateFile.Blank.{is_blank, is_blank_from}
use whirl.StateFile.Fields.{field_of, opt_str_of, opt_int_of, schema_from, optional_of}
use whirl.StateFile.Unlined.{
  field_of-unlined_entries, opt_str-unlined, opt_bool-unlined, opt_int-unlined, schema-unlined,
  optional-unlined,
}
use whirl.StateFile.Pieces.{schema}
use whirl.StateFile.Trees.{opt_str-leaf, document_back}
use whirl.StateFile.Current.{
  current_name, read_anchor, read_cache, read_current, parse_current, encode_current,
}
use whirl.StateFile.Current.Plain.{IsExactCache, IsPlain, current_tree-Writable}
use whirl.StateFile.Current.Written.{
  number_leaf, anchor_tree, cache_tree, current_root, encode_current-tree,
}

read_anchor-unlined :
    (es : Entries) → read_anchor (some (unlined_entries es)) ≡ read_anchor (some es)
unfolding read_anchor
read_anchor-unlined es = simp (field_of-unlined_entries, opt_str-unlined)

module _ (other : Text → Option ℕ) where
  read_cache-unlined :
      (es : Entries) → read_cache other (some (unlined_entries es)) ≡ read_cache other (some es)
  unfolding read_cache
  read_cache-unlined es = simp (field_of-unlined_entries, opt_str-unlined, opt_int-unlined)

  read_current-unlined :
      (es : Entries) → read_current other (unlined_entries es) ≡ read_current other es
  unfolding read_current
  read_current-unlined es = simp (
    field_of-unlined_entries,
    schema-unlined,
    opt_int-unlined,
    opt_str-unlined,
    opt_bool-unlined,
    optional-unlined read_anchor read_anchor-unlined,
    optional-unlined (read_cache other) read_cache-unlined,
  )

anchor_back :
    (o : Option Anchor)
    → (optional_of (codes "anchor") (some (anchor_tree o)) >>= read_anchor) ≡ ok o
unfolding optional_of read_anchor field_of text_eq opt_str_of
anchor_back none = refl
anchor_back (some a) = simp opt_str-leaf

module _ (other : Text → Option ℕ) where
  pub number_back :
      (key : Text) (n : ℕ)
      → n < f64_exact
      → opt_int_of other key (some (number_leaf n)) ≡ ok (some n)
  unfolding opt_int_of
  number_back key n h = rw (as_u64-decimal other n h) refl

  cache_back :
      (o : Option CacheFacts)
      → IsExactCache o
      → (optional_of (codes "cache") (some (cache_tree o)) >>= read_cache other) ≡ ok o
  unfolding optional_of read_cache field_of text_eq opt_str_of
  cache_back none h = refl
  cache_back (some c) (r, f, b, ob, of) =
      rw
        (
          opt_str-leaf (codes "root_id") c.root_id,
          number_back (codes "files") c.files f,
          number_back (codes "bytes") c.bytes b,
          number_back (codes "over_cap_bytes") c.over_cap_bytes ob,
          number_back (codes "over_cap_files") c.over_cap_files of,
        )
        refl

  current_root_back :
      (file : CurrentFile) → IsPlain file → read_current other (current_root file) ≡ ok (read file)
  unfolding read_current field_of schema_from text_eq
  current_root_back file h =
      rw
        (
          as_u64-decimal other schema (omega arith),
          number_back (codes "seq") file.seq h.seq,
          number_back (codes "rotation_count") file.rotation_count h.rotation_count,
        )
        (simp (opt_str-leaf, anchor_back, cache_back file.cache h.cache))

  brace : (file : CurrentFile) → is_blank (encode_current file) ≡ false
  unfolding encode_current is_blank_from
  brace file = refl

  -- The live scalars that are encoded are read back as they are, whatever numbers other literals are,
  -- where the texts are ASCII and the numbers below 2^53.
  pub parse_current-encode_current :
      (file : CurrentFile)
      → IsPlain file
      → parse_current other (encode_current file) ≡ ok (read file)
  unfolding parse_current
  parse_current-encode_current file h =
      document_back current_name (encode_current file) (read_current other) (current_root file)
        (read_current-unlined other) (current_tree-Writable file h) (brace file)
        (sym (encode_current-tree file))
      ∙ current_root_back file h
