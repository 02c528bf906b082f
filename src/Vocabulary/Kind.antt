-- ===== src/Vocabulary/Kind.antt =====
-- `Kind` of crates/whirl-core/src/protocol.rs: the origin of an entry.
use whirl.Prelude.{
  ◌≡◌, refl, List, [], ◌∷◌, Option, some, Text, codes, text_eq, text_eq_iff, find, arith,
}

pub data Kind : Type 0 where
  local wallhaven external : Kind

abbrev pub all : List Kind
all = local ∷ wallhaven ∷ external ∷ []

unfoldable pub as_str : Kind → Text
as_str local = codes "local"
as_str wallhaven = codes "wallhaven"
as_str external = codes "external"

unfoldable pub parse : Text → Option Kind
unfolding as_str
parse name = find (λ k. text_eq (as_str k) name) all

-- Every name is read back as what it names.
pub parse-as_str : (k : Kind) → parse (as_str k) ≡ some k
unfolding parse text_eq
parse-as_str local = refl
parse-as_str wallhaven = refl
parse-as_str external = refl

-- Nothing but a name is read.
find-as_str :
    (name : Text) (k : Kind) (ks : List Kind)
    → find (λ x. text_eq (as_str x) name) ks ≡ some k
    → as_str k ≡ name
find-as_str name k [] h = cc
find-as_str name k (x ∷ ks) h = ground (arith, text_eq_iff (as_str x) name, find-as_str name k ks)

pub as_str-parse : (name : Text) (k : Kind) → parse name ≡ some k → as_str k ≡ name
unfolding parse
as_str-parse name k h = find-as_str name k all h
