-- ===== src/Vocabulary/Via.antt =====
-- `Via` of crates/whirl-core/src/protocol.rs: how a set happened.
use whirl.Prelude.{
  ◌≡◌, refl, List, [], ◌∷◌, Option, some, Text, codes, text_eq, text_eq_iff, find, arith,
}

pub data Via : Type 0 where
  source manual prev startup recovered : Via

abbrev pub all : List Via
all = source ∷ manual ∷ prev ∷ startup ∷ recovered ∷ []

unfoldable pub as_str : Via → Text
as_str source = codes "source"
as_str manual = codes "manual"
as_str prev = codes "prev"
as_str startup = codes "startup"
as_str recovered = codes "recovered"

unfoldable pub parse : Text → Option Via
unfolding as_str
parse name = find (λ v. text_eq (as_str v) name) all

-- Every name is read back as what it names.
pub parse-as_str : (v : Via) → parse (as_str v) ≡ some v
unfolding parse text_eq
parse-as_str source = refl
parse-as_str manual = refl
parse-as_str prev = refl
parse-as_str startup = refl
parse-as_str recovered = refl

-- Nothing but a name is read.
find-as_str :
    (name : Text) (v : Via) (vs : List Via)
    → find (λ x. text_eq (as_str x) name) vs ≡ some v
    → as_str v ≡ name
find-as_str name v [] h = cc
find-as_str name v (x ∷ vs) h = ground (arith, text_eq_iff (as_str x) name, find-as_str name v vs)

pub as_str-parse : (name : Text) (v : Via) → parse name ≡ some v → as_str v ≡ name
unfolding parse
as_str-parse name v h = find-as_str name v all h
