-- ===== src/Pipeline/Sniff/Items.antt =====
-- The primary item of a HEIC and the property that is associated with it.
use whirl.Prelude.{
  ℕ, zero, suc, ◌+◌, ◌*◌, ◌%◌, ◌^◌, List, Bool, false, not, Option, none, some, Text, codes, leb,
  ◌==◌, get_elem?, if◌then◌else◌,
}
use whirl.Pipeline.Sniff.{be16, be32}
use whirl.Pipeline.Sniff.Boxes.{BoxHeader, get_range, is_kind}

infixl 5 ◌>>=◌
abbrev ◌>>=◌ {ℓ κ} : {A : Type ℓ} {B : Type κ} → Option A → (A → Option B) → Option B
none >>= f = none
some a >>= f = f a

abbrev pub be32_at : Text → ℕ → Option ℕ
unfolding get_range be32
be32_at bytes at = do field ← get_range bytes at 4; be32 field

abbrev pub be16_at : Text → ℕ → Option ℕ
be16_at bytes at = do hi ← get_elem? bytes at; lo ← get_elem? bytes (at + 1); some (be16 hi lo)

unfoldable pub primary_item : Text → BoxHeader → Option ℕ
primary_item bytes pitm = do
  version ← get_elem? bytes pitm.payload
  if leb 1 version then be32_at bytes (pitm.payload + 4) else be16_at bytes (pitm.payload + 4)

-- `properties.get(property.checked_sub(1)?)`.
unfoldable pub property_at : List BoxHeader → ℕ → Option BoxHeader
property_at properties zero = none
property_at properties (suc index) = get_elem? properties index

unfoldable pub names_ispe : Option BoxHeader → Bool
unfolding is_kind
names_ispe none = false
names_ispe (some found) = is_kind (codes "ispe") found

unfoldable pub raw_index : Text → Bool → ℕ → Option ℕ
raw_index bytes wide start =
    if wide
    then (be16_at bytes start >>= λ raw. some (raw % 2 ^ 15))
    else (get_elem? bytes start >>= λ raw. some (raw % 2 ^ 7))

-- `for index in 0..associations`, with the associations that are left.
unfoldable pub named_property : ℕ → Text → List BoxHeader → Bool → ℕ → Option ℕ
unfolding raw_index property_at names_ispe
named_property zero bytes properties wide start = none
named_property (suc left) bytes properties wide start =
    let rest = named_property left bytes properties wide (start + (if wide then 2 else 1)) in
    elim (raw_index bytes wide start) [
      | none ↦ none
      | some property ↦ if names_ispe (property_at properties property) then some property else rest
    ]

-- `for _ in 0..entries`, with the entries that are left.
unfoldable pub entries_from : ℕ → Text → List BoxHeader → Bool → Bool → ℕ → ℕ → Option ℕ
unfolding named_property
entries_from zero bytes properties wide long item at = none
entries_from (suc left) bytes properties wide long item at = do
  listed ← (if long then be32_at bytes at else be16_at bytes at)
  let past = at + (if long then 4 else 2)
  associations ← get_elem? bytes past
  if not (listed == item)
      then entries_from left bytes properties wide long item
          (past + 1 + associations * (if wide then 2 else 1))
      else named_property associations bytes properties wide (past + 1)

unfoldable pub primary_property : Text → BoxHeader → List BoxHeader → ℕ → Option ℕ
unfolding entries_from
primary_property bytes ipma properties item = do
  version ← get_elem? bytes ipma.payload
  flags ← get_elem? bytes (ipma.payload + 3)
  entries ← be32_at bytes (ipma.payload + 4)
  entries_from entries bytes properties (flags % 2 == 1) (leb 1 version) item (ipma.payload + 4 + 4)
