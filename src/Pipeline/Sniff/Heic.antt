-- ===== src/Pipeline/Sniff/Heic.antt =====
-- `sniff_heic`: the dimensions of the primary item, or else the largest `ispe`.
use whirl.Prelude.{
  ℕ, ◌+◌, ◌*◌, List, [], ◌∷◌, true, false, not, Option, none, some, Text, codes, leb, length,
  if◌then◌else◌,
}
use whirl.Pipeline.Sniff.{Run, done, ◌>>=◌, Header, header, is_heic}
use whirl.Pipeline.Sniff.Boxes.{BoxHeader, boxes, is_kind, find_box, ispe_size}
use whirl.Pipeline.Sniff.Items.{primary_item, primary_property, property_at}

-- `max_by_key`: of several with the largest area, the last.
unfoldable pub larger : Option (ℕ × ℕ) → Option (ℕ × ℕ) → Option (ℕ × ℕ)
larger best none = best
larger none (some size) = some size
larger (some (w, h)) (some (width, height)) =
    if leb (w * h) (width * height) then some (width, height) else some (w, h)

unfoldable pub largest_from : Text → Option (ℕ × ℕ) → List BoxHeader → Run (Option (ℕ × ℕ))
unfolding larger
largest_from bytes best [] = done best
largest_from bytes best (b ∷ properties) = elim (is_kind (codes "ispe") b) [
  | false ↦ largest_from bytes best properties
  | true ↦ ispe_size bytes b >>= λ size. largest_from bytes (larger best size) properties
]

unfoldable pub largest_ispe : Text → List BoxHeader → Run (Option (ℕ × ℕ))
unfolding largest_from
largest_ispe bytes properties = largest_from bytes none properties

unfoldable pub children : Text → Option BoxHeader → Run (List BoxHeader)
children bytes none = done []
children bytes (some b) = boxes bytes b.payload b.end

unfoldable pub item_of : Text → Option BoxHeader → Option ℕ
item_of bytes none = none
item_of bytes (some pitm) = primary_item bytes pitm

unfoldable pub property_of : Text → Option BoxHeader → List BoxHeader → Option ℕ → Option ℕ
property_of bytes (some ipma) owned (some item) = primary_property bytes ipma owned item
property_of bytes _ owned _ = none

unfoldable pub owned_at : List BoxHeader → Option ℕ → Option BoxHeader
unfolding property_at
owned_at owned none = none
owned_at owned (some index) = property_at owned index

unfoldable pub size_in : Text → Option BoxHeader → Run (Option (ℕ × ℕ))
size_in bytes none = done none
size_in bytes (some found) =
    if is_kind (codes "ispe") found then ispe_size bytes found else done none

unfoldable pub heic_header : Option (ℕ × ℕ) → Option Header
heic_header none = none
heic_header (some (width, height)) = some (header (codes "heic") width height)

unfoldable pub or_largest : Text → List BoxHeader → Option (ℕ × ℕ) → Run (Option Header)
unfolding largest_ispe heic_header
or_largest bytes owned (some size) = done (heic_header (some size))
or_largest bytes owned none = largest_ispe bytes owned >>= λ size. done (heic_header size)

-- With the children of `meta` read and its `iprp` found.
unfoldable pub measure_primary : Text → List BoxHeader → Option BoxHeader → Run (Option Header)
unfolding find_box children item_of property_of owned_at size_in or_largest
measure_primary bytes inside none = done none
measure_primary bytes inside (some iprp) = do
  let item = item_of bytes (find_box (codes "pitm") inside)
  sections ← boxes bytes iprp.payload iprp.end
  owned ← children bytes (find_box (codes "ipco") sections)
  let property = property_of bytes (find_box (codes "ipma") sections) owned item
  associated ← size_in bytes (owned_at owned property)
  or_largest bytes owned associated

unfoldable pub measure_meta : Text → Option BoxHeader → Run (Option Header)
unfolding find_box measure_primary
measure_meta bytes none = done none
measure_meta bytes (some meta) = do
  inside ← boxes bytes (meta.payload + 4) meta.end
  measure_primary bytes inside (find_box (codes "iprp") inside)

unfoldable pub sniff_heic : Text → Run (Option Header)
unfolding is_heic find_box measure_meta
sniff_heic bytes = do
  branded ← is_heic bytes
  if not branded then done none else do
    found ← boxes bytes 0 (length bytes)
    measure_meta bytes (find_box (codes "meta") found)
