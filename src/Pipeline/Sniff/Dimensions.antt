-- ===== src/Pipeline/Sniff/Dimensions.antt =====
-- The dimensions of a HEIC are read from boxes that end within the bytes.
use whirl.Prelude.{
  ℕ, zero, suc, ◌+◌, ◌*◌, ◌^◌, ◌≤◌, ◌<◌, List, [], ◌∷◌, not, Option, none, some, Text, codes, ltb,
  leb, All, length, min, get_elem?, Bool-cases, inl, inr, arith,
}
use whirl.Pipeline.Sniff.{is_heic}
use whirl.Pipeline.Sniff.Ends.{
  Ends, ends, Any, IsByte, Word, be32-Word, OptionFits, Ends-bind, Ends-map, if-Ends, next_slice,
  is_heic-Ends,
}
use whirl.Pipeline.Sniff.Boxes.{BoxHeader, boxes, is_kind, find_box, size_of, ispe_size}
use whirl.Pipeline.Sniff.Nesting.{Chain, boxes-Chain}
use whirl.Pipeline.Sniff.Items.{property_at}
use whirl.Pipeline.Sniff.Heic.{
  larger, largest_from, largest_ispe, children, item_of, property_of, owned_at, size_in,
  heic_header, or_largest, measure_primary, measure_meta, sniff_heic,
}

abbrev SizeFits : Option (ℕ × ℕ) → Type 0
SizeFits none = Unit
SizeFits (some (width, height)) = (width < 2 ^ 32) × (height < 2 ^ 32)

abbrev Within : Text → BoxHeader → Type 0
Within bytes b = b.end ≤ length bytes

abbrev FoundWithin : Text → Option BoxHeader → Type 0
FoundWithin bytes none = Unit
FoundWithin bytes (some b) = Within bytes b

Chain-Within :
    (bytes : Text) (at end : ℕ) (found : List BoxHeader)
    → end ≤ length bytes
    → Chain at end found
    → All (Within bytes) found
Chain-Within bytes at end [] h chain = tt
Chain-Within bytes at end (b ∷ found) h (head, fits, under, small, chain) =
    (omega arith, Chain-Within bytes b.end end found h chain)

find_box-Within :
    (bytes kind : Text) (found : List BoxHeader)
    → All (Within bytes) found
    → FoundWithin bytes (find_box kind found)
unfolding find_box
find_box-Within bytes kind [] h = tt
find_box-Within bytes kind (b ∷ found) h = elim (Bool-cases (is_kind kind b)) [
  | inl e ↦ rw (e, find_box) h.0
  | inr e ↦ rw (e, find_box) (find_box-Within bytes kind found h.1)
]

get_elem?-Within :
    (bytes : Text) (index : ℕ) (found : List BoxHeader)
    → All (Within bytes) found
    → FoundWithin bytes (get_elem? found index)
get_elem?-Within bytes index [] h = tt
get_elem?-Within bytes zero (b ∷ found) h = h.0
get_elem?-Within bytes (suc index) (b ∷ found) h = get_elem?-Within bytes index found h.1

owned_at-Within :
    (bytes : Text) (owned : List BoxHeader) (property : Option ℕ)
    → All (Within bytes) owned
    → FoundWithin bytes (owned_at owned property)
unfolding owned_at property_at
owned_at-Within bytes owned none h = tt
owned_at-Within bytes owned (some zero) h = tt
owned_at-Within bytes owned (some (suc index)) h = get_elem?-Within bytes index owned h

size_of-Fits :
    (width height : Option ℕ) → Word width → Word height → SizeFits (size_of width height)
unfolding size_of
size_of-Fits (some w) (some h) hw hh = (hw, hh)
size_of-Fits (some w) none hw hh = tt
size_of-Fits none height hw hh = tt

larger-Fits :
    (best size : Option (ℕ × ℕ)) → SizeFits best → SizeFits size → SizeFits (larger best size)
unfolding larger
larger-Fits none none hb hs = tt
larger-Fits (some best) none hb hs = hb
larger-Fits none (some size) hb hs = hs
larger-Fits (some (w, h)) (some (width, height)) hb hs =
    elim (Bool-cases (leb (w * h) (width * height))) [
      | inl e ↦ rw (e, larger) hs
      | inr e ↦ rw (e, larger) hb
    ]

heic_header-Fits : (size : Option (ℕ × ℕ)) → SizeFits size → OptionFits (heic_header size)
unfolding heic_header
heic_header-Fits none h = tt
heic_header-Fits (some (width, height)) h = h

module _ (bytes : Text) (all : All IsByte bytes) where
  boxes-Within : (from to : ℕ) → Ends (All (Within bytes)) (boxes bytes from to)
  boxes-Within from to =
      Ends-map (Chain from (min to (length bytes))) (All (Within bytes)) (boxes bytes from to)
        (λ found chain. Chain-Within bytes from (min to (length bytes)) found (omega arith) chain)
        (boxes-Chain bytes from to all)

  ispe_size-Ends : (b : BoxHeader) → Within bytes b → Ends SizeFits (ispe_size bytes b)
  unfolding ispe_size
  ispe_size-Ends b h =
      if-Ends SizeFits (ltb b.end (b.payload + 4 + 8)) _ _ (λ e. ends none tt)
        λ e. next_slice bytes all SizeFits (b.payload + 4) 4 _ (ground arith) λ width b1.
          next_slice bytes all SizeFits (b.payload + 4 + 4) 4 _ (ground arith)
            λ height b2. ends _ (size_of-Fits _ _ (be32-Word width b1) (be32-Word height b2))

  largest_from-Ends :
      (best : Option (ℕ × ℕ)) (properties : List BoxHeader)
      → SizeFits best
      → All (Within bytes) properties
      → Ends SizeFits (largest_from bytes best properties)
  unfolding largest_from
  largest_from-Ends best [] hb h = ends best hb
  largest_from-Ends best (b ∷ properties) hb h = elim (Bool-cases (is_kind (codes "ispe") b)) [
    | inr e ↦ rw (e, largest_from) (largest_from-Ends best properties hb h.1)
    | inl e ↦
        rw (e, largest_from)
          (Ends-bind SizeFits SizeFits (ispe_size bytes b) _ (ispe_size-Ends b h.0) λ size hs.
            largest_from-Ends (larger best size) properties (larger-Fits best size hb hs) h.1)
  ]

  children-Within : (b : Option BoxHeader) → Ends (All (Within bytes)) (children bytes b)
  unfolding children
  children-Within none = ends [] tt
  children-Within (some b) = boxes-Within b.payload b.end

  size_in-Ends : (b : Option BoxHeader) → FoundWithin bytes b → Ends SizeFits (size_in bytes b)
  unfolding size_in
  size_in-Ends none h = ends none tt
  size_in-Ends (some b) h =
      if-Ends SizeFits (is_kind (codes "ispe") b) _ _ (λ e. ispe_size-Ends b h) λ e. ends none tt

  or_largest-Ends :
      (owned : List BoxHeader) (size : Option (ℕ × ℕ))
      → All (Within bytes) owned
      → SizeFits size
      → Ends OptionFits (or_largest bytes owned size)
  unfolding or_largest largest_ispe
  or_largest-Ends owned (some size) h hs = ends _ (heic_header-Fits (some size) hs)
  or_largest-Ends owned none h hs =
      Ends-bind SizeFits OptionFits (largest_ispe bytes owned) _ (largest_from-Ends none owned tt h)
        λ size hz. ends _ (heic_header-Fits size hz)

  measure_primary-Ends :
      (inside : List BoxHeader) (iprp : Option BoxHeader)
      → Ends OptionFits (measure_primary bytes inside iprp)
  unfolding measure_primary
  measure_primary-Ends inside none = ends none tt
  measure_primary-Ends inside (some iprp) =
      Ends-bind (All (Within bytes)) OptionFits (boxes bytes iprp.payload iprp.end) _
        (boxes-Within iprp.payload iprp.end)
        λ sections hs.
          Ends-bind (All (Within bytes)) OptionFits
            (children bytes (find_box (codes "ipco") sections)) _
            (children-Within (find_box (codes "ipco") sections))
            λ owned ho.
              let property =
                property_of bytes (find_box (codes "ipma") sections) owned
                  (item_of bytes (find_box (codes "pitm") inside)) in
              Ends-bind SizeFits OptionFits (size_in bytes (owned_at owned property)) _
                (size_in-Ends _ (owned_at-Within bytes owned property ho))
                λ size hz. or_largest-Ends owned size ho hz

  measure_meta-Ends : (meta : Option BoxHeader) → Ends OptionFits (measure_meta bytes meta)
  unfolding measure_meta
  measure_meta-Ends none = ends none tt
  measure_meta-Ends (some meta) =
      Ends-bind (All (Within bytes)) OptionFits (boxes bytes (meta.payload + 4) meta.end) _
        (boxes-Within (meta.payload + 4) meta.end)
        λ inside h. measure_primary-Ends inside (find_box (codes "iprp") inside)

  pub sniff_heic-Ends : Ends OptionFits (sniff_heic bytes)
  unfolding sniff_heic
  sniff_heic-Ends = Ends-bind Any OptionFits (is_heic bytes) _ (is_heic-Ends bytes all) λ branded u.
      if-Ends OptionFits (not branded) _ _ (λ e. ends none tt)
        λ e.
          Ends-bind (All (Within bytes)) OptionFits (boxes bytes 0 (length bytes)) _
            (boxes-Within 0 (length bytes))
            λ found h. measure_meta-Ends (find_box (codes "meta") found)
