-- ===== src/Sha256/Stream.antt =====
-- Feeding the hasher in pieces: `update` against a hasher that takes one byte at a time.
use whirl.Prelude.{
  ℕ, ◌+◌, ◌-◌, ◌%◌, ◌^◌, ◌<◌, ◌≤◌, min, ◌≡◌, refl, sym, ap, subst, ◌∙◌, ◌⊎◌, inl, inr, [], ◌∷◌,
  ◌++◌, append-nil, append_assoc, false, Text, ◌==◌, Bool-cases, if◌then◌else◌, length, take, drop,
  length-append, length-take, drop_of_length-le, take-append-drop, arith,
}
use whirl.Sha256.{Sha256, chunks_exact, compress_all, top_up, update}
use whirl.Sha256.Compress.{Words, compress}

-- One byte at a time: a block is compressed when its last byte arrives.
unfoldable pub feed : Words × Text → Text → Words × Text
feed (state, pending) [] = (state, pending)
feed (state, pending) (b ∷ rest) =
    let block = pending ++ b ∷ [] in
    feed (if length block == 64 then (compress state block, []) else (state, block)) rest

feed-append : (s : Words × Text) (xs ys : Text) → feed s (xs ++ ys) ≡ feed (feed s xs) ys
unfolding feed
feed-append (state, pending) [] ys = refl
feed-append (state, pending) (b ∷ xs) ys =
    feed-append
      (if length (pending ++ b ∷ []) == 64
        then (compress state (pending ++ b ∷ []), [])
        else (state, pending ++ b ∷ []))
      xs ys

-- The remainder of a cut is shorter than a block.
chunks_exact-remainder-lt : (cut xs : Text) → length cut < 64 → length (chunks_exact cut xs).1 < 64
unfolding chunks_exact
chunks_exact-remainder-lt cut [] h = h
chunks_exact-remainder-lt cut (b ∷ xs) h = elim (Bool-cases (length (cut ++ b ∷ []) == 64)) [
  | inl full ↦ rw (full, chunks_exact) (chunks_exact-remainder-lt [] xs (omega arith))
  | inr short ↦
      rw (short, chunks_exact)
        (chunks_exact-remainder-lt (cut ++ b ∷ []) xs (ground (arith, length-append cut (b ∷ []))))
]

feed-chunks_exact :
    (state : Words) (cut xs : Text)
    → feed (state, cut) xs ≡ (compress_all state (chunks_exact cut xs).0, (chunks_exact cut xs).1)
unfolding feed chunks_exact compress_all
feed-chunks_exact state cut [] = refl
feed-chunks_exact state cut (b ∷ xs) = elim (Bool-cases (length (cut ++ b ∷ []) == 64)) [
  | inl full ↦ rw (full, chunks_exact) (feed-chunks_exact (compress state (cut ++ b ∷ [])) [] xs)
  | inr short ↦ rw (short, chunks_exact) (feed-chunks_exact state (cut ++ b ∷ []) xs)
]

-- Bytes that do not complete a block are held back; bytes that complete it compress it.
feed-fill :
    (state : Words) (pending xs : Text)
    → length pending < 64
    → length pending + length xs ≤ 64
    → feed (state, pending) xs ≡ (
        if length (pending ++ xs) == 64
        then (compress state (pending ++ xs), [])
        else (state, pending ++ xs))
unfolding feed
feed-fill state pending [] short room =
    let more : (length pending == 64) ≡ false = ground arith in rw (append-nil pending, more)
feed-fill state pending (b ∷ []) short room = refl
feed-fill state pending (b ∷ c ∷ xs) short room =
    let held = length-append pending (b ∷ []) in
    let more : (length (pending ++ b ∷ []) == 64) ≡ false = ground (arith, held) in
    rw more (
      rw (append_assoc pending (b ∷ []) (c ∷ xs)) at
        (feed-fill state (pending ++ b ∷ []) (c ∷ xs) (omega arith) (omega arith)))

-- What `top_up` leaves: the same bytes fed, and nothing left over while a block is incomplete.
top_up-feed :
    (state : Words) (pending xs : Text)
    → length pending < 64
    → let (s, rest) = top_up state pending xs in
      (feed (state, pending) xs ≡ feed s rest) × ((s.1 ≡ []) ⊎ (rest ≡ [])) × (length s.1 < 64)
unfolding top_up
top_up-feed state [] xs h = (refl, inl refl, h)
top_up-feed state (p ∷ ps) xs h = elim (Bool-cases (length (pending ++ first) == 64)) [
  | inl full ↦ rw full (rw full at fed, inl refl, omega arith)
  | inr short ↦ rw short (
    rw short at fed,
    inr (drop_of_length-le taken xs (ground (arith, held, length-take taken xs))),
    ground (arith, held, length-take taken xs),
  )
]
  where
    pending : Text
    pending = p ∷ ps

    taken : ℕ
    taken = min (64 - length pending) (length xs)

    first : Text
    first = take taken xs

    held : length (pending ++ first) ≡ length pending + length first
    held = length-append pending first

    fed :
        feed (state, pending) xs
        ≡ feed
            (if length (pending ++ first) == 64
              then (compress state (pending ++ first), [])
              else (state, pending ++ first))
            (drop taken xs)
    fed =
        ap (feed (state, pending)) (sym (take-append-drop taken xs))
        ∙ feed-append (state, pending) first (drop taken xs)
        ∙ ap (λ s. feed s (drop taken xs))
            (feed-fill state pending first h (omega (arith, length-take taken xs)))

feed-whole_blocks :
    (state : Words) (pending rest : Text)
    → (pending ≡ []) ⊎ (rest ≡ [])
    → (compress_all state (chunks_exact [] rest).0, pending ++ (chunks_exact [] rest).1)
      ≡ feed (state, pending) rest
feed-whole_blocks state pending rest (inl e) = rw e (sym (feed-chunks_exact state [] rest))
feed-whole_blocks state pending rest (inr e) =
    rw e (unfold chunks_exact compress_all feed in ap (λ p. (state, p)) (append-nil pending))

abbrev pub IsValid : Sha256 → Type 0
IsValid h = length h.pending < 64

-- `update` feeds the data byte by byte.
update-feed :
    (h : Sha256) (data' : Text)
    → IsValid h
    → ((update h data').state, (update h data').pending) ≡ feed (h.state, h.pending) data'
unfolding update
update-feed h data' v =
    let (same, empty, _) = top_up-feed h.state h.pending data' v in
    feed-whole_blocks _ _ _ empty ∙ sym same

feed-pending-lt : (s : Words × Text) (xs : Text) → length s.1 < 64 → length (feed s xs).1 < 64
feed-pending-lt (state, pending) xs h =
    rw (feed-chunks_exact state pending xs) (chunks_exact-remainder-lt pending xs h)

pub update-IsValid : (h : Sha256) (data' : Text) → IsValid h → IsValid (update h data')
update-IsValid h data' v =
    subst (λ s. length s.1 < 64) (sym (update-feed h data' v))
      (feed-pending-lt (h.state, h.pending) data' v)

hasher-eq :
    (g h : Sha256)
    → ◌≡◌ {A = Words × Text} (g.state, g.pending) (h.state, h.pending)
    → g.length ≡ h.length
    → g ≡ h
hasher-eq g h p q = λ i. record { state = (p i).0; pending = (p i).1; length = q i }

length-update :
    (h : Sha256) (data' : Text) → (update h data').length ≡ (h.length + length data') % 2 ^ 64
unfolding update
length-update h data' = refl

-- Two updates are one update by the data joined, whatever the blocks that the cut falls in, from any
-- hasher that holds back less than a block.
pub update-append :
    (h : Sha256) (first second : Text)
    → IsValid h
    → update (update h first) second ≡ update h (first ++ second)
update-append h first second v =
    hasher-eq _ _
      (update-feed (update h first) second (update-IsValid h first v)
        ∙ ap (λ s. feed s second) (update-feed h first v)
        ∙ sym (feed-append (h.state, h.pending) first second)
        ∙ sym (update-feed h (first ++ second) v))
      (omega (
        arith,
        length-update (update h first) second,
        length-update h first,
        length-update h (first ++ second),
        length-append first second,
      ))
