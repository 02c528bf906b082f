-- ===== src/StateFile/Index/Order.antt =====
-- The entries of a map in the order of their keys are inserted one behind the other.
use whirl.Prelude.{◌≡◌, refl, [], ◌∷◌, ◌++◌, true, false, Text, text_eq, All, arith}
use whirl.Map.{Map, text_ltb, insert}

module _ {V : Type 0} where
  abbrev pub IsAfter : Text → Text × V → Type 0
  IsAfter k p = text_ltb k p.0 ≡ true

  abbrev pub IsBefore : Text → Text × V → Type 0
  IsBefore k p = text_ltb p.0 k ≡ true

  -- Each key is smaller than the keys behind it.
  abbrev pub IsAscending : Map V → Type 0
  IsAscending [] = Unit
  IsAscending ((k, v) ∷ m) = All (IsAfter k) m × IsAscending m

  -- Every key of `before` is smaller than every key of `m`.
  abbrev pub AllBefore : Map V → Map V → Type 0
  AllBefore before m = All (λ p. All (IsBefore p.0) before) m

text_ltb_differs : (s t : Text) → text_ltb s t ≡ true → text_eq s t ≡ false
unfolding text_ltb text_eq
text_ltb_differs s [] h = absurd cc
text_ltb_differs [] (b ∷ t) h = refl
text_ltb_differs (a ∷ s) (b ∷ t) h = ground (arith, text_ltb_differs s t)

pub text_ltb_differs_back : (s t : Text) → text_ltb s t ≡ true → text_eq t s ≡ false
unfolding text_ltb text_eq
text_ltb_differs_back s [] h = absurd cc
text_ltb_differs_back [] (b ∷ t) h = refl
text_ltb_differs_back (a ∷ s) (b ∷ t) h = ground (arith, text_ltb_differs_back s t)

text_ltb_not_back : (s t : Text) → text_ltb s t ≡ true → text_ltb t s ≡ false
unfolding text_ltb
text_ltb_not_back s [] h = absurd cc
text_ltb_not_back [] (b ∷ t) h = refl
text_ltb_not_back (a ∷ s) (b ∷ t) h = ground (arith, text_ltb_not_back s t)

module _ {V : Type 0} where
  pub insert_last :
      (k : Text) (v : V) (m : Map V) → All (IsBefore k) m → insert k v m ≡ m ++ (k, v) ∷ []
  unfolding insert
  insert_last k v [] h = refl
  insert_last k v ((j, w) ∷ m) h =
      rw (text_ltb_differs j k h.0, text_ltb_not_back j k h.0, insert_last k v m h.1) refl

  All-append : (P : Text × V → Type 0) (m n : Map V) → All P m → All P n → All P (m ++ n)
  All-append P [] n h k = k
  All-append P (p ∷ m) n h k = (h.0, All-append P m n h.1 k)

  pub AllBefore-append :
      (k : Text) (v : V) (before m : Map V)
      → AllBefore before m
      → All (IsAfter k) m
      → AllBefore (before ++ (k, v) ∷ []) m
  AllBefore-append k v before [] h a = tt
  AllBefore-append k v before (p ∷ m) h a = (
    All-append (IsBefore p.0) before ((k, v) ∷ []) h.0 (a.0, tt),
    AllBefore-append k v before m h.1 a.1,
  )
