-- ===== src/Cache/Record/Names.antt =====
-- The extension of a reported path and the source of an origin key, as what they are parts of.
use whirl.Prelude.{
  ◌≤◌, ◌<◌, ◌≡◌, ◌≢◌, refl, ap, [], ◌∷◌, ◌++◌, Option, none, some, Text, text_eq, text_eq_iff,
  false, length, Lacks, Bool-cases, inl, inr, arith,
}
use whirl.Cache.Measure.{file_name}
use whirl.Cache.Record.{after_dot, extension, source_of}

file_name-Lacks : (name s : Text) → Lacks b'/' s → file_name name s ≡ name
unfolding file_name
file_name-Lacks name [] h = refl
file_name-Lacks name (b ∷ s) h = ground (arith, h.0, file_name-Lacks name s h.1)

file_name-append :
    (front old name : Text) → Lacks b'/' name → file_name old (front ++ b'/' ∷ name) ≡ name
unfolding file_name
file_name-append [] old name h = file_name-Lacks name name h
file_name-append (b ∷ front) old name h = file_name-append front _ name h

after_dot-Lacks :
    (s : Text) (found : Option Text) (name : Text) → Lacks b'.' s → after_dot s found name ≡ found
unfolding after_dot
after_dot-Lacks [] found name h = refl
after_dot-Lacks (b ∷ s) found name h = ground (arith, h.0, after_dot-Lacks s found name h.1)

shorter_differs : (s t : Text) → length s < length t → text_eq s t ≡ false
shorter_differs s t h = elim (Bool-cases (text_eq s t)) [
  | inl same ↦ absurd (omega (arith, ap length ((text_eq_iff s t).0 same)))
  | inr other ↦ other
]

after_dot-append :
    (front ext : Text) (found : Option Text) (name : Text)
    → Lacks b'.' ext
    → length (b'.' ∷ ext) < length name
    → after_dot (front ++ b'.' ∷ ext) found name ≡ some ext
unfolding after_dot
after_dot-append [] ext found name h k =
    rw (after_dot, shorter_differs (b'.' ∷ ext) name k) (after_dot-Lacks ext (some ext) name h)
after_dot-append (b ∷ front) ext found name h k = after_dot-append front ext _ name h k

length-append_le : (front rest : Text) → length rest ≤ length (front ++ rest)
length-append_le [] rest = omega arith
length-append_le (b ∷ front) rest = omega (arith, length-append_le front rest)

length-longer : (front rest : Text) → front ≢ [] → length rest < length (front ++ rest)
length-longer [] rest h = absurd (h refl)
length-longer (b ∷ front) rest h = omega (arith, length-append_le front rest)

-- The text behind the last dot of the last component, where something stands before that dot.
pub extension-append :
    (front stem ext : Text)
    → stem ≢ []
    → Lacks b'/' (stem ++ b'.' ∷ ext)
    → Lacks b'.' ext
    → extension (front ++ b'/' ∷ (stem ++ b'.' ∷ ext)) ≡ ext
unfolding extension
extension-append front stem ext filled h k =
    rw
      (
        extension,
        file_name-append front (front ++ b'/' ∷ (stem ++ b'.' ∷ ext)) (stem ++ b'.' ∷ ext) h,
        after_dot-append stem ext none (stem ++ b'.' ∷ ext) k
            (length-longer stem (b'.' ∷ ext) filled),
      )
      refl

-- A last component without a dot has no extension.
pub extension_of_none :
    (front name : Text) → Lacks b'/' name → Lacks b'.' name → extension (front ++ b'/' ∷ name) ≡ []
unfolding extension
extension_of_none front name h k =
    rw
      (
        extension,
        file_name-append front (front ++ b'/' ∷ name) name h,
        after_dot-Lacks name none name k,
      )
      refl

-- The text before the first colon.
pub source_of-append :
    (source rest : Text) → Lacks b':' source → source_of (source ++ b':' ∷ rest) ≡ source
unfolding source_of
source_of-append [] rest h = refl
source_of-append (b ∷ source) rest h = ground (arith, h.0, source_of-append source rest h.1)
