-- ===== src/Protocol/Record/Worker.antt =====
-- `parse_worker_set_line` and `parse_worker_prefetch_line`: the worker's two lines on its output.
use whirl.Prelude.{
  ◌≡◌, ◌≢◌, refl, List, [], ◌∷◌, ◌++◌, Option, none, some, Text, Bool, true, false, ◌&&◌, not,
  codes, if◌then◌else◌, Lacks, Option-cases, inl, inr, arith, subst, ◌↔◌, all,
}
use whirl.Sha256.Digest.{is_digest, is_hex_byte}
use whirl.Strings.Split.{split_once, splitn, splitn-append, split_once-eq-some}
use whirl.Strings.Strip.{strip_prefix, strip_prefix-append, strip_prefix-eq-some}

unfoldable pub is_empty : Text → Bool
is_empty [] = true
is_empty (c ∷ s) = false

unfoldable pub worker_fields : List Text → Option (Text × Text × Text)
unfolding is_empty
worker_fields (digest ∷ origin_key ∷ path ∷ more) =
    if is_digest digest && not (is_empty origin_key) && not (is_empty path)
    then some (digest, origin_key, path)
    else none
worker_fields _ = none

unfoldable pub worker_line : Text → Text → Option (Text × Text × Text)
unfolding worker_fields splitn
worker_line word line = elim (strip_prefix word line) [
  | none ↦ none
  | some rest ↦ worker_fields (splitn b' ' 3 rest)
]

unfoldable pub parse_worker_set_line : Text → Option (Text × Text × Text)
unfolding worker_line
parse_worker_set_line line = worker_line (codes "set: ") line

unfoldable pub parse_worker_prefetch_line : Text → Option (Text × Text × Text)
unfolding worker_line
parse_worker_prefetch_line line = worker_line (codes "prefetch: ") line

-- What a worker's line says: a digest, an origin key with no space in it, and a path.
pub record IsReport (digest origin_key path : Text) : Type 0 where
  pub is_digest_field : is_digest digest ≡ true
  pub filled_key : origin_key ≢ []
  pub spaceless_key : Lacks b' ' origin_key
  pub filled_path : path ≢ []

is_hex-Lacks_space : (s : Text) → all is_hex_byte s ≡ true → Lacks b' ' s
unfolding is_hex_byte
is_hex-Lacks_space [] h = tt
is_hex-Lacks_space (c ∷ s) h = ground (arith, is_hex-Lacks_space s)

is_digest-Lacks_space : (s : Text) → is_digest s ≡ true → Lacks b' ' s
unfolding is_digest
is_digest-Lacks_space s h = is_hex-Lacks_space s (ground arith)

worker_fields-eq_some :
    (digest origin_key path : Text)
    → IsReport digest origin_key path
    → worker_fields (digest ∷ origin_key ∷ path ∷ []) ≡ some (digest, origin_key, path)
unfolding worker_fields
worker_fields-eq_some digest [] path h = absurd (h.filled_key refl)
worker_fields-eq_some digest (c ∷ origin_key) [] h = absurd (h.filled_path refl)
worker_fields-eq_some digest (c ∷ origin_key) (d ∷ path) h = rw h.is_digest_field

worker_fields-IsReport :
    (a b c : Text) (t : Text × Text × Text)
    → Lacks b' ' b
    → worker_fields (a ∷ b ∷ c ∷ []) ≡ some t
    → IsReport a b c × (◌≡◌ {A = Text × Text × Text} (a, b, c) t)
unfolding worker_fields
worker_fields-IsReport a [] c t l h = absurd (ground arith)
worker_fields-IsReport a (x ∷ b) [] t l h = absurd (ground arith)
worker_fields-IsReport a (x ∷ b) (y ∷ c) t l h = (
  record {
    is_digest_field = ground arith;
    filled_key = ground arith;
    spaceless_key = l;
    filled_path = ground arith;
  },
  ground arith,
)

-- A report, and the text that it was read from.
abbrev Reports : Text → Text × Text × Text → Type 0
Reports rest t = IsReport t.0 t.1 t.2 × (rest ≡ t.0 ++ b' ' ∷ (t.1 ++ b' ' ∷ t.2))

worker_fields-Reports :
    (rest : Text) (t : Text × Text × Text)
    → worker_fields (splitn b' ' 3 rest) ≡ some t
    → Reports rest t
unfolding splitn worker_fields
worker_fields-Reports rest t h = elim (Option-cases (split_once b' ' rest)) [
  | inl e ↦ let none_eq : none ≡ some t = rw (e, splitn) at h in cc
  | inr ((a, tail), e) ↦ elim (Option-cases (split_once b' ' tail)) [
    | inl f ↦ let none_eq : none ≡ some t = rw (e, f, splitn) at h in cc
    | inr ((b, c), f) ↦
        let (e', l) = split_once-eq-some b' ' rest a tail e in
        let (f', k) = split_once-eq-some b' ' tail b c f in
        let (r, p) = worker_fields-IsReport a b c t k (rw (e, f, splitn) at h) in
        subst (Reports rest) p (r, cc (e', f'))
  ]
]

worker_fields_of-Reports :
    (rest : Text) (t : Text × Text × Text)
    → Reports rest t
    → worker_fields (splitn b' ' 3 rest) ≡ some t
unfolding splitn
worker_fields_of-Reports rest t (r, e) =
    rw
      (
        e,
        splitn-append b' ' 1 t.0 (t.1 ++ b' ' ∷ t.2) (is_digest-Lacks_space t.0 r.is_digest_field),
        splitn-append b' ' 0 t.1 t.2 r.spaceless_key,
      )
      (worker_fields-eq_some t.0 t.1 t.2 r)

worker_line_iff :
    (word line : Text) (t : Text × Text × Text)
    → (worker_line word line ≡ some t)
      ↔ (IsReport t.0 t.1 t.2 × (line ≡ word ++ (t.0 ++ b' ' ∷ (t.1 ++ b' ' ∷ t.2))))
unfolding worker_line
worker_line_iff word line t = (
  λ h. elim (Option-cases (strip_prefix word line)) [
    | inl e ↦ let none_eq : none ≡ some t = rw (e, worker_line) at h in cc
    | inr (rest, e) ↦
        let (r, p) = worker_fields-Reports rest t (rw (e, worker_line) at h) in
        (r, cc (strip_prefix-eq-some word line rest e, p))
  ],
  λ h.
      rw (h.1, worker_line, strip_prefix-append word (t.0 ++ b' ' ∷ (t.1 ++ b' ' ∷ t.2)))
        (worker_fields_of-Reports (t.0 ++ b' ' ∷ (t.1 ++ b' ' ∷ t.2)) t (h.0, refl)),
)

-- The worker's `set:` line is read as a digest, an origin key and a path exactly where it is the word,
-- a digest, a space, an origin key that is not empty and holds no space, a space, and a path that is
-- not empty.
parse_worker_set_line_iff :
    (line : Text) (t : Text × Text × Text)
    → (parse_worker_set_line line ≡ some t)
      ↔ (IsReport t.0 t.1 t.2 × (line ≡ codes "set: " ++ (t.0 ++ b' ' ∷ (t.1 ++ b' ' ∷ t.2))))
unfolding parse_worker_set_line
parse_worker_set_line_iff line t = worker_line_iff (codes "set: ") line t
