-- ===== src/Json/Settles.antt =====
-- Readings that end: with a value and no more text than before, or with a refusal, never with a loop
-- that is cut off.
use whirl.Prelude.{
  ℕ, suc, ◌≤◌, ◌<◌, ◌≡◌, ap, subst, [], ◌∷◌, Bool, true, false, none, some, Text, length, ◌==◌,
  if◌then◌else◌, Bool-cases, inl, inr, arith,
}
use whirl.Json.{
  Reason, Cursor, at, Parsed, ok, err, spent, Reader, and_then, ◌>>=◌, done, fail, fail_at, here,
  peek, bump, next_line, is_ws, past_ws, skip_ws, expect,
}

abbrev pub size : Cursor → ℕ
size (at s line) = length s

module _ {A : Type 0} where
  -- A value with at most `n` bytes left, or a refusal.
  pub data Reads (n : ℕ) : Parsed A → Type 0 where
    got : (a : A) (q : Cursor) → size q ≤ n → Reads n (ok a q)
    refuses : (line : ℕ) (why : Reason) (now : ℕ) → Reads n (err line why now)

  -- On less than `k` bytes it ends and leaves no more than there were.
  abbrev pub Keeps : ℕ → Reader A → Type 0
  Keeps k m = (p : Cursor) → size p < k → Reads (size p) (m p)

  -- A value with fewer than `n` bytes left, or a refusal.
  pub data Drops (n : ℕ) : Parsed A → Type 0 where
    dropped : (a : A) (q : Cursor) → size q < n → Drops n (ok a q)
    denies : (line : ℕ) (why : Reason) (now : ℕ) → Drops n (err line why now)

  -- On at most `k` bytes it ends and takes one at least.
  abbrev pub Eats : ℕ → Reader A → Type 0
  Eats k m = (p : Cursor) → size p ≤ k → Drops (size p) (m p)

  pub Drops-Reads : (n : ℕ) (r : Parsed A) → Drops n r → Reads n r
  Drops-Reads n r (dropped a q small) = got a q (omega arith)
  Drops-Reads n r (denies line why now) = refuses line why now

  pub Reads-Drops : (n m : ℕ) (r : Parsed A) → m < n → Reads m r → Drops n r
  Reads-Drops n m r h (got a q small) = dropped a q (omega arith)
  Reads-Drops n m r h (refuses line why now) = denies line why now

  pub Reads-weaken : (n m : ℕ) (r : Parsed A) → n ≤ m → Reads n r → Reads m r
  Reads-weaken n m r h (got a q small) = got a q (omega arith)
  Reads-weaken n m r h (refuses line why now) = refuses line why now

  wider : (n m : ℕ) (r : Parsed A) → m ≤ n → Drops m r → Drops n r
  wider n m r h (dropped a q small) = dropped a q (omega arith)
  wider n m r h (denies line why now) = denies line why now

  abbrev left : Parsed A → ℕ
  left (ok a q) = size q
  left (err line why now) = 0
  left spent = 0

  pub Reads-ok : (n : ℕ) (a : A) (q : Cursor) (r : Parsed A) → r ≡ ok a q → Reads n r → size q ≤ n
  Reads-ok n a q r e (got b p small) = subst (λ c. c ≤ n) (ap left e) small
  Reads-ok n a q r e (refuses line why now) = cc

  pub if-Reads :
      (n : ℕ) (b : Bool) (x y : Reader A) (p : Cursor)
      → Reads n (x p)
      → Reads n (y p)
      → Reads n ((if b then x else y) p)
  if-Reads n true x y p hx hy = hx
  if-Reads n false x y p hx hy = hy

  pub if-Keeps :
      (k : ℕ) (b : Bool) (x y : Reader A) → Keeps k x → Keeps k y → Keeps k (if b then x else y)
  if-Keeps k true x y hx hy = hx
  if-Keeps k false x y hx hy = hy

  pub done-Keeps : (k : ℕ) (a : A) → Keeps k (done a)
  done-Keeps k a p h = got a p (omega arith)

  pub fail-Keeps : (k : ℕ) (why : Reason) → Keeps k (fail {A = A} why)
  fail-Keeps k why (at s line) h = refuses line why line

  pub fail_at-Keeps : (k line : ℕ) (why : Reason) → Keeps k (fail_at {A = A} line why)
  fail_at-Keeps k line why (at s now) h = refuses line why now

  pub Eats-Keeps : (k : ℕ) (m : Reader A) → Eats k m → Keeps (suc k) m
  Eats-Keeps k m h p small = Drops-Reads (size p) (m p) (h p (omega arith))

module _ {A B : Type 0} where
  pub Reads-bind :
      (n k : ℕ) (r : Parsed A) (f : A → Reader B)
      → Reads n r
      → ((a : A) (q : Cursor) → size q ≤ n → Reads k (f a q))
      → Reads k (and_then r f)
  Reads-bind n k r f (got a q small) next = next a q small
  Reads-bind n k r f (refuses line why now) next = refuses line why now

  pub Keeps-bind :
      (k : ℕ) (m : Reader A) (f : A → Reader B)
      → Keeps k m
      → ((a : A) → Keeps k (f a))
      → Keeps k (m >>= f)
  Keeps-bind k m f hm hf p small =
      Reads-bind (size p) (size p) (m p) f (hm p small)
        λ a q less. Reads-weaken (size q) (size p) (f a q) less (hf a q (omega arith))

  after_Drops :
      (k n : ℕ) (r : Parsed A) (f : A → Reader B)
      → n ≤ k
      → Drops n r
      → ((a : A) → Keeps k (f a))
      → Drops n (and_then r f)
  after_Drops k n r f h (dropped a q small) hf =
      Reads-Drops n (size q) (f a q) small (hf a q (omega arith))
  after_Drops k n r f h (denies line why now) hf = denies line why now

  after_Reads :
      (k n : ℕ) (r : Parsed A) (f : A → Reader B)
      → n ≤ k
      → Reads n r
      → ((a : A) → Eats k (f a))
      → Drops n (and_then r f)
  after_Reads k n r f h (got a q small) hf = wider n (size q) (f a q) small (hf a q (omega arith))
  after_Reads k n r f h (refuses line why now) hf = denies line why now

  pub Eats-bind :
      (k : ℕ) (m : Reader A) (f : A → Reader B)
      → Eats k m
      → ((a : A) → Keeps k (f a))
      → Eats k (m >>= f)
  Eats-bind k m f hm hf p small = after_Drops k (size p) (m p) f small (hm p small) hf

  pub Keeps-bind-Eats :
      (k : ℕ) (m : Reader A) (f : A → Reader B)
      → Keeps (suc k) m
      → ((a : A) → Eats k (f a))
      → Eats k (m >>= f)
  Keeps-bind-Eats k m f hm hf p small = after_Reads k (size p) (m p) f small (hm p (omega arith)) hf

-- The cursor's own operations.
length_past_ws : (s : Text) (line : ℕ) → size (past_ws s line) ≤ length s
unfolding past_ws
length_past_ws [] line = omega arith
length_past_ws (c ∷ s) line = elim (Bool-cases (is_ws c)) [
  | inl e ↦ rw (e, past_ws) (omega (arith, length_past_ws s (next_line c line)))
  | inr e ↦ rw (e, past_ws) (omega arith)
]

pub skip_ws-Keeps : (k : ℕ) → Keeps k skip_ws
skip_ws-Keeps k (at s line) h = got tt (past_ws s line) (length_past_ws s line)

pub here-Keeps : (k : ℕ) → Keeps k here
here-Keeps k (at s line) h = got line (at s line) (omega arith)

pub peek-Keeps : (k : ℕ) → Keeps k peek
peek-Keeps k (at [] line) h = got none (at [] line) (omega arith)
peek-Keeps k (at (c ∷ s) line) h = got (some c) (at (c ∷ s) line) (omega arith)

pub bump-Keeps : (k : ℕ) → Keeps k bump
bump-Keeps k (at [] line) h = got none (at [] line) (omega arith)
bump-Keeps k (at (c ∷ s) line) h = got (some c) (at s (next_line c line)) (omega arith)

pub expect-Eats : (k byte : ℕ) (what : Text) → Eats k (expect byte what)
expect-Eats k byte what (at [] line) h = denies _ _ _
expect-Eats k byte what (at (c ∷ s) line) h = elim (Bool-cases (c == byte)) [
  | inl e ↦ rw e (dropped tt (at s (next_line c line)) (omega arith))
  | inr e ↦ rw e (denies _ _ _)
]
