-- ===== src/Pipeline/Filter/Verdicts.antt =====
-- The test of each stage against what it is to find out.
use whirl.Prelude.{
  ℕ, ◌≤◌, ◌<◌, ◌≡◌, ◌≢◌, refl, sym, subst, List, [], ◌∷◌, Bool, true, false, ◌||◌, Option, none,
  some, Text, codes, find, text_eq, text_eq_iff, Bool-cases, inl, inr, All, arith, ltb, ◌↔◌,
}
use whirl.Pipeline.Filter.{
  SourceFloors, Limits, Platform, macos, small, above, floors_of, cap_of, unwrap_or, off_ratio,
  unsettable_name, settable, is_macos, window_contains,
}
use whirl.Pipeline.Filter.Admits.{
  Section, absent, first, later, or_global, setting, Settable, jpg, jpeg, png, webp, heic, heif,
}

pub Section-find :
    (id : Text) (cs : List SourceFloors) (own : Option SourceFloors)
    → Section id cs own
    → find (λ c. text_eq c.id id) cs ≡ own
Section-find id cs own absent = refl
Section-find id cs own (first c _ e) = rw ((text_eq_iff c.id id).1 e) refl
Section-find id cs own (later c rest _ e h) = elim (Bool-cases (text_eq c.id id)) [
  | inl same ↦ absurd (e ((text_eq_iff c.id id).0 same))
  | inr other ↦ rw other (Section-find id rest own h)
]

pub find-Section :
    (id : Text) (cs : List SourceFloors) → Section id cs (find (λ c. text_eq c.id id) cs)
find-Section id [] = absent
find-Section id (c ∷ cs) = elim (Bool-cases (text_eq c.id id)) [
  | inl same ↦ rw same (first c cs ((text_eq_iff c.id id).0 same))
  | inr other ↦
      rw other (later c cs _ (λ e. cc (other, (text_eq_iff c.id id).1 e)) (find-Section id cs))
]

unwrap_or-or_global : (own : Option ℕ) (global : ℕ) → unwrap_or own global ≡ or_global own global
unfolding unwrap_or
unwrap_or-or_global none global = refl
unwrap_or-or_global (some n) global = refl

pub floors_of-setting :
    (config : Limits) (own : Option SourceFloors)
    → floors_of config own ≡ (
      setting own (λ c. c.min_width) config.min_width,
      setting own (λ c. c.min_height) config.min_height,
    )
unfolding floors_of
floors_of-setting config none = refl
floors_of-setting config (some c) = cc (
  unwrap_or-or_global c.min_width config.min_width,
  unwrap_or-or_global c.min_height config.min_height,
)

pub cap_of-setting :
    (config : Limits) (own : Option SourceFloors)
    → cap_of config own ≡ setting own (λ c. c.max_bytes) config.max_bytes
unfolding cap_of
cap_of-setting config none = refl
cap_of-setting config (some c) = unwrap_or-or_global c.max_bytes config.max_bytes

pub small-not :
    (value : Option ℕ) (floor : ℕ)
    → (small value floor ≡ false) ↔ ((n : ℕ) → value ≡ some n → floor ≤ n)
unfolding small
small-not none floor = (λ h n e. cc, λ h. refl)
small-not (some value) floor =
    (λ h n e. ground (arith, e), λ h. let low = h value refl in ground arith)

pub above-not :
    (value : Option ℕ) (most : ℕ)
    → (above value most ≡ false) ↔ ((n : ℕ) → value ≡ some n → n ≤ most)
unfolding above
above-not none most = (λ h n e. cc, λ h. refl)
above-not (some value) most =
    (λ h n e. ground (arith, e), λ h. let low = h value refl in ground arith)

pub off_ratio-not :
    (target : Option (ℕ → ℕ → Bool)) (width height : Option ℕ)
    → (off_ratio target width height ≡ false) ↔ (
        (off : ℕ → ℕ → Bool) (w h : ℕ)
        → target ≡ some off
        → width ≡ some w
        → height ≡ some h
        → 0 < h
        → off w h ≡ false)
unfolding off_ratio
off_ratio-not none width height = (λ k off w h e. cc, λ k. refl)
off_ratio-not (some off) none height = (λ k o w h e f. cc, λ k. refl)
off_ratio-not (some off) (some width) none = (λ k o w h e f g. cc, λ k. refl)
off_ratio-not (some off) (some width) (some height) = (
  λ k o w h e f g high.
      let same : height ≡ h = cc in
      let raw : off width height ≡ false = ground arith in cc (e, f, raw),
  λ k. elim (Bool-cases (ltb 0 height)) [
    | inl high ↦ rw high (k off width height refl refl refl (ground arith))
    | inr flat ↦ rw flat refl
  ],
)

is_macos-eq : (platform : Platform) → is_macos platform ≡ true → platform ≡ macos
unfolding is_macos
is_macos-eq macos h = refl
is_macos-eq _ h = cc

settable-Settable :
    (platform : Platform) (ext : Text) → settable platform ext ≡ true → Settable platform ext
unfolding settable
settable-Settable platform ext h =
    let of_word = λ (word : Text) (e : text_eq ext word ≡ true) (k : Settable platform word).
      subst (Settable platform) (sym ((text_eq_iff ext word).0 e)) k in
    elim (Bool-cases (text_eq ext (codes "jpg"))) [
      | inl e ↦ of_word (codes "jpg") e jpg
      | inr not_jpg ↦ elim (Bool-cases (text_eq ext (codes "jpeg"))) [
        | inl e ↦ of_word (codes "jpeg") e jpeg
        | inr not_jpeg ↦ elim (Bool-cases (text_eq ext (codes "png"))) [
          | inl e ↦ of_word (codes "png") e png
          | inr not_png ↦ elim (Bool-cases (text_eq ext (codes "webp"))) [
            | inl e ↦ of_word (codes "webp") e webp
            | inr not_webp ↦ elim (Bool-cases (text_eq ext (codes "heic"))) [
              | inl e ↦ of_word (codes "heic") e (heic (is_macos-eq platform (ground arith)))
              | inr not_heic ↦ elim (Bool-cases (text_eq ext (codes "heif"))) [
                | inl e ↦ of_word (codes "heif") e (heif (is_macos-eq platform (ground arith)))
                | inr not_heif ↦ absurd (ground arith)
              ]
            ]
          ]
        ]
      ]
    ]

Settable-settable :
    (platform : Platform) (ext : Text) → Settable platform ext → settable platform ext ≡ true
unfolding settable is_macos text_eq
Settable-settable platform ext jpg = refl
Settable-settable platform ext jpeg = refl
Settable-settable platform ext png = refl
Settable-settable platform ext webp = refl
Settable-settable platform ext (heic e) = rw e refl
Settable-settable platform ext (heif e) = rw e refl

pub unsettable_name-not :
    (platform : Platform) (name : Option Text)
    → (unsettable_name platform name ≡ false)
      ↔ ((ext : Text) → name ≡ some ext → Settable platform ext)
unfolding unsettable_name
unsettable_name-not platform none = (λ h ext e. cc, λ h. refl)
unsettable_name-not platform (some name) = (
  λ h ext e. subst (Settable platform) (cc e) (settable-Settable platform name (ground arith)),
  λ h. rw (Settable-settable platform name (h name refl)) refl,
)

pub window-fresh :
    (window : List Text) (key id : Text)
    → (window_contains window key || window_contains window id ≡ false)
      ↔ All (λ k. (k ≢ key) × (k ≢ id)) window
unfolding window_contains
window-fresh [] key id = (λ h. tt, λ h. refl)
window-fresh (k ∷ window) key id = (
  λ h. (
    (λ e. ground (arith, (text_eq_iff k key).1 e), λ e. ground (arith, (text_eq_iff k id).1 e)),
    (window-fresh window key id).0 (ground arith),
  ),
  λ h.
      let rest = (window-fresh window key id).1 h.1 in
      elim (Bool-cases (text_eq k key)) [
        | inl same ↦ absurd (h.0.0 ((text_eq_iff k key).0 same))
        | inr other ↦ elim (Bool-cases (text_eq k id)) [
          | inl same ↦ absurd (h.0.1 ((text_eq_iff k id).0 same))
          | inr neither ↦ ground arith
        ]
      ],
)
