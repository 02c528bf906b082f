-- ===== src/Pipeline/Sniff/Jpeg.antt =====
-- The walk over the segments of a JPEG goes only further in, and reads no byte that is not there.
use whirl.Prelude.{
  ℕ, zero, suc, ◌+◌, ◌-◌, ◌<◌, not, ◌&&◌, ◌||◌, Text, ltb, ltb→lt, ◌==◌, All, length, Bool-cases,
  inl, inr, arith,
}
use whirl.Pipeline.Sniff.{
  Run, done, Sniffed, beyond_window, be16, Turn, stop, go, is_standalone, is_frame, read_frame,
  segment, turn, segments, sniff_jpeg,
}
use whirl.Pipeline.Sniff.Ends.{Ends, ends, IsByte, SniffedFits, Ends-bind, if-Ends, next}

abbrev Forward : ℕ → Turn → Type 0
Forward at (stop answer) = SniffedFits answer
Forward at (go next) = at < next

module _ (bytes : Text) (all : All IsByte bytes) where
  module _ (at : ℕ) where
    read_frame-Ends : at + 9 < length bytes → Ends (Forward at) (read_frame bytes at)
    unfolding read_frame
    read_frame-Ends h = next bytes all (Forward at) (at + 5) _ (omega arith) λ h1 b1.
        next bytes all (Forward at) (at + 6) _ (omega arith) λ h2 b2.
          next bytes all (Forward at) (at + 7) _ (omega arith) λ w1 b3.
            next bytes all (Forward at) (at + 8) _ (omega arith)
              λ w2 b4. ends _ (omega arith, omega arith)

    segment-Ends :
        (marker : ℕ) → at + 3 < length bytes → Ends (Forward at) (segment bytes at marker)
    unfolding segment
    segment-Ends marker h = next bytes all (Forward at) (at + 2) _ (omega arith) λ hi b1.
        next bytes all (Forward at) (at + 3) _ h λ lo b2.
          if-Ends (Forward at) (ltb (be16 hi lo) 2) _ _ (λ e. ends _ tt)
            λ e.
              if-Ends (Forward at) (is_frame marker && ltb (at + 9) (length bytes)) _ _
                (λ f. read_frame-Ends (ground arith)) λ f. ends _ (omega arith)

    turn-Ends : at + 3 < length bytes → Ends (Forward at) (turn bytes at)
    unfolding turn
    turn-Ends h = next bytes all (Forward at) at _ (omega arith) λ b b1.
        if-Ends (Forward at) (not (b == 0xff)) _ _ (λ e. ends _ tt)
          λ e. next bytes all (Forward at) (at + 1) _ (omega arith) λ marker b2.
            if-Ends (Forward at) (marker == 0xff) _ _ (λ f. ends _ (omega arith))
              λ f.
                if-Ends (Forward at) (is_standalone marker) _ _ (λ g. ends _ (omega arith))
                  λ g. segment-Ends marker h

    follow-Ends :
        (k : ℕ → Run Sniffed) (t : Turn)
        → Forward at t
        → ((on : ℕ) → at < on → Ends SniffedFits (k on))
        → Ends SniffedFits (elim t [ stop answer ↦ done answer | go on ↦ k on ])
    follow-Ends k (stop answer) f rest = ends answer f
    follow-Ends k (go on) f rest = rest on f

  -- Fuel for the bytes that are left is enough.
  segments-Ends :
      (fuel at : ℕ) → length bytes - at < fuel → Ends SniffedFits (segments fuel bytes at)
  unfolding segments
  segments-Ends zero at h = absurd (omega arith)
  segments-Ends (suc fuel) at h = elim (Bool-cases (ltb (at + 3) (length bytes))) [
    | inr e ↦ rw (e, segments) (ends beyond_window tt)
    | inl e ↦
        let inside = ltb→lt _ _ e in
        rw (e, segments)
          (Ends-bind (Forward at) SniffedFits (turn bytes at) _ (turn-Ends at inside) λ t f.
            follow-Ends at (segments fuel bytes) t f λ on far. segments-Ends fuel on (omega arith))
  ]

  pub sniff_jpeg-Ends : Ends SniffedFits (sniff_jpeg bytes)
  unfolding sniff_jpeg
  sniff_jpeg-Ends =
      if-Ends SniffedFits (ltb (length bytes) 4) _ _ (λ e. ends _ tt)
        λ e. next bytes all SniffedFits 0 _ (ground arith) λ a b1.
          next bytes all SniffedFits 1 _ (ground arith) λ b b2.
            if-Ends SniffedFits (not (a == 0xff) || not (b == 0xd8)) _ _ (λ f. ends _ tt)
              λ f. segments-Ends (length bytes) 2 (ground arith)
