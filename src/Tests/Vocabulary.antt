-- ===== src/Tests/Vocabulary.antt =====
-- A name of the error vocabulary.
use whirl.Prelude.{◌≡◌, refl, codes, some, text_eq}
use whirl.Vocabulary.ErrorCode.{busy, parse}

busy_read : parse (codes "busy") ≡ some busy
unfolding parse text_eq
busy_read = refl
