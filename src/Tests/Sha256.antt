-- ===== src/Tests/Sha256.antt =====
-- The digest of a text that is fed in two parts.
use whirl.Prelude.{◌≡◌, ◌++◌, codes, arith}
use whirl.Sha256.{new, update}
use whirl.Sha256.Stream.{update-append}

update-append_example :
    update (update new (codes "wall")) (codes "paper") ≡ update new (codes "wall" ++ codes "paper")
update-append_example = update-append new (codes "wall") (codes "paper") (omega arith)
