-- ===== src/Daemon/Protects.antt =====
-- The sweep of crates/whirld/src/cache.rs under the protected set that crates/whirld/src/state.rs builds.
use whirl.Prelude.{◌≡◌, refl, sym, subst, [], ◌∷◌, true, some, Text, text_eq_iff, arith}
use whirl.Map.{Map, get}
use whirl.State.{Favorite}
use whirl.Cache.{images_dir, member}
use whirl.Cache.Disk.{Disk, is_under}
use whirl.Cache.Measure.{digest_of}
use whirl.Cache.Evict.{Rules}
use whirl.Cache.Promises.{
  IsNamed, degraded, anchor_path, anchor_digest, pinned_path, pinned_digest, named,
  sweep_keeps_protected,
}
use whirl.Cache.Sweep.{sweep}
use whirl.Daemon.{Current, State}
use whirl.Daemon.Resolve.{protected_set, favorite_digests, favorite_paths}

member-favorite_paths :
    (key path : Text) (favorite : Favorite) (favorites : Map Favorite)
    → get key favorites ≡ some favorite
    → favorite.path ≡ some path
    → member path (favorite_paths favorites) ≡ true
unfolding get member favorite_paths
member-favorite_paths key path favorite [] h e = cc
member-favorite_paths key path favorite ((k, f) ∷ rest) h e =
    ground (arith, text_eq_iff path path, member-favorite_paths key path favorite rest)

member-favorite_digests :
    (key digest : Text) (favorite : Favorite) (favorites : Map Favorite)
    → get key favorites ≡ some favorite
    → favorite.digest ≡ some digest
    → member digest (favorite_digests favorites) ≡ true
unfolding get member favorite_digests
member-favorite_digests key digest favorite [] h e = cc
member-favorite_digests key digest favorite ((k, f) ∷ rest) h e =
    ground (arith, text_eq_iff digest digest, member-favorite_digests key digest favorite rest)

-- What the state holds to be on screen or pinned at a path: by the path, or by the digest in its name.
pub data Holds (s : State) (q : Text) : Type 0 where
  on_screen_at : (current : Current) → s.current ≡ some current → current.path ≡ some q → Holds s q
  on_screen :
      (current : Current) → s.current ≡ some current → digest_of q ≡ some current.digest → Holds s q
  pinned_at :
      (key : Text) (favorite : Favorite)
      → get key s.favorites ≡ some favorite
      → favorite.path ≡ some q
      → Holds s q
  pinned_as :
      (key digest : Text) (favorite : Favorite)
      → get key s.favorites ≡ some favorite
      → favorite.digest ≡ some digest
      → digest_of q ≡ some digest
      → Holds s q
  unknown : s.favorites_degraded ≡ true → Holds s q

Holds-IsNamed : (s : State) (q : Text) → Holds s q → IsNamed (protected_set s) q
unfolding protected_set member
Holds-IsNamed s q (on_screen_at current e at) =
    anchor_path (rw (e, at) (ground (arith, text_eq_iff q q)))
Holds-IsNamed s q (on_screen current e name) = anchor_digest current.digest name (rw e refl)
Holds-IsNamed s q (pinned_at key favorite there at) =
    pinned_path (member-favorite_paths key q favorite s.favorites there at)
Holds-IsNamed s q (pinned_as key digest favorite there is name) =
    pinned_digest digest name (member-favorite_digests key digest favorite s.favorites there is)
Holds-IsNamed s q (unknown e) = degraded e

-- The image that the daemon holds to be on screen, and every image that a favorite names by its path or
-- its digest, is on the disk after a sweep as it was before, wherever the sweep stops; and so is every
-- image while the favorites could not be read.
pub sweep_keeps_state :
    (r : Rules) (s : State) (q minted : Text) (d : Disk)
    → r.protected ≡ protected_set s
    → is_under (images_dir r.root) q ≡ true
    → Holds s q
    → get q (sweep r minted d).1.files ≡ get q d.files
sweep_keeps_state r s q minted d e under h =
    sweep_keeps_protected r q minted d under
      (named d.files (subst (λ p. IsNamed p q) (sym e) (Holds-IsNamed s q h)))
