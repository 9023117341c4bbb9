-- ===== src/Storage/Registry/Tests.antt =====
-- A file system where a database opens unless its directory is locked.
use Prim.Native.String.{String}
use kanari_evm.Prelude.{◌≡◌, refl, Bool, true, false, none, [], ◌∷◌, Result, ok, err}
use kanari_evm.Storage.Keys.{codes}
use kanari_evm.Storage.ChainStore.{StoreError}
use kanari_evm.Storage.Registry.{
  PathParts, Opened, Rocks, retain, look_up, create, release, open_or_get_db, absolute, components,
  split_slash,
}
use kanari_evm.Storage.Registry.Held.{Later, now, looked, made, released}
use kanari_evm.Storage.Registry.Shared.{open_or_get_db-shares}

abbrev unless_locked : Bool → PathParts → Result String (Unit {0})
unless_locked true path = err "lock hold by current process"
unless_locked false path = ok tt

abbrev rocks : Rocks
rocks = record {
  current_dir = ok (codes "/home");
  create_parent = λ path. ok tt;
  db_open = unless_locked;
  db_open-locked = λ path. (_, refl);
}

abbrev nothing_open : Opened
nothing_open = record { registry = []; alive = []; next = 0 }

abbrev chain : PathParts
chain = codes "home" ∷ codes "chain" ∷ []

abbrev other : PathParts
other = codes "other" ∷ []

looking : look_up rocks chain nothing_open ≡ (none, nothing_open)
unfolding look_up retain
looking = refl

creating : (w : Opened) × (create rocks chain nothing_open ≡ (ok 0, w))
unfolding create
creating = (_, refl)

named : absolute rocks (codes "chain") ≡ ok chain
unfolding absolute components split_slash
named = refl

named_again : absolute rocks (codes "//home/./chain/") ≡ ok chain
unfolding absolute components split_slash
named_again = refl

-- Another database is opened and closed.
abbrev later_on : Opened
later_on = release 1 (create rocks other (look_up rocks other creating.0).1).1

then_other : Later rocks 0 creating.0 later_on
then_other = released 1 refl (made other (looked other now))

open_or_get_db-shares_example :
    (open_or_get_db rocks (codes "chain") nothing_open ≡ (ok 0, creating.0))
    × (open_or_get_db rocks (codes "//home/./chain/") later_on
        ≡ (ok 0, (look_up rocks chain later_on).1))
    × ((e : StoreError) × (create rocks chain later_on ≡ (err e, later_on)))
open_or_get_db-shares_example =
    open_or_get_db-shares rocks (codes "chain") (codes "//home/./chain/") chain nothing_open
      nothing_open creating.0 later_on 0 named named_again looking creating.1 then_other
