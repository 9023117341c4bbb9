-- ===== src/Storage/Registry/Shared.antt =====
-- Opens of one path share a handle while somebody holds it, and only where they come one after the
-- other.
use kanari_evm.Prelude.{ℕ, ◌≡◌, ap, none, err, ok, Option}
use kanari_evm.Types.Text.{Text}
use kanari_evm.Storage.ChainStore.{StoreError}
use kanari_evm.Storage.Registry.{
  PathParts, Opened, Rocks, look_up, create, open_or_get_db, absolute, found_or,
}
use kanari_evm.Storage.Registry.Held.{
  Held, Later, Later-Held, look_up-found, create-Held, create-locked,
}

module _ (r : Rocks) where
  open_or_get_db-Held :
      (dir : Text) (path : PathParts) (db : ℕ) (w : Opened)
      → absolute r dir ≡ ok path
      → Held path db w
      → open_or_get_db r dir w ≡ (ok db, (look_up r path w).1)
  unfolding open_or_get_db
  open_or_get_db-Held dir path db w named h = rw named (
      ap (λ (found : Option ℕ). found_or r path (found, (look_up r path w).1))
        (look_up-found r path db w h))

  -- Where a path has no handle and its database is created, the open gives the new handle. Whatever
  -- lookups and creations of any paths and drops of other handles follow, in any order: as long as
  -- this handle is not dropped, an open by any text with the same absolute path gives it too. But the
  -- creation by an open that had found no handle before fails and changes nothing.
  pub open_or_get_db-shares :
      (dir again : Text) (path : PathParts) (w w1 w2 w3 : Opened) (db : ℕ)
      → absolute r dir ≡ ok path
      → absolute r again ≡ ok path
      → look_up r path w ≡ (none, w1)
      → create r path w1 ≡ (ok db, w2)
      → Later r db w2 w3
      → (open_or_get_db r dir w ≡ (ok db, w2))
        × (open_or_get_db r again w3 ≡ (ok db, (look_up r path w3).1))
        × ((e : StoreError) × (create r path w3 ≡ (err e, w3)))
  open_or_get_db-shares dir again path w w1 w2 w3 db named named' looked made later =
      let held : Held path db w3 =
        Later-Held r path db w2 (create-Held r path w1 w2 db made) later in
      (
        unfold open_or_get_db in rw (named, looked) made,
        open_or_get_db-Held again path db w3 named' held,
        create-locked r path db w3 held,
      )
