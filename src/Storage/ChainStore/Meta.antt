-- ===== src/Storage/ChainStore/Meta.antt =====
-- What the writes of `init_meta` and `set_faucet_key` leave.
use kanari_evm.Prelude.{
  ℕ, ◌≡◌, refl, ap, ◌∙◌, none, some, List, [], ◌∷◌, Bytes, bytes_eq, ok, >>=-eq-ok, map_err-eq-ok,
  map_err, to_le_bytes,
}
use kanari_evm.Storage.Records.{SealedBlock}
use kanari_evm.Storage.Keys.{block_key, meta_height, meta_faucet_key, meta_chain_id, meta_genesis}
use kanari_evm.Storage.Engine.{Batch, Engine, last_put, after_put}
use kanari_evm.Storage.ChainStore.{init_meta, set_faucet_key, backend}
use kanari_evm.Storage.ChainStore.History.{Holds, Holds-same}

module _ (e : Engine) where
  open e use {Db, get, write, alloc_codec}

  -- A key that no put of a batch has reads as before.
  get-untouched :
      (db db' : Db) (batch : Batch) (key : Bytes)
      → write db batch ≡ ok db'
      → last_put batch key ≡ none
      → get db' key ≡ get db key
  get-untouched db db' batch key h k =
      e.get-write db db' batch key h ∙ ap (λ o. after_put o ok (get db key)) k

  -- The chain id and the allocation are no blocks and no height.
  pub Holds-init_meta :
      (db db' : Db) (chain_id : ℕ) (alloc : List (Bytes × ℕ)) {blocks : List SealedBlock}
      → init_meta e db chain_id alloc ≡ ok db'
      → Holds e db blocks
      → Holds e db' blocks
  unfolding init_meta last_put bytes_eq block_key
  Holds-init_meta db db' chain_id alloc h held =
      let (bytes, k, h1) = >>=-eq-ok (map_err backend (alloc_codec.to_vec alloc)) _ h in
      let batch : Batch = (meta_chain_id, to_le_bytes 8 chain_id) ∷ (meta_genesis, bytes) ∷ [] in
      let w = map_err-eq-ok backend (write db batch) h1 in
      Holds-same e db db' (get-untouched db db' batch meta_height w refl)
        (λ n. get-untouched db db' batch (block_key n) w refl) held

  -- Nor is the key of the faucet.
  pub Holds-set_faucet_key :
      (db db' : Db) (secret : Bytes) {blocks : List SealedBlock}
      → set_faucet_key e db secret ≡ ok db'
      → Holds e db blocks
      → Holds e db' blocks
  unfolding set_faucet_key last_put bytes_eq block_key
  Holds-set_faucet_key db db' secret h held =
      let batch : Batch = (meta_faucet_key, secret) ∷ [] in
      let w = map_err-eq-ok backend (write db batch) h in
      Holds-same e db db' (get-untouched db db' batch meta_height w refl)
        (λ n. get-untouched db db' batch (block_key n) w refl) held

  -- What was written at the key of the faucet is read there.
  pub get-set_faucet_key :
      (db db' : Db) (secret : Bytes)
      → set_faucet_key e db secret ≡ ok db'
      → get db' meta_faucet_key ≡ ok (some secret)
  unfolding set_faucet_key last_put bytes_eq
  get-set_faucet_key db db' secret h =
      e.get-write db db' ((meta_faucet_key, secret) ∷ []) meta_faucet_key
        (map_err-eq-ok backend (write db ((meta_faucet_key, secret) ∷ [])) h)
