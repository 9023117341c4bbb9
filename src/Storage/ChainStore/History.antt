-- ===== src/Storage/ChainStore/History.antt =====
-- Saved blocks form an append-only list: `load_blocks` returns it, and `save_block` of the next
-- number appends to it.
use kanari_evm.Prelude.{
  ℕ, zero, suc, ◌+◌, ◌^◌, ◌≤◌, ◌<◌, ◌≡◌, refl, ap, ◌∙◌, sym, true, false, Option, none, some, List,
  [], ◌∷◌, ◌++◌, Bytes, ok, >>=-eq-ok, ◌==◌, arith, length, length-append,
}
use kanari_evm.Storage.Records.{SealedBlock, StoredReceipt}
use kanari_evm.Storage.Keys.{block_key, meta_height}
use kanari_evm.Storage.Engine.{Engine}
use kanari_evm.Storage.ChainStore.{
  get_u64, StoreResult, save_block, load_block, load_blocks_from, load_blocks, height, push_block,
}
use kanari_evm.Storage.ChainStore.Saved.{load_block-save_block, height-save_block}

module _ (e : Engine) where
  open e use {Db, get}

  -- The database holds these blocks, and as many.
  pub record Holds (db : Db) (blocks : List SealedBlock) : Type 0 where
    pub top : height e db ≡ ok (length blocks)
    pub loaded : load_blocks e db ≡ ok blocks

  -- The first numbers read as these blocks, whatever the height.
  abbrev pub HoldsPrefix : Db → List SealedBlock → Type 0
  HoldsPrefix db blocks = load_blocks_from e db (length blocks) 1 ≡ ok blocks

  pub Holds-HoldsPrefix :
      (db : Db) (blocks : List SealedBlock) → Holds db blocks → HoldsPrefix db blocks
  unfolding load_blocks
  Holds-HoldsPrefix db blocks h = rw h.top at h.loaded

  load_blocks_from-cons :
      (db : Db) (rounds number : ℕ) (first : Option SealedBlock) (rest : List SealedBlock)
      → load_block e db number ≡ ok first
      → load_blocks_from e db rounds (suc number) ≡ ok rest
      → load_blocks_from e db (suc rounds) number ≡ ok (push_block first rest)
  unfolding load_blocks_from
  load_blocks_from-cons db rounds number first rest f r = rw (f, r)

  load_blocks_from-inv :
      (db : Db) (rounds number : ℕ) {blocks : List SealedBlock}
      → load_blocks_from e db (suc rounds) number ≡ ok blocks
      → (first : Option SealedBlock) × (rest : List SealedBlock) × (load_block e db number
          ≡ ok first)
        × (load_blocks_from e db rounds (suc number) ≡ ok rest)
        × (blocks ≡ push_block first rest)
  unfolding load_blocks_from
  load_blocks_from-inv db rounds number h =
      let (first, f, h1) = >>=-eq-ok (load_block e db number) _ h in
      let (rest, r, h2) = >>=-eq-ok (load_blocks_from e db rounds (suc number)) _ h1 in
      (first, rest, f, r, cc h2)

  pub load_blocks_from-zero : (db : Db) (number : ℕ) → load_blocks_from e db zero number ≡ ok []
  unfolding load_blocks_from
  load_blocks_from-zero db number = refl

  push_block-append :
      (first : Option SealedBlock) (rest more : List SealedBlock)
      → push_block first rest ++ more ≡ push_block first (rest ++ more)
  push_block-append none rest more = refl
  push_block-append (some b) rest more = refl

  -- One more round reads one more block.
  load_blocks_from-suc :
      (db : Db) (rounds number : ℕ) (blocks : List SealedBlock) (block : SealedBlock)
      → load_blocks_from e db rounds number ≡ ok blocks
      → load_block e db (rounds + number) ≡ ok (some block)
      → load_blocks_from e db (suc rounds) number ≡ ok (blocks ++ block ∷ [])
  load_blocks_from-suc db zero number blocks block h l =
      let z : ◌≡◌ {A = StoreResult (List SealedBlock)} (ok []) (ok blocks) =
        sym (load_blocks_from-zero db number) ∙ h in
      let z' : blocks ≡ [] = cc z in
      let m : zero + number ≡ number = omega arith in
      rw z' (
        load_blocks_from-cons db zero number (some block) [] (rw m at l)
          (load_blocks_from-zero db (suc number)))
  load_blocks_from-suc db (suc rounds) number blocks block h l =
      let (first, rest, f, r, split) = load_blocks_from-inv db rounds number h in
      let m : suc rounds + number ≡ rounds + suc number = omega arith in
      rw (split, push_block-append first rest (block ∷ []))
        (load_blocks_from-cons db (suc rounds) number first (rest ++ block ∷ []) f
          (load_blocks_from-suc db rounds (suc number) rest block r (rw m at l)))

  module _ (db db' : Db) (block : SealedBlock) (receipts : List (Bytes × StoredReceipt))
      (saved : save_block e db block receipts ≡ ok db') (fits : block.number < 2 ^ 64) where
    -- The numbers below the saved block read as before.
    load_blocks_from-below :
        (rounds number : ℕ)
        → rounds + number ≤ block.number
        → load_blocks_from e db' rounds number ≡ load_blocks_from e db rounds number
    unfolding load_blocks_from
    load_blocks_from-below zero number h = refl
    load_blocks_from-below (suc rounds) number h =
        let other : (block.number == number) ≡ false = ground arith in
        rw (
          load_block-save_block e db db' block receipts saved number (omega arith) fits,
          other,
          load_blocks_from-below rounds (suc number) (omega arith),
        )

    load_block-next : (n : ℕ) → block.number ≡ n → load_block e db' n ≡ ok (some block)
    load_block-next n e' =
        let same : (block.number == n) ≡ true = ground arith in
        rw (load_block-save_block e db db' block receipts saved n (omega arith) fits, same)

    height-next : (n : ℕ) → block.number ≡ n → height e db' ≡ ok n
    height-next n e' = height-save_block e db db' block receipts saved fits ∙ ap ok e'

    -- Whatever the height was before: where the first numbers read as a list of blocks, and the saved
    -- block has the next number, the new database holds that list with the block at its end.
    pub HoldsPrefix-save_block :
        (blocks : List SealedBlock)
        → HoldsPrefix db blocks
        → block.number ≡ suc (length blocks)
        → Holds db' (blocks ++ block ∷ [])
    HoldsPrefix-save_block blocks h next = record {
      top =
          height-next (length (blocks ++ block ∷ []))
            (omega (arith, length-append blocks (block ∷ [])));
      loaded =
          unfold load_blocks in
          rw (height-next (suc (length blocks)) next) (
            load_blocks_from-suc db' (length blocks) 1 blocks block
              (load_blocks_from-below (length blocks) 1 (omega arith) ∙ h)
              (load_block-next (length blocks + 1) (omega arith)));
    }

    -- Where the database holds a list of blocks and the saved block has the next number, the new
    -- database holds that list with the block at its end.
    pub Holds-save_block :
        (blocks : List SealedBlock)
        → Holds db blocks
        → block.number ≡ suc (length blocks)
        → Holds db' (blocks ++ block ∷ [])
    Holds-save_block blocks h next =
        HoldsPrefix-save_block blocks (Holds-HoldsPrefix db blocks h) next

  -- Databases that agree on the block keys and the height hold the same blocks.
  module _ (db db' : Db) (same_height : get db' meta_height ≡ get db meta_height)
      (same_blocks : (n : ℕ) → get db' (block_key n) ≡ get db (block_key n)) where
    height-same : height e db' ≡ height e db
    unfolding height get_u64
    height-same = rw same_height

    load_block-same : (n : ℕ) → load_block e db' n ≡ load_block e db n
    unfolding load_block
    load_block-same n = rw (same_blocks n)

    load_blocks_from-same :
        (rounds number : ℕ)
        → load_blocks_from e db' rounds number ≡ load_blocks_from e db rounds number
    unfolding load_blocks_from
    load_blocks_from-same zero number = refl
    load_blocks_from-same (suc rounds) number =
        rw (load_block-same number, load_blocks_from-same rounds (suc number))

    load_blocks-same : load_blocks e db' ≡ load_blocks e db
    unfolding load_blocks
    load_blocks-same = rw height-same (simp load_blocks_from-same)

    pub HoldsPrefix-same :
        (blocks : List SealedBlock) → HoldsPrefix db blocks → HoldsPrefix db' blocks
    HoldsPrefix-same blocks h = load_blocks_from-same (length blocks) 1 ∙ h

    pub Holds-same : {blocks : List SealedBlock} → Holds db blocks → Holds db' blocks
    Holds-same h = record { top = height-same ∙ h.top; loaded = load_blocks-same ∙ h.loaded }
