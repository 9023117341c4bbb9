-- ===== src/Samples/Stores.antt =====
-- A store in memory: a function from keys to values, whose writes never fail.
use kanari_evm.Prelude.{◌≡◌, refl, ap, sym, ◌∙◌, Option, none, some, Bytes, ok, Result}
use Prim.Native.String.{String}
use kanari_evm.Storage.Engine.{Batch, Engine, last_put, after_put}
use kanari_evm.Samples.Serial.{block_codec, receipt_codec, alloc_codec}

abbrev pub Memory : Type 0
Memory = Bytes → Option Bytes

abbrev pub no_entries : Memory
no_entries key = none

abbrev pub written : Memory → Batch → Memory
written db batch key = after_put (last_put batch key) (λ o. o) (db key)

pub read-written :
    (db db' : Memory) (batch : Batch) (key : Bytes)
    → ◌≡◌ {A = Result String Memory} (ok (written db batch)) (ok db')
    → ◌≡◌ {A = Result String (Option Bytes)}
        (ok (db' key))
        (after_put (last_put batch key) ok (ok (db key)))
read-written db db' batch key h =
    let e : written db batch ≡ db' = cc h in
    ap (λ (d : Memory). ok (d key)) (sym e) ∙ go (last_put batch key)
  where
    go :
        (o : Option Bytes)
        → ◌≡◌ {A = Result String (Option Bytes)}
            (ok (after_put o (λ o. o) (db key)))
            (after_put o ok (ok (db key)))
    go none = refl
    go (some v) = refl

abbrev pub memory : Engine
memory = record {
  Db = Memory;
  get = λ db key. ok (db key);
  write = λ db batch. ok (written db batch);
  get-write = read-written;
  block_codec = block_codec;
  receipt_codec = receipt_codec;
  alloc_codec = alloc_codec;
}
