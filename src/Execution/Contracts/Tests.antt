-- ===== src/Execution/Contracts/Tests.antt =====
-- The demo contract's call data and init code on concrete inputs.
use kanari_evm.Prelude.{◌≡◌, refl, some, Bytes, length, take, drop, arith}
use kanari_evm.Execution.Contracts.{
  deploy_init, simple_storage_set_selector, simple_storage_get_selector, simple_storage_runtime,
}
use kanari_evm.Execution.Contracts.Layout.{Deploys, deploy_init-Deploys, byte_at}

runtime_length : length simple_storage_runtime ≡ 63
runtime_length = refl

set_dest : byte_at 0x2a simple_storage_runtime ≡ 0x5b
unfolding byte_at
set_dest = refl

get_dest : byte_at 0x33 simple_storage_runtime ≡ 0x5b
unfolding byte_at
get_dest = refl

set_selector : take 4 (drop 8 simple_storage_runtime) ≡ simple_storage_set_selector
set_selector = refl

get_selector : take 4 (drop 0x11 simple_storage_runtime) ≡ simple_storage_get_selector
get_selector = refl

deploy_init-Deploys_example :
    (init : Bytes) × (deploy_init simple_storage_runtime ≡ some init)
    × Deploys init simple_storage_runtime
deploy_init-Deploys_example = deploy_init-Deploys simple_storage_runtime (omega arith) (omega arith)
