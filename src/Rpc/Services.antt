-- ===== src/Rpc/Services.antt =====
-- What the server uses of other libraries, together.
use kanari_evm.Execution.Machine.{Machine}
use kanari_evm.Execution.Faucet.{Wallet}
use kanari_evm.Execution.Reads.{Backend}
use kanari_evm.Execution.Trace.{Tracer}
use kanari_evm.Rpc.Forms.{Forms}

pub record Services : Type 1 where
  pub machine : Machine
  pub wallet : Wallet
  pub backend : Backend machine
  pub tracer : Tracer machine
  pub forms : Forms
