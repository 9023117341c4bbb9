-- ===== src/Cli/Commands/Forked.antt =====
-- The fork command never serves a node.
use Prim.Native.String.{String}
use kanari_evm.Prelude.{ℕ, Result}
use kanari_evm.Types.Text.{Text}
use kanari_evm.Json.{Value}
use kanari_evm.Execution.Machine.{Machine}
use kanari_evm.Execution.Faucet.{Wallet}
use kanari_evm.Rpc.Forms.{Forms}
use kanari_evm.Cli.{Logging}
use kanari_evm.Cli.Boot.Exit.{IsErr, >>=-IsErr, run_fork-IsErr}
use kanari_evm.Cli.Commands.{
  Surroundings, ForkArgs, fork_command, parse_all, parse_account, parse_slot_flag, parse_key,
}

module _ (m : Machine) (w : Wallet) (logging : Logging) (forms : Forms)
    (post : Text → ℕ → Value → Result String Value) where
  open m use {engine}
  open logging use {Global}

  -- The fork command ends with an error, whatever its flags, the remote node and the database.
  pub fork_command-IsErr :
      (at : Surroundings) (global : Global) (args : ForkArgs) (store : engine.Db)
      → IsErr (fork_command m w logging forms post at global args store)
  unfolding fork_command
  fork_command-IsErr at global args store =
      >>=-IsErr (parse_all (parse_account m w logging forms) args.account) _ (λ accounts a.
        >>=-IsErr (parse_all (parse_slot_flag m w logging forms) args.slot) _ (λ slots b.
          >>=-IsErr (parse_key m w logging forms args.faucet_key) _ (λ secret c.
            run_fork-IsErr m w logging forms post at.genesis_spec at.exists at.files at.generated
              global _ store)))
