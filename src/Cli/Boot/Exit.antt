-- ===== src/Cli/Boot/Exit.antt =====
-- The fork command sets the global subscriber of its process twice.
use Prim.Native.String.{String}
use kanari_evm.Prelude.{ℕ, ◌≡◌, refl, Bool, Option, Bytes, Result, ok, err, ◌>>=◌, not, >>=-eq-ok}
use kanari_evm.Types.Text.{Text}
use kanari_evm.Json.{Value}
use kanari_evm.Execution.Machine.{Machine}
use kanari_evm.Execution.Open.{LegacyFiles}
use kanari_evm.Execution.Faucet.{Wallet}
use kanari_evm.Rpc.Forms.{Forms}
use kanari_evm.Cli.{Logging, init_logging, exit_with, filter_text, level_text}
use kanari_evm.Cli.Boot.{run, run_fork, fork_state, key_or_new, signer_of, fork_start, mint}
use kanari_evm.Cli.Spec.{ForkOptions, StartOptions}

-- A result that is an error.
abbrev pub IsErr : {A E : Type 0} → Result E A → Type 0
IsErr {E} r = (e : E) × (r ≡ err e)

-- A chain fails where its rest always does.
pub >>=-IsErr :
    {A B E : Type 0} (r : Result E A) (next : A → Result E B)
    → ((a : A) → r ≡ ok a → IsErr (next a))
    → IsErr (r >>= next)
>>=-IsErr (ok a) next rest = rest a refl
>>=-IsErr (err e) next rest = (e, refl)

exit_with-eq-ok :
    {A : Type 0} (why : String) (r : Result String A) {a : A} → exit_with why r ≡ ok a → r ≡ ok a
exit_with-eq-ok why (ok a) h = cc h
exit_with-eq-ok why (err e) h = cc h

exit_with-IsErr :
    {A : Type 0} (why : String) (r : Result String A) → IsErr r → IsErr (exit_with why r)
exit_with-IsErr why (ok a) (e, h) = cc h
exit_with-IsErr why (err e) h = (_, refl)

-- What set the subscriber cannot set it again, whatever the levels.
init_logging-init_logging :
    (l : Logging) (level again : Text) (g g' : l.Global)
    → init_logging l level g ≡ ok g'
    → IsErr (init_logging l again g')
unfolding init_logging
init_logging-init_logging l level again g g' h =
    let (u, e, set) =
      >>=-eq-ok (exit_with "invalid log level" (l.try_new (filter_text level))) _ h in
    let first : l.try_init g ≡ ok g' = exit_with-eq-ok _ (l.try_init g) set in
    >>=-IsErr (exit_with "invalid log level" (l.try_new (filter_text again))) _
      (λ v k. exit_with-IsErr _ (l.try_init g') (l.try_init-try_init g g' first))

module _ (m : Machine) (w : Wallet) (logging : Logging) (forms : Forms)
    (post : Text → ℕ → Value → Result String Value) where
  open m use {engine}
  open logging use {Global}

  run-IsErr :
      (genesis_spec : ℕ) (exists : Bool) (files : Option LegacyFiles) (generated : Bytes)
      (global : Global) (opts : StartOptions) (store : engine.Db)
      → IsErr (init_logging logging (level_text opts.log_level) global)
      → IsErr (run m w logging genesis_spec exists files generated global opts store)
  unfolding run
  run-IsErr genesis_spec exists files generated global opts store (e, h) = (e, rw h refl)

  -- The fork command ends the process with an error, whatever its options, the remote node and the
  -- database.
  pub run_fork-IsErr :
      (genesis_spec : ℕ) (exists : Bool) (files : Option LegacyFiles) (generated : Bytes)
      (global : Global) (opts : ForkOptions) (store : engine.Db)
      → IsErr
          (run_fork m w logging forms post genesis_spec exists files generated global opts store)
  unfolding run_fork
  run_fork-IsErr genesis_spec exists files generated global opts store =
      >>=-IsErr (init_logging logging (level_text opts.log_level) global) _ (λ global' h.
        >>=-IsErr (fork_state m w logging forms post (not exists) opts store) _ (λ forked u.
          >>=-IsErr (key_or_new m w logging opts.faucet_key generated) _ (λ secret v.
            >>=-IsErr (signer_of m w logging "bad faucet key" secret) _ (λ signer k.
              run-IsErr genesis_spec exists files generated global'
                (fork_start opts (w.address signer) secret
                  (mint (not exists) (w.address signer) forked))
                store
                (init_logging-init_logging logging (level_text opts.log_level) _ global global'
                  h)))))
