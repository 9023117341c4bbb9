-- ===== src/Samples/Logs.antt =====
-- A process whose global subscriber is set once: whether it has been.
use Prim.Native.String.{String}
use kanari_evm.Prelude.{◌≡◌, refl, Bool, true, false, Result, ok, err}
use kanari_evm.Cli.{Logging}

abbrev pub set_once : Bool → Result String Bool
set_once false = ok true
set_once true = err "a global default trace dispatcher has already been set"

pub set_once-set_once : (g g' : Bool) → set_once g ≡ ok g' → (e : String) × (set_once g' ≡ err e)
set_once-set_once false true h = (_, refl)
set_once-set_once false false h = cc h
set_once-set_once true g' h = cc h

abbrev pub process : Logging
process = record {
  Global = Bool;
  try_new = λ filter. ok tt;
  try_init = set_once;
  try_init-try_init = set_once-set_once;
}
