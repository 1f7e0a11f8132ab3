-- ===== src/Worker/Lost.antt =====
-- What a lost lease does to an attempt.
use rungrid.Common.{◌≡◌, ◌⊎◌, false}
use rungrid.Wire.{Lease}
use rungrid.Artifacts.Digest.{Hash}
use rungrid.Worker.State.{Machine, World, is_running}
use rungrid.Worker.Monad.{Step, value, returned}
use rungrid.Worker.Protocol.Phase.{working, failing, At}

module _ (w : World) (hash : Hash) (lease : Lease) where
  -- What a round of the loop leaves when the lease is lost by its end: it returns without the command,
  -- or raises what `progress()` raised.
  abbrev pub Stops : Step (Unit {0}) × Machine → Step (Unit {0}) × Machine → Type 0
  Stops (value u, m) r = (r.0 ≡ returned) × (r.1.calls ≡ m.calls) × (is_running r.1.process ≡ false)
  Stops p r = (r.0 ≡ p.0) × (r.1.calls ≡ p.1.calls)

  -- The attempt has been started, and its last call is not made.
  abbrev pub Unreported : Machine → Type 0
  Unreported m = At working m ⊎ At failing m
