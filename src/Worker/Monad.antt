-- ===== src/Worker/Monad.antt =====
-- The main thread of `Worker.execute` as a monad: a step goes on with a value, returns from
-- `execute`, or raises, and the machine comes back in each case.
use rungrid.Common.{suc, Bool, true, false, Option, none, some, ◌∷◌, Text, length, if◌then◌else◌}
use rungrid.Wire.{Method, Status, Entry, Lease}
use rungrid.Artifacts.Digest.{Hash}
use rungrid.Artifacts.Upload.{
  Site, Upload, uploaded, lease_lost, storage_error, fell_through, upload, entry_at, stat_at,
}
use rungrid.Artifacts.Effects.{try_put-keeps}
use rungrid.Artifacts.Key.{object_key}
use rungrid.Worker.State.{
  Machine, World, Payload, File, Error, rpc_failure, lease_lost_error, storage_failure, alive,
}
use rungrid.Worker.Threads.{wait}

-- `stuck` is the end of the fuel of a loop.
pub data Step (A : Type 0) : Type 0 where
  value : A → Step A
  returned : Step A
  raised : Error → Step A
  stuck : Step A

abbrev pub M : Type 0 → Type 0
M A = Machine → Step A × Machine

abbrev pub pure : {A : Type 0} → A → M A
pure a m = (value a, m)

abbrev pub raise : {A : Type 0} → Error → M A
raise e m = (raised e, m)

abbrev pub modify : (Machine → Machine) → M (Unit {0})
modify f m = (value tt, f m)

abbrev pub then_do : {A B : Type 0} → Step A × Machine → (A → M B) → Step B × Machine
then_do (value a, m) f = f a m
then_do (returned, m) f = (returned, m)
then_do (raised e, m) f = (raised e, m)
then_do (stuck, m) f = (stuck, m)

infixl 5 ◌>>=◌ ◌>>◌
abbrev pub ◌>>=◌ : {A B : Type 0} → M A → (A → M B) → M B
◌>>=◌ f g m = then_do (f m) g

abbrev pub ◌>>◌ : {A B : Type 0} → M A → M B → M B
f >> g = f >>= λ _. g

-- `if not alive(): return`
unfoldable pub return_unless_alive : M (Unit {0})
return_unless_alive m = if alive m then (value tt, m) else (returned, m)

abbrev is_none : Option Status → Bool
is_none none = true
is_none (some code) = false

abbrev rpc_step : Option Status → Step (Unit {0})
rpc_step none = value tt
rpc_step (some code) = raised (rpc_failure code)

-- `self.rpc.call` of the main thread.
unfoldable pub rpc : World → Method → Payload → M (Unit {0})
rpc w method payload m =
    let answer = w.reply m.waits method payload in
    let m' = wait w m in
    (
      rpc_step answer,
      record m' {
        calls = record { method = method; payload = payload; accepted = is_none answer } ∷ m'.calls;
      },
    )

-- What `Artifacts.upload` meets in the worker.
unfoldable pub worker_site : World → Site Machine
worker_site w = record {
  alive = λ m. alive m;
  put = λ k h c m. (w.put m.waits, wait w m);
  on_failure = λ m. record m { upload_failures = suc m.upload_failures };
  sleep = λ t m. wait w m;
}

abbrev pub upload_step : Upload → Step Entry
upload_step (uploaded e) = value e
upload_step lease_lost = raised lease_lost_error
upload_step storage_error = raised storage_failure
upload_step fell_through = stuck

unfoldable pub upload_file : World → Hash → Lease → Text → File → M Entry
unfolding upload worker_site
upload_file w hash lease kind f m =
    let (u, m') =
      upload (worker_site w) hash lease kind (w.opened m.waits f) (w.uuid m.waits) f.name m in
    (upload_step u, m')

-- An upload does to the machine what waits and the counting of failures do.
pub upload_file-keeps :
    (w : World) (hash : Hash) (lease : Lease) (kind : Text) (f : File) (P : Machine → Type 0)
    → ((m : Machine) → P m → P (wait w m))
    → ((m : Machine) → P m → P (record m { upload_failures = suc m.upload_failures }))
    → (m : Machine) → P m
    → P (upload_file w hash lease kind f m).1
unfolding upload_file
upload_file-keeps w hash lease kind f P waits fails m h =
    try_put-keeps (worker_site w) (object_key lease kind (w.uuid m.waits) f.name)
      (w.opened m.waits f)
      (λ n.
        entry_at hash lease kind (w.opened m.waits f 0) (length (w.opened m.waits f (stat_at n)))
          (w.uuid m.waits) f.name)
      P (λ n s a q. waits s q) fails (λ t s q. waits s q) 5 0 m h
