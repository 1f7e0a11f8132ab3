-- ===== src/Worker/Run.antt =====
-- `Worker.run`: the loop that leases jobs into a pool of threads. A round of the environment says
-- which futures are done at its start, how long its waits and calls last, and what is answered.
-- `execute` lets no exception out, so `future.result()` raises nothing.
pub mod Pool
mod Tests
use rungrid.Common.{
  ℕ, zero, suc, ◌+◌, ◌-◌, Bool, true, false, not, Option, none, some, List, [], ◌∷◌, ◌++◌, Text,
  ltb, leb, length, if◌then◌else◌,
}
use rungrid.Wire.{Method, register_worker, lease_job, heartbeat, release_worker, Status, Lease}

-- What `LeaseJob` answers.
pub data Offer : Type 0 where
  idle : Offer
  granted : Lease → Offer
  offer_error : Status → Offer

pub record Round : Type 0 where
  pub finished : Lease → Bool
  pub beat : Option Status
  pub offer : Offer
  pub beat_takes : ℕ
  pub lease_takes : ℕ

-- One call: the number of futures and the time when it begins, the time when it is over, and whether it
-- came back without an error.
pub record Asked : Type 0 where
  pub method : Method
  pub busy : ℕ
  pub begun : ℕ
  pub over : ℕ
  pub accepted : Bool

-- `futures` holds the leases that are executed, `started` all that were handed to the pool, the
-- newest first, as in `asked`.
pub record Supervisor : Type 0 where
  pub now : ℕ
  pub futures : List Lease
  pub last_heartbeat : ℕ
  pub started : List Lease
  pub asked : List Asked

-- The futures that are not done.
unfoldable pub sweep : (Lease → Bool) → List Lease → List Lease
sweep finished [] = []
sweep finished (l ∷ ls) = let rest = sweep finished ls in if finished l then rest else l ∷ rest

abbrev pub is_none : Option Status → Bool
is_none none = true
is_none (some code) = false

abbrev pub error_of : Offer → Option Status
error_of (offer_error code) = some code
error_of _ = none

abbrev pub ask : Method → ℕ → Option Status → Supervisor → Supervisor
ask method takes error s = record s {
  now = s.now + takes;
  asked =
      record {
        method = method;
        busy = length s.futures;
        begun = s.now;
        over = s.now + takes;
        accepted = is_none error;
      }
      ∷ s.asked;
}

abbrev pub pause : ℕ → Supervisor → Supervisor
pause t s = record s { now = s.now + t }

-- `self.stopping.wait(1)` after an error of the control plane.
abbrev pub recover : Supervisor → Supervisor
recover s = pause 1000 s

abbrev pub take_offer : Offer → Supervisor → Supervisor
take_offer idle s = pause 200 s
take_offer (granted l) s = record s { futures = s.futures ++ l ∷ []; started = l ∷ s.started }
take_offer (offer_error code) s = recover s

-- The body of the loop behind the heartbeat.
unfoldable pub lease_round : ℕ → Round → Supervisor → Supervisor
lease_round cpu r s =
    if leb cpu (length s.futures)
    then pause 100 s
    else take_offer r.offer (ask lease_job r.lease_takes (error_of r.offer) s)

abbrev pub after_beat : ℕ → Round → Option Status → Supervisor → Supervisor
after_beat cpu r none s = lease_round cpu r (record s { last_heartbeat = s.now })
after_beat cpu r (some code) s = recover s

-- One round of `while not self.stopping.is_set()`.
unfoldable pub run_round : ℕ → Round → Supervisor → Supervisor
unfolding sweep lease_round
run_round cpu r s =
    let s' = record s { futures = sweep r.finished s.futures } in
    if ltb 3000 (s'.now - s'.last_heartbeat)
    then after_beat cpu r r.beat (ask heartbeat r.beat_takes r.beat s')
    else lease_round cpu r s'

unfoldable pub run_rounds : ℕ → List Round → Supervisor → Supervisor
unfolding run_round
run_rounds cpu [] s = s
run_rounds cpu (r ∷ rs) s = run_rounds cpu rs (run_round cpu r s)

-- `RegisterWorker`
abbrev pub registering : ℕ → Option Status → Supervisor
registering now refused =
    ask register_worker 0 refused
      (record { now = now; futures = []; last_heartbeat = 0; started = []; asked = [] })

-- A refused registration raises out of `run`; else come the rounds until the worker is stopped, and
-- `ReleaseWorker`, with the two answers.
unfoldable pub run : ℕ → ℕ → Option Status → List Round → Option Status → Supervisor
unfolding run_rounds
run cpu now (some code) rounds released = registering now (some code)
run cpu now none rounds released =
    ask release_worker 0 released (run_rounds cpu rounds (registering now none))
