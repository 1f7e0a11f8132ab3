-- ===== src/Worker/Protocol/Phase.antt =====
-- The order of an attempt's calls as an automaton, and what the main thread's steps do to it.
use rungrid.Common.{
  ◌≡◌, ◌⊎◌, inl, inr, Bool, true, false, List, [], ◌∷◌, Text, Bool-cases, Option-cases,
}
use rungrid.Wire.{Method, start_attempt, report_progress, complete_attempt, fail_attempt, Lease}
use rungrid.Artifacts.Digest.{Hash}
use rungrid.Artifacts.Upload.{Upload, uploaded, lease_lost, storage_error, fell_through}
use rungrid.Worker.State.{Machine, World, Call, Payload, File, alive}
use rungrid.Worker.Threads.{Passive, wait-Passive}
use rungrid.Worker.Monad.{
  M, Step, value, returned, raised, stuck, then_do, rpc, return_unless_alive, upload_file,
  upload_file-keeps, upload_step,
}

-- Where an attempt stands, by the calls that it has made. `broken` is left by no call.
pub data Phase : Type 0 where
  fresh working failing over closed again broken : Phase

-- `StartAttempt` comes first, then reports of progress, then one `CompleteAttempt` or `FailAttempt`.
-- After a refused call the attempt can only be failed, once. After an accepted last call it can be
-- failed once `again`.
abbrev pub next : Phase → Method → Bool → Phase
next fresh start_attempt true = working
next fresh start_attempt false = failing
next working report_progress true = working
next working report_progress false = failing
next working complete_attempt true = over
next working complete_attempt false = failing
next working fail_attempt true = over
next working fail_attempt false = failing
next failing fail_attempt _ = closed
next over fail_attempt _ = again
next _ _ _ = broken

abbrev pub phase_of : List Call → Phase
phase_of [] = fresh
phase_of (c ∷ cs) = next (phase_of cs) c.method c.accepted

abbrev pub At : Phase → Machine → Type 0
At p m = phase_of m.calls ≡ p

-- How a part of the attempt ends that began while the attempt was working.
abbrev pub Ends : {A : Type 0} → Phase → Step A × Machine → Type 0
Ends p (value a, m) = At p m
Ends p (returned, m) = At working m
Ends p (raised e, m) = At working m ⊎ At failing m
Ends p (stuck, m) = At working m

pub Ends-then :
    {A B : Type 0} (p : Phase) (r : Step A × Machine) (f : A → M B)
    → Ends working r
    → ((a : A) (m : Machine) → At working m → Ends p (f a m))
    → Ends p (then_do r f)
Ends-then p (value a, m) f h k = k a m h
Ends-then p (returned, m) f h k = h
Ends-then p (raised e, m) f h k = h
Ends-then p (stuck, m) f h k = h

pub At-Passive : {p : Phase} (m m' : Machine) → Passive m m' → At p m → At p m'
At-Passive m m' s h = rw (s.same_calls) h

pub rpc-Ends :
    (p : Phase) (w : World) (method : Method) (payload : Payload) (m : Machine)
    → next working method true ≡ p
    → next working method false ≡ failing
    → At working m
    → Ends p (rpc w method payload m)
unfolding rpc
rpc-Ends p w method payload m good bad h = elim (Option-cases (w.reply m.waits method payload)) [
  | inl e ↦ rw (e, rpc) (rw ((wait-Passive w m).same_calls, h) good)
  | inr (code, e) ↦ rw (e, rpc) (inr (rw ((wait-Passive w m).same_calls, h) bad))
]

pub alive-Ends : (m : Machine) → At working m → Ends working (return_unless_alive m)
unfolding return_unless_alive
alive-Ends m h = elim (Bool-cases (alive m)) [ inl e ↦ rw (e) h | inr e ↦ rw (e) h ]

pub upload_step-Ends : (u : Upload) (m : Machine) → At working m → Ends working (upload_step u, m)
upload_step-Ends (uploaded e) m h = h
upload_step-Ends lease_lost m h = inl h
upload_step-Ends storage_error m h = inl h
upload_step-Ends fell_through m h = h

pub upload_file-Ends :
    (w : World) (hash : Hash) (lease : Lease) (kind : Text) (f : File) (m : Machine)
    → At working m
    → Ends working (upload_file w hash lease kind f m)
unfolding upload_file
upload_file-Ends w hash lease kind f m h =
    upload_step-Ends _ (upload_file w hash lease kind f m).1 (
      upload_file-keeps w hash lease kind f (At working)
        (λ s q. At-Passive s _ (wait-Passive w s) q) (λ s q. q) m h)
