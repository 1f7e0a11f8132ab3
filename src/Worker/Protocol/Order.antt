-- ===== src/Worker/Protocol/Order.antt =====
-- The order of the calls of a whole attempt.
use rungrid.Common.{
  ℕ, ◌≡◌, ◌≢◌, refl, ◌⊎◌, inl, inr, Bool, true, false, Option, none, some, List, [], ◌∷◌, Text,
  Bool-cases, Option-cases, codes, ◌++◌,
}
use rungrid.Wire.{start_attempt, complete_attempt, fail_attempt, Entry, Lease}
use rungrid.Artifacts.Digest.{Hash}
use rungrid.Worker.State.{Machine, World, Payload, ReturnCode, alive, succeeded, empty}
use rungrid.Worker.Threads.{wait, wait-Passive}
use rungrid.Worker.Monad.{Step, value, returned, raised, stuck, rpc, return_unless_alive}
use rungrid.Worker.Execute.{
  progress, report_outputs, upload_files, watch, kill, join_reader, publish, after_exit, attempt,
  handle, initial, execute, restore_checkpoint, spawn, batches, last_method, report_files,
  report_exit, join_reader-Passive, publish_outputs, publish_log, log_file, supervise, launch,
  prepare, resume, begin, leave_directory, in_directory, set_up,
}
use rungrid.Worker.Ending.Closing.{clean_up-calls}
use rungrid.Worker.Protocol.Phase.{
  Phase, fresh, working, failing, over, again, broken, phase_of, At, Ends, Ends-then, At-Passive,
  rpc-Ends, alive-Ends,
}
use rungrid.Worker.Protocol.Parts.{
  upload_files-Ends, report_outputs-Ends, progress-Ends, watch-Ends,
}

module _ (w : World) (hash : Hash) (lease : Lease) where
  last-Ends :
      (b : Bool) (payload : Payload) (m : Machine)
      → At working m
      → Ends over (rpc w (last_method w hash lease b) payload m)
  last-Ends true payload m h = rpc-Ends over w complete_attempt payload m refl refl h
  last-Ends false payload m h = rpc-Ends over w fail_attempt payload m refl refl h

  report_files-Ends :
      (code : ReturnCode) (log outs : List (Entry × Text)) (m : Machine)
      → At working m
      → Ends over (report_files w hash lease code log outs m)
  unfolding report_files report_exit
  report_files-Ends code log outs m h =
      Ends-then over (report_outputs w hash lease (batches (log ++ outs)) m)
        (λ u. report_exit w hash lease code)
        (report_outputs-Ends w hash lease (batches (log ++ outs)) m h)
        (λ u m' h'. last-Ends (succeeded code) _ m' h')

  publish_outputs-Ends :
      (code : ReturnCode) (log : List (Entry × Text)) (m : Machine)
      → At working m
      → Ends over (publish_outputs w hash lease code log m)
  unfolding publish_outputs
  publish_outputs-Ends code log m h =
      Ends-then over (upload_files w hash lease (codes "output") (w.by_path m.outputs) m)
        (report_files w hash lease code log)
        (upload_files-Ends w hash lease (codes "output") (w.by_path m.outputs) m h)
        (λ outs m' h'. report_files-Ends code log outs m' h')

  publish-Ends :
      (code : ReturnCode) (m : Machine) → At working m → Ends over (publish w hash lease code m)
  unfolding publish publish_log
  publish-Ends code m h =
      Ends-then over (progress w hash lease m) (λ u. publish_log w hash lease code)
        (progress-Ends w hash lease m h)
        (λ u m' h'.
          Ends-then over
            (upload_files w hash lease (codes "log") (log_file w hash lease m' ∷ []) m')
            (publish_outputs w hash lease code)
            (upload_files-Ends w hash lease (codes "log") (log_file w hash lease m' ∷ []) m' h')
            (λ log m'' h''. publish_outputs-Ends code log m'' h''))

  join_reader-At : (m : Machine) → At working m → At working (join_reader w m)
  join_reader-At m h = At-Passive m (join_reader w m) (join_reader-Passive w m) h

  after_exit-Ends :
      (code : ReturnCode) (m : Machine) → At working m → Ends over (after_exit w hash lease code m)
  unfolding after_exit kill
  after_exit-Ends code m h =
      let m₁ = join_reader w (kill w m) in
      Ends-then over (return_unless_alive m₁) (λ u. publish w hash lease code)
        (alive-Ends m₁ (join_reader-At (kill w m) h)) (λ u m₂ h₂. publish-Ends code m₂ h₂)

  restore-Ends :
      (e : Option Entry) (m : Machine) → At working m → Ends working (restore_checkpoint w e m)
  restore-Ends none m h = h
  restore-Ends (some e) m h =
      let later = At-Passive m (wait w m) (wait-Passive w m) h in
      elim (Bool-cases (w.restores m.waits)) [ inl r ↦ rw (r) later | inr r ↦ rw (r) (inl later) ]

  spawn-Ends : (m : Machine) → At working m → Ends working (spawn w m)
  spawn-Ends m h = elim (Bool-cases (w.spawns m.waits)) [
    | inl r ↦ rw (r) h
    | inr r ↦ rw (r) (inl h)
  ]

  supervise-Ends :
      (fuel : ℕ) (m : Machine) → At working m → Ends over (supervise w hash lease fuel m)
  unfolding supervise
  supervise-Ends fuel m h =
      Ends-then over (watch w hash lease fuel m) (after_exit w hash lease)
        (watch-Ends w hash lease fuel m h) after_exit-Ends

  prepare-Ends : (fuel : ℕ) (m : Machine) → At working m → Ends over (prepare w hash lease fuel m)
  unfolding prepare launch
  prepare-Ends fuel m h =
      Ends-then over (return_unless_alive m) (λ u. launch w hash lease fuel) (alive-Ends m h)
        (λ u m' h'.
          Ends-then over (spawn w m') (λ u'. supervise w hash lease fuel) (spawn-Ends m' h')
            (λ u' m'' h''. supervise-Ends fuel m'' h''))

  resume-Ends : (fuel : ℕ) (m : Machine) → At working m → Ends over (resume w hash lease fuel m)
  unfolding resume
  resume-Ends fuel m h =
      Ends-then over (restore_checkpoint w lease.checkpoint m) (λ u. prepare w hash lease fuel)
        (restore-Ends lease.checkpoint m h) (λ u m' h'. prepare-Ends fuel m' h')

  -- The directory cannot be removed at some time.
  abbrev pub Refuses : Type 0
  Refuses = (k : ℕ) × (w.removes k ≡ false)

  -- How the body of the `try` block ends.
  abbrev Leaves : {A : Type 0} → Step A × Machine → Type 0
  Leaves (value a, m) = At over m
  Leaves (returned, m) = At working m ⊎ At fresh m
  Leaves (raised e, m) = (At working m ⊎ At failing m) ⊎ (At over m × Refuses)
  Leaves (stuck, m) = At working m

  wait-At : (p : Phase) (m : Machine) → At p m → At p (wait w m)
  wait-At p m h = At-Passive m (wait w m) (wait-Passive w m) h

  leave-Leaves :
      (s : Step (Unit {0})) (m : Machine) → Ends over (s, m) → Leaves (leave_directory w s m)
  unfolding leave_directory
  leave-Leaves (value u) m h = elim (Bool-cases (w.removes m.waits)) [
    | inl r ↦ rw (r) (wait-At over m h)
    | inr r ↦ rw (r) (inr (wait-At over m h, (m.waits, r)))
  ]
  leave-Leaves returned m h = elim (Bool-cases (w.removes m.waits)) [
    | inl r ↦ rw (r) (inl (wait-At working m h))
    | inr r ↦ rw (r) (inl (inl (wait-At working m h)))
  ]
  leave-Leaves (raised e) m (inl h) = elim (Bool-cases (w.removes m.waits)) [
    | inl r ↦ rw (r) (inl (inl (wait-At working m h)))
    | inr r ↦ rw (r) (inl (inl (wait-At working m h)))
  ]
  leave-Leaves (raised e) m (inr h) = elim (Bool-cases (w.removes m.waits)) [
    | inl r ↦ rw (r) (inl (inr (wait-At failing m h)))
    | inr r ↦ rw (r) (inl (inr (wait-At failing m h)))
  ]
  leave-Leaves stuck m h = h

  set_up-Leaves : (fuel : ℕ) (m : Machine) → At working m → Leaves (set_up w hash lease fuel m)
  unfolding set_up in_directory
  set_up-Leaves fuel m h = elim (Bool-cases (w.makes m.waits)) [
    | inl r ↦ rw (r) (
        leave-Leaves (resume w hash lease fuel m).0 (resume w hash lease fuel m).1
          (resume-Ends fuel m h))
    | inr r ↦ rw (r) (inl (inl h))
  ]

  abbrev sent_from : Machine → Machine
  sent_from m = record (wait w m) {
    calls = record { method = start_attempt; payload = empty; accepted = true } ∷ (wait w m).calls;
  }

  begin-Leaves : (fuel : ℕ) (m : Machine) → At fresh m → Leaves (begin w hash lease fuel m)
  unfolding begin
  begin-Leaves fuel m h = elim (Option-cases (w.reply m.waits start_attempt empty)) [
    | inl e ↦
        rw (e, rpc) (set_up-Leaves fuel (sent_from m) (rw ((wait-Passive w m).same_calls, h) refl))
    | inr (code, e) ↦ rw (e, rpc) (inl (inr (rw ((wait-Passive w m).same_calls, h) refl)))
  ]

  attempt-Leaves : (fuel : ℕ) (m : Machine) → At fresh m → Leaves (attempt w hash lease fuel m)
  unfolding attempt return_unless_alive
  attempt-Leaves fuel m h = elim (Bool-cases (alive m)) [
    | inl a ↦ rw (a) (begin-Leaves fuel m h)
    | inr a ↦ rw (a) (inr h)
  ]

  -- The calls are in order, and an attempt is failed after its accepted last call only if its directory
  -- cannot be removed.
  abbrev pub InOrder : Phase → Type 0
  InOrder p = (p ≢ broken) × (p ≡ again → Refuses)

  -- The failure that the handler reports is in its place after whatever the body did.
  fail-InOrder :
      (payload : Payload) (m : Machine)
      → (At working m ⊎ At failing m) ⊎ (At over m × Refuses)
      → InOrder (phase_of (rpc w fail_attempt payload m).1.calls)
  unfolding rpc
  fail-InOrder payload m (inl (inl h)) =
      elim (Option-cases (w.reply m.waits fail_attempt payload)) [
        | inl e ↦ rw (e, rpc) (rw ((wait-Passive w m).same_calls, h) (λ q. cc, λ q. cc))
        | inr (code, e) ↦ rw (e, rpc) (rw ((wait-Passive w m).same_calls, h) (λ q. cc, λ q. cc))
      ]
  fail-InOrder payload m (inl (inr h)) = rw ((wait-Passive w m).same_calls, h) (λ q. cc, λ q. cc)
  fail-InOrder payload m (inr (h, r)) = rw ((wait-Passive w m).same_calls, h) (λ q. cc, λ q. r)

  handle-InOrder :
      (s : Step (Unit {0})) (m : Machine)
      → Leaves (s, m)
      → InOrder (phase_of (handle w hash lease s m).calls)
  unfolding handle
  handle-InOrder (value u) m h = rw (h) (λ q. cc, λ q. cc)
  handle-InOrder returned m (inl h) = rw (h) (λ q. cc, λ q. cc)
  handle-InOrder returned m (inr h) = rw (h) (λ q. cc, λ q. cc)
  handle-InOrder stuck m h = rw (h) (λ q. cc, λ q. cc)
  handle-InOrder (raised e) m h = elim (Bool-cases (alive m)) [
    | inl a ↦ rw (a) (fail-InOrder _ m h)
    | inr a ↦ rw (a) (raised-InOrder m h)
  ]
    where
      raised-InOrder :
          (m : Machine)
          → (At working m ⊎ At failing m) ⊎ (At over m × Refuses)
          → InOrder (phase_of m.calls)
      raised-InOrder m (inl (inl h)) = rw (h) (λ q. cc, λ q. cc)
      raised-InOrder m (inl (inr h)) = rw (h) (λ q. cc, λ q. cc)
      raised-InOrder m (inr (h, r)) = rw (h) (λ q. cc, λ q. cc)

  -- Whatever happens around it, an attempt makes its calls in this order: `StartAttempt` first; if
  -- that is accepted, any number of accepted `ReportProgress`; then at most one `CompleteAttempt` or
  -- `FailAttempt`. After a refused call the only call that can follow is one `FailAttempt`. After
  -- an accepted `CompleteAttempt` or `FailAttempt` none follows, or one `FailAttempt`, but that only if
  -- the temporary directory could not be removed.
  pub execute_ordered : (fuel now : ℕ) → InOrder (phase_of (execute w hash lease fuel now).1.calls)
  unfolding execute
  execute_ordered fuel now =
      let r = attempt w hash lease fuel (initial w hash lease now) in
      let m = handle w hash lease r.0 r.1 in
      rw (clean_up-calls w hash lease fuel r.0 m)
        (handle-InOrder r.0 r.1 (attempt-Leaves fuel (initial w hash lease now) refl))
