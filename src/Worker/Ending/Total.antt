-- ===== src/Worker/Ending/Total.antt =====
-- No loop of `execute` runs out of its fuel once the command has exited and its output is free.
use rungrid.Common.{
  ℕ, zero, suc, ◌+◌, ◌≤◌, ◌<◌, ◌≡◌, ◌≢◌, refl, sym, ◌∙◌, inl, inr, true, false, Option, none, some,
  List, [], ◌∷◌, ◌++◌, codes, Text, arith, leb, leb→le, Bool-cases, Option-cases,
}
use rungrid.Wire.{Entry, Lease, start_attempt}
use rungrid.Artifacts.Digest.{Hash}
use rungrid.Worker.State.{
  Machine, World, empty, Process, absent, running, ended, ReturnCode, alive, is_absent, is_running,
  succeeded,
}
use rungrid.Worker.Threads.{wait, wait-Passive, waits-wait}
use rungrid.Worker.Monad.{
  M, Step, value, returned, raised, stuck, then_do, rpc, return_unless_alive,
}
use rungrid.Worker.Execute.{
  kill, join_reader, poll, report_outputs, upload_files, progress, watch, report_exit, report_files,
  publish_outputs, publish_log, log_file, publish, after_exit, supervise, launch, prepare, resume,
  begin, attempt, initial, execute, restore_checkpoint, batches, last_method, leave_directory,
  in_directory, set_up, handle,
}
use rungrid.Worker.Ending.Closing.{FreesBy, Cleaned, clean_up-Cleaned}
use rungrid.Worker.Ending.Steps.{
  Kept, Goes, Goes-then, rpc-Goes, upload_files-Goes, report_outputs-Goes, progress-Goes,
}

-- At least `k` waits, and a command that was started.
abbrev Spawned : ℕ → Machine → Type 0
Spawned k m = (k ≤ m.waits) × (is_absent m.process ≡ false)

Spawned-Kept : (w : World) (k : ℕ) → Kept w (Spawned k)
Spawned-Kept w k = record {
  on_wait =
      λ m h. (omega (arith, (wait-Passive w m).waits-le), (wait-Passive w m).still_spawned h.1);
  on_failure = λ m h. h;
  on_calls = λ m cs h. h;
  on_uploaded = λ m us h. h;
  on_queue = λ m q h. h;
}

abbrev Anything : Machine → Type 0
Anything m = Unit

Anything-Kept : (w : World) → Kept w Anything
Anything-Kept w = record {
  on_wait = λ m h. tt;
  on_failure = λ m h. tt;
  on_calls = λ m cs h. tt;
  on_uploaded = λ m us h. tt;
  on_queue = λ m q h. tt;
}

poll_spawned :
    (exited : Option ReturnCode) (p : Process)
    → is_absent p ≡ false
    → poll exited p ≡ none
    → exited ≡ none
unfolding poll
poll_spawned exited absent h e = cc
poll_spawned exited running h e = e
poll_spawned exited (ended c) h e = cc

-- From the `n`-th wait on, the command has exited.
abbrev pub ExitsBy : World → ℕ → Type 0
ExitsBy w n = (k : ℕ) → n ≤ k → w.exit_code k ≢ none

poll_early :
    (w : World) (n : ℕ) (m : Machine)
    → ExitsBy w n
    → is_absent m.process ≡ false
    → poll (w.exit_code m.waits) m.process ≡ none
    → m.waits < n
poll_early w n m exits s e = elim (Bool-cases (leb n m.waits)) [
  | inl late ↦
      absurd
        (exits m.waits (leb→le n m.waits late) (poll_spawned (w.exit_code m.waits) m.process s e))
  | inr early ↦ ground arith
]

Spawned-wait : (w : World) (k : ℕ) (m : Machine) → Spawned k m → Spawned (suc k) (wait w m)
Spawned-wait w k m h = (omega (arith, waits-wait w m), (wait-Passive w m).still_spawned h.1)

module _ (w : World) (hash : Hash) (lease : Lease) where
  watch-Goes :
      (n : ℕ)
      → ExitsBy w n
      → (fuel : ℕ) (m : Machine) → is_absent m.process ≡ false
      → n < m.waits + fuel
      → 0 < fuel
      → Goes Anything (watch w hash lease fuel m)
  unfolding watch
  watch-Goes n exits zero m s lt pos = absurd (omega arith)
  watch-Goes n exits (suc fuel) m s lt pos =
      elim (Option-cases (poll (w.exit_code m.waits) m.process)) [
        | inr (code, e) ↦ rw (e, watch) tt
        | inl e ↦
            rw (e, watch)
              (elim (Bool-cases (alive m)) [
                | inr a ↦ rw (a) tt
                | inl a ↦
                    let early = poll_early w n m exits s e in
                    rw (a) (
                      Goes-then (Spawned (suc m.waits)) Anything _ _
                        (Goes-then (Spawned m.waits) (Spawned (suc m.waits))
                          (progress w hash lease m) _
                          (progress-Goes w hash lease (Spawned m.waits) (Spawned-Kept w m.waits) m
                            (omega arith, s))
                          (λ u m' h'. Spawned-wait w m.waits m' h'))
                        (λ u m' h'.
                          watch-Goes n exits fuel m' h'.1 (omega (arith, h'.0, early, lt))
                            (omega (arith, early, lt))))
              ])
      ]

  any : Kept w Anything
  any = Anything-Kept w

  report_files-Goes :
      (code : ReturnCode) (log outs : List (Entry × Text)) (m : Machine)
      → Goes Anything (report_files w hash lease code log outs m)
  unfolding report_files report_exit
  report_files-Goes code log outs m =
      Goes-then Anything Anything (report_outputs w hash lease (batches (log ++ outs)) m)
        (λ u. report_exit w hash lease code)
        (report_outputs-Goes w hash lease Anything any (batches (log ++ outs)) m tt)
        (λ u m' h'.
          rpc-Goes w hash lease Anything any (last_method w hash lease (succeeded code)) _ m' tt)

  publish_outputs-Goes :
      (code : ReturnCode) (log : List (Entry × Text)) (m : Machine)
      → Goes Anything (publish_outputs w hash lease code log m)
  unfolding publish_outputs
  publish_outputs-Goes code log m =
      Goes-then Anything Anything
        (upload_files w hash lease (codes "output") (w.by_path m.outputs) m)
        (report_files w hash lease code log)
        (upload_files-Goes w hash lease Anything any (codes "output") (w.by_path m.outputs) m tt)
        (λ outs m' h'. report_files-Goes code log outs m')

  publish-Goes : (code : ReturnCode) (m : Machine) → Goes Anything (publish w hash lease code m)
  unfolding publish publish_log
  publish-Goes code m =
      Goes-then Anything Anything (progress w hash lease m) (λ u. publish_log w hash lease code)
        (progress-Goes w hash lease Anything any m tt)
        (λ u m' h'.
          Goes-then Anything Anything
            (upload_files w hash lease (codes "log") (log_file w hash lease m' ∷ []) m')
            (publish_outputs w hash lease code)
            (upload_files-Goes w hash lease Anything any (codes "log")
              (log_file w hash lease m' ∷ []) m' tt)
            (λ log m'' h''. publish_outputs-Goes code log m''))

  alive-Goes :
      (m : Machine) (f : M (Unit {0}))
      → Goes Anything (f m)
      → Goes Anything (then_do (return_unless_alive m) (λ u. f))
  unfolding return_unless_alive
  alive-Goes m f h = elim (Bool-cases (alive m)) [ inl a ↦ rw (a) h | inr a ↦ rw (a) tt ]

  after_exit-Goes :
      (code : ReturnCode) (m : Machine) → Goes Anything (after_exit w hash lease code m)
  unfolding after_exit
  after_exit-Goes code m =
      let m₁ = join_reader w (kill w m) in
      alive-Goes m₁ (publish w hash lease code) (publish-Goes code m₁)

  module _ (n fuel : ℕ) (exits : ExitsBy w n) (enough : n < fuel) where
    supervise-Goes :
        (m : Machine) → is_absent m.process ≡ false → Goes Anything (supervise w hash lease fuel m)
    unfolding supervise
    supervise-Goes m s =
        Goes-then Anything Anything (watch w hash lease fuel m) (after_exit w hash lease)
          (watch-Goes n exits fuel m s (omega arith) (omega arith))
          (λ code m' h'. after_exit-Goes code m')

    launch-Goes : (m : Machine) → Goes Anything (launch w hash lease fuel m)
    unfolding launch
    launch-Goes m = elim (Bool-cases (w.spawns m.waits)) [
      | inl r ↦ rw (r) (supervise-Goes (record m { process = running }) refl)
      | inr r ↦ rw (r) tt
    ]

    resume-Goes : (m : Machine) → Goes Anything (resume w hash lease fuel m)
    unfolding resume prepare
    resume-Goes m =
        Goes-then Anything Anything (restore_checkpoint w lease.checkpoint m)
          (λ u. prepare w hash lease fuel) (restore-Goes lease.checkpoint m)
          (λ u m' h'. alive-Goes m' (launch w hash lease fuel) (launch-Goes m'))
      where
        restore-Goes : (e : Option Entry) (m : Machine) → Goes Anything (restore_checkpoint w e m)
        restore-Goes none m = tt
        restore-Goes (some e) m = elim (Bool-cases (w.restores m.waits)) [
          | inl r ↦ rw (r) tt
          | inr r ↦ rw (r) tt
        ]

    leave-Goes :
        (s : Step (Unit {0})) (m : Machine)
        → Goes Anything (s, m)
        → Goes Anything (leave_directory w s m)
    unfolding leave_directory
    leave-Goes (value u) m h = elim (Bool-cases (w.removes m.waits)) [
      | inl r ↦ rw (r) tt
      | inr r ↦ rw (r) tt
    ]
    leave-Goes returned m h = elim (Bool-cases (w.removes m.waits)) [
      | inl r ↦ rw (r) tt
      | inr r ↦ rw (r) tt
    ]
    leave-Goes (raised e) m h = elim (Bool-cases (w.removes m.waits)) [
      | inl r ↦ rw (r) tt
      | inr r ↦ rw (r) tt
    ]
    leave-Goes stuck m h = h

    set_up-Goes : (m : Machine) → Goes Anything (set_up w hash lease fuel m)
    unfolding set_up in_directory
    set_up-Goes m = elim (Bool-cases (w.makes m.waits)) [
      | inl r ↦
          rw (r) (
            leave-Goes (resume w hash lease fuel m).0 (resume w hash lease fuel m).1
              (resume-Goes m))
      | inr r ↦ rw (r) tt
    ]

    attempt-Goes : (m : Machine) → Goes Anything (attempt w hash lease fuel m)
    unfolding attempt begin
    attempt-Goes m = alive-Goes m (begin w hash lease fuel) (
        Goes-then Anything Anything (rpc w start_attempt empty m) (λ u. set_up w hash lease fuel)
          (rpc-Goes w hash lease Anything any start_attempt empty m tt) (λ u m' h'. set_up-Goes m'))

Goes-ne-stuck : {A : Type 0} (r : Step A × Machine) → Goes Anything r → r.0 ≢ stuck
Goes-ne-stuck (value a, m) h e = cc
Goes-ne-stuck (returned, m) h e = cc
Goes-ne-stuck (raised x, m) h e = cc
Goes-ne-stuck (stuck, m) h e = h

execute-Cleaned :
    (w : World) (hash : Hash) (lease : Lease) (n fuel now : ℕ)
    → ExitsBy w n
    → FreesBy w n
    → n < fuel
    → (s : Step (Unit {0})) × (s ≢ stuck) × Cleaned w hash lease s (execute w hash lease fuel now)
unfolding execute
execute-Cleaned w hash lease n fuel now exits frees enough =
    let r = attempt w hash lease fuel (initial w hash lease now) in
    let ends =
      Goes-ne-stuck r (attempt-Goes w hash lease n fuel exits enough (initial w hash lease now)) in
    (
      r.0,
      ends,
      clean_up-Cleaned w hash lease n fuel frees enough r.0 (handle w hash lease r.0 r.1) ends,
    )

-- If from the `n`-th wait of the main thread on the command has exited and the reader is not inside a
-- read of its output, then more than `n` rounds of each loop are enough: the attempt ends, by its
-- last call, by a return or by an exception.
pub execute_total :
    (w : World) (hash : Hash) (lease : Lease) (n fuel now : ℕ)
    → ExitsBy w n
    → FreesBy w n
    → n < fuel
    → (execute w hash lease fuel now).0 ≢ stuck
execute_total w hash lease n fuel now exits frees enough same =
    let (s, ends, clean) = execute-Cleaned w hash lease n fuel now exits frees enough in
    ends (sym clean.0 ∙ same)

-- If from the `n`-th wait of the main thread on the command has exited and the reader is not inside a
-- read of its output, and the fuel of each loop is more than `n` rounds, then, however the attempt
-- ends, also by an exception or without its lease, its command is not running at the end, and the
-- renewing thread has been told to stop.
pub execute_cleans :
    (w : World) (hash : Hash) (lease : Lease) (n fuel now : ℕ)
    → ExitsBy w n
    → FreesBy w n
    → n < fuel
    → let m = (execute w hash lease fuel now).1 in (is_running m.process ≡ false) × (m.done ≡ true)
execute_cleans w hash lease n fuel now exits frees enough =
    let (s, ends, clean) = execute-Cleaned w hash lease n fuel now exits frees enough in
    (clean.1, clean.2)
