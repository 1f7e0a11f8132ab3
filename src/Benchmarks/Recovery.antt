-- ===== src/Benchmarks/Recovery.antt =====
-- `case` of benchmarks/recovery.py. What the cluster answers is given: every `wait` has its own poll.
use rungrid.Common.{
  ℕ, ◌+◌, ◌-◌, Option, none, some, List, [], ◌∷◌, ◌++◌, if◌then◌else◌, Text, codes, text_eq,
  starts_with,
}
use rungrid.Study.Aggregate.{last_of}
use rungrid.Benchmarks.Wait.{Polled, Waited, Ended, result, deadline_exceeded, raised, wait}

pub data Fault : Type 0 where
  worker_kill control_plane_restart : Fault

pub record Cluster : Type 0 where
  pub running : Polled (Unit {0})
  -- The workers of the job's attempts, once it is running.
  pub workers : List Text
  -- `compose("ps", "-q", "worker").splitlines()`, and `docker inspect` of one of them.
  pub containers : List Text
  pub hostname : Text → Text
  -- How long the fault takes.
  pub fault_takes : ℕ
  pub replaced : Polled (Unit {0})
  pub ready : Polled (Unit {0})
  pub completed : Polled (Unit {0})
  pub attempts : List Text
  pub state : Text

pub data CaseError : Type 0 where
  timed_out poll_raised no_attempt worker_not_found not_succeeded : CaseError

pub record Measured : Type 0 where
  pub fault : Fault
  -- The container that was killed.
  pub killed : Option Text
  -- The time to the replacement's lease, or to the ready server, and the time to the end of the job.
  pub first_ms : ℕ
  pub completion_ms : ℕ
  pub attempts : List Text
  pub state : Text

pub data Case (A : Type 0) : Type 0 where
  case_error : CaseError → Case A
  measured : A → Case A

-- The loop over the containers.
unfoldable pub find_target : (Text → Text) → Text → List Text → Option Text
unfolding starts_with
find_target hostname worker [] = none
find_target hostname worker (c ∷ cs) =
    if starts_with worker (hostname c ++ codes "-") then some c else find_target hostname worker cs

abbrev pub time_of : Waited (Unit {0}) → ℕ → Case ℕ
time_of (result r) now = measured now
time_of deadline_exceeded now = case_error timed_out
time_of raised now = case_error poll_raised

abbrev pub waited_time : Option (Ended (Unit {0})) → Case ℕ
waited_time none = case_error timed_out
waited_time (some w) = time_of w.outcome w.time

-- A wait that starts at a time, with the default timeout of 90 s: the time at which it ends.
unfoldable pub wait_until : Polled (Unit {0}) → ℕ → Case ℕ
unfolding wait
wait_until fn now = waited_time (wait fn 90000 now)

module _ (w : Cluster) where
  abbrev pub finish : Measured → Case Measured
  finish m = if text_eq m.state (codes "SUCCEEDED") then measured m else case_error not_succeeded

  abbrev pub complete : Fault → Option Text → ℕ → ℕ → Case ℕ → Case Measured
  complete fault killed start first (case_error e) = case_error e
  complete fault killed start first (measured end) = finish (record {
    fault = fault;
    killed = killed;
    first_ms = first - start;
    completion_ms = end - start;
    attempts = w.attempts;
    state = w.state;
  })

  abbrev pub recovered : Fault → Option Text → ℕ → Case ℕ → Case Measured
  recovered fault killed start (case_error e) = case_error e
  recovered fault killed start (measured first) =
      complete fault killed start first (wait_until w.completed first)

  abbrev pub kill_target : ℕ → Option Text → Case Measured
  kill_target now none = case_error worker_not_found
  kill_target now (some target) =
      let start = now + w.fault_takes in
      recovered worker_kill (some target) start (wait_until w.replaced start)

  abbrev pub kill_worker : ℕ → Option Text → Case Measured
  kill_worker now none = case_error no_attempt
  kill_worker now (some worker) = kill_target now (find_target w.hostname worker w.containers)

  -- The clock starts before the restart.
  abbrev pub break_cluster : Fault → ℕ → Case Measured
  break_cluster worker_kill now = kill_worker now (last_of w.workers)
  break_cluster control_plane_restart now =
      recovered control_plane_restart none now (wait_until w.ready (now + w.fault_takes))

  abbrev pub when_running : Fault → Case ℕ → Case Measured
  when_running fault (case_error e) = case_error e
  when_running fault (measured now) = break_cluster fault now

  unfoldable pub recovery_case : Fault → ℕ → Case Measured
  unfolding wait_until find_target last_of
  recovery_case fault now = when_running fault (wait_until w.running now)
