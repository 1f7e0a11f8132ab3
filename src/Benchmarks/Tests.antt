-- ===== src/Benchmarks/Tests.antt =====
-- A wait for a service that answers at its third call, and the batches of 1001 jobs.
use rungrid.Common.{
  true, Text, text_eq, if◌then◌else◌, arith, range_from, ℕ, zero, suc, ◌≤◌, ◌<◌, ◌≡◌, refl, some,
  [], ◌∷◌, length, codes, All, map,
}
use rungrid.Study.Aggregate.{last_of}
use rungrid.Benchmarks.Await.{Sample, Database, elapsed, await_jobs}
use rungrid.Benchmarks.Percentile.{percentile, hundredths, Orders, percentile-Orders}
use rungrid.Benchmarks.Recovery.{Cluster, Measured, measured, worker_kill, recovery_case}
use rungrid.Benchmarks.Measures.{IsRecovered, recovery_case-kills}
use rungrid.Benchmarks.Wait.{ready, falsy, os_error, result, Polled, wait}
use rungrid.Benchmarks.Batches.{submitted, job_key, flatten, submitted-flatten}

abbrev restarted : Polled ℕ
restarted = record {
  poll = λ n. elim n [ zero ↦ os_error | suc m ↦ elim m [ zero ↦ falsy | suc k ↦ ready 7 ] ];
  takes = λ n. 3;
}

wait_runs : wait restarted 90000 10 ≡ some (record { outcome = result 7; calls = 3; time = 119 })
unfolding wait
wait_runs = refl

submitted_runs : map length (submitted 1001) ≡ 1000 ∷ 1 ∷ []
unfolding submitted
submitted_runs = refl

submitted-flatten_example :
    (flatten (submitted 1001) ≡ range_from 0 1001)
    × All (λ b. (0 < length b) × (length b ≤ 1000)) (submitted 1001)
    × ((i j : ℕ) → job_key (codes "run") i ≡ job_key (codes "run") j → i ≡ j)
submitted-flatten_example = submitted-flatten 1001 (codes "run")

abbrev sample_at : Text → Sample
sample_at state = record {
  id = codes "j";
  state = state;
  attempt_number = codes "1";
  latency = codes "5";
  leased_at = codes "9";
}

-- The one job has succeeded at the third poll.
abbrev database : Database
database = record {
  reads = λ n. true;
  rows = λ n. elim n [
    | zero ↦ sample_at (codes "QUEUED") ∷ []
    | suc m ↦ elim m [
      | zero ↦ []
      | suc k ↦ sample_at (codes "SUCCEEDED") ∷ sample_at (codes "SUCCEEDED") ∷ []
    ]
  ];
  takes = λ n. 40;
}

await_jobs_runs :
    await_jobs database 1 7200000
    ≡ some (elapsed (sample_at (codes "SUCCEEDED") ∷ sample_at (codes "SUCCEEDED") ∷ []) 1120)
unfolding await_jobs
await_jobs_runs = refl

percentile_runs : percentile (40 ∷ 10 ∷ 20 ∷ []) 95 ≡ hundredths 3800
unfolding percentile
percentile_runs = refl

percentile-Orders_example : Orders (40 ∷ 10 ∷ 20 ∷ []) 50 95
percentile-Orders_example =
    percentile-Orders (40 ∷ 10 ∷ 20 ∷ []) 50 95 (omega arith) (omega arith) (λ e. cc)

abbrev at_once : ℕ → Polled (Unit {0})
at_once ms = record { poll = λ n. ready tt; takes = λ n. ms }

abbrev cluster : Cluster
cluster = record {
  running = at_once 10;
  workers = codes "b-77" ∷ [];
  containers = codes "c1" ∷ codes "c2" ∷ [];
  hostname = λ c. if text_eq c (codes "c1") then codes "a" else codes "b";
  fault_takes = 5;
  replaced = at_once 20;
  ready = at_once 30;
  completed = at_once 100;
  attempts = codes "a1" ∷ codes "a2" ∷ [];
  state = codes "SUCCEEDED";
}

abbrev recovery : Measured
recovery = record {
  fault = worker_kill;
  killed = some (codes "c2");
  first_ms = 20;
  completion_ms = 120;
  attempts = codes "a1" ∷ codes "a2" ∷ [];
  state = codes "SUCCEEDED";
}

recovery_case_runs : recovery_case cluster worker_kill 1000 ≡ measured recovery
unfolding recovery_case text_eq
recovery_case_runs = refl

recovery_case-kills_example :
    (target : Text) × (cluster.hostname target ≡ codes "b") × IsRecovered (some target) recovery
unfolding last_of text_eq
recovery_case-kills_example =
    recovery_case-kills cluster 1000 (codes "b") (codes "77") recovery refl (omega arith)
      (omega arith) recovery_case_runs
