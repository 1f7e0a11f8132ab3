-- ===== src/Benchmarks/Case.antt =====
-- `run_case` of benchmarks/run.py: submission, wait, summary and assertion. What Docker, the server and
-- the database answer is the parameter `Bench`; times are in milliseconds, and rates are quotients.
use rungrid.Common.{
  ℕ, suc, ◌-◌, min, max, Bool, true, false, Option, none, some, List, [], ◌∷◌, ◌++◌, map, length,
  ◌==◌, if◌then◌else◌, Text, codes, text_eq,
}
use rungrid.Sdk.Client.{HttpRequest, batch, request}
use rungrid.Study.Submit.{Definition}
use rungrid.Benchmarks.Batches.{submitted, job_key}
use rungrid.Benchmarks.Await.{
  Sample, ids_where, Database, Awaited, elapsed, timed_out, unread, await_jobs,
}
use rungrid.Benchmarks.Percentile.{Percentile, percentile}
use rungrid.Benchmarks.Rows.{Keyed, id_codes, all_in, database_samples}

-- What the summary holds of the machine.
pub record Host : Type 0 where
  pub revision : Text
  pub dirty : Bool
  pub platform : Text
  pub python : Text
  pub docker : Text
  pub compose_config : Text
  pub timestamp : Text

pub record Bench : Type 0 where
  pub run_id : Text
  -- `compose("stop", "worker")` and `compose("up", ...)` return.
  pub stops : Bool
  pub starts : Bool
  pub url : Text
  pub dumps : List Definition → Text
  -- The text of the `uuid4` of the request with this number, and if the server answers a request.
  pub fresh : ℕ → Text
  pub answers : HttpRequest → Bool
  pub submit_ms : ℕ
  pub like : Text → Text → Bool
  -- Whether a query succeeds, the rows of the database, and how long the query takes, by the number of queries before.
  pub reads : ℕ → Bool
  pub rows : ℕ → List Keyed
  pub takes : ℕ → ℕ
  -- `float` and `datetime.fromisoformat`, for the texts of the database.
  pub float : Text → Option ℕ
  pub from_iso : Text → Option ℕ
  -- The directory of the case and its first two files are written; git and Docker answer, and the summary
  -- is written.
  pub records : Bool
  pub describes : Bool
  pub host : Host

pub record Summary : Type 0 where
  pub run_id : Text
  pub jobs : ℕ
  pub workers : ℕ
  pub workload : Text
  pub submit_ms : ℕ
  pub submission_rate : ℕ × ℕ
  pub elapsed_ms : ℕ
  pub end_to_end_rate : ℕ × ℕ
  pub schedule_span : ℕ
  pub scheduling_rate : Option (ℕ × ℕ)
  -- Of 50, 95 and 99 percent.
  pub latencies : List Percentile
  pub succeeded : ℕ
  pub attempts : ℕ
  pub host : Host

pub data CaseOutcome : Type 0 where
  stop_failed batch_failed up_failed bad_run_id unrecorded bad_value undescribed : CaseOutcome
  query_failed : ℕ → CaseOutcome
  case_timed_out : ℕ → CaseOutcome
  failed_jobs case_done : Summary → CaseOutcome

-- The requests that were sent, and how the case ends.
pub record Ran : Type 0 where
  pub sent : List HttpRequest
  pub outcome : CaseOutcome

unfoldable pub command_of : Text → List Text
unfolding text_eq
command_of workload =
    if text_eq workload (codes "noop")
    then codes "true" ∷ []
    else codes "python" ∷ codes "-c" ∷ codes "sum(i*i for i in range(10000))" ∷ []

unfoldable pub first_rows : List Sample → List Sample
unfolding text_eq
first_rows [] = []
first_rows (r ∷ rs) =
    let rest = first_rows rs in if text_eq r.attempt_number (codes "1") then r ∷ rest else rest

abbrev pub put_value : Option ℕ → Option (List ℕ) → Option (List ℕ)
put_value none rest = none
put_value (some n) none = none
put_value (some n) (some ns) = some (n ∷ ns)

-- `[parse(t) for t in texts]`
unfoldable pub parse_all : (Text → Option ℕ) → List Text → Option (List ℕ)
parse_all parse [] = some []
parse_all parse (t ∷ ts) = put_value (parse t) (parse_all parse ts)

-- `max(x, *xs)` and `min(x, *xs)`
abbrev pub greatest : ℕ → List ℕ → ℕ
greatest x [] = x
greatest x (y ∷ ys) = max x (greatest y ys)

abbrev pub least : ℕ → List ℕ → ℕ
least x [] = x
least x (y ∷ ys) = min x (least y ys)

unfoldable pub span_of : List ℕ → ℕ
span_of [] = 0
span_of (x ∷ []) = 0
span_of (x ∷ y ∷ ys) = greatest x (y ∷ ys) - least x (y ∷ ys)

abbrev pub is_succeeded : Text → Bool
is_succeeded state = text_eq state (codes "SUCCEEDED")

module _ (b : Bench) (workload : Text) where
  unfoldable pub job_definition : ℕ → Definition
  unfolding job_key command_of
  job_definition i = record {
    name = codes "bench-" ++ workload;
    command = command_of workload;
    environment = [];
    cpu = 1;
    memory_mb = 64;
    gpu = 0;
    max_attempts = 3;
    timeout_seconds = 60;
    idempotency_key = job_key b.run_id i;
    artifact_prefix = codes "benchmarks/" ++ b.run_id;
  }

  abbrev pub batch_request : ℕ → List ℕ → HttpRequest
  batch_request k numbers = request b.url (batch (b.dumps (map job_definition numbers))) (b.fresh k)

  abbrev pub put_sent : HttpRequest → List HttpRequest × Bool → List HttpRequest × Bool
  put_sent r rest = (r ∷ rest.0, rest.1)

  -- The batches, up to the first one that raises.
  unfoldable pub submit_batches : ℕ → List (List ℕ) → List HttpRequest × Bool
  submit_batches k [] = ([], true)
  submit_batches k (numbers ∷ rest) =
      let r = batch_request k numbers in
      let others = submit_batches (suc k) rest in
      if b.answers r then put_sent r others else (r ∷ [], false)

  module _ (count workers timeout : ℕ) where
    abbrev pub rows_or_none : Option (List Sample) → List Sample
    rows_or_none none = []
    rows_or_none (some rows) = rows

    -- The queries, whose assertion is met.
    abbrev pub queries : Database
    queries = record {
      reads = b.reads;
      rows = λ n. rows_or_none (database_samples b.like b.run_id (b.rows n));
      takes = b.takes;
    }

    abbrev pub summary_of : List Sample → ℕ → List ℕ → List ℕ → Summary
    summary_of rows now latencies leases = record {
      run_id = b.run_id;
      jobs = count;
      workers = workers;
      workload = workload;
      submit_ms = b.submit_ms;
      submission_rate = (count, b.submit_ms);
      elapsed_ms = now;
      end_to_end_rate = (count, now);
      schedule_span = span_of leases;
      scheduling_rate = if span_of leases == 0 then none else some (count - 1, span_of leases);
      latencies = percentile latencies 50 ∷ percentile latencies 95 ∷ percentile latencies 99 ∷ [];
      succeeded = length (ids_where is_succeeded rows);
      attempts = length rows;
      host = b.host;
    }

    abbrev pub judged : Summary → CaseOutcome
    judged s = if s.succeeded == count then case_done s else failed_jobs s

    -- With the answers of git and Docker, or not.
    abbrev pub described : Bool → Summary → CaseOutcome
    described true s = judged s
    described false s = undescribed

    -- With the rows and samples written, or not.
    abbrev pub recorded : Bool → CaseOutcome → CaseOutcome
    recorded true o = o
    recorded false o = unrecorded

    abbrev pub summarized : List Sample → ℕ → Option (List ℕ) → Option (List ℕ) → CaseOutcome
    summarized rows now none leases = bad_value
    summarized rows now (some latencies) none = bad_value
    summarized rows now (some latencies) (some leases) =
        described b.describes (summary_of rows now latencies leases)

    -- From the end of the loop on.
    abbrev pub awaited : Option Awaited → Option CaseOutcome
    awaited none = none
    awaited (some (elapsed rows now)) = some (
        recorded b.records (
          summarized rows now (parse_all b.float (map (λ r. r.latency) (first_rows rows)))
            (parse_all b.from_iso (map (λ r. r.leased_at) (first_rows rows)))))
    awaited (some (unread n)) = some (query_failed n)
    awaited (some (timed_out now)) = some (case_timed_out now)

    -- With the workers up or not, an id that the assertion accepts or not, and the end of the loop.
    abbrev pub watched : Bool → Bool → Option Awaited → Option CaseOutcome
    watched false accepted a = some up_failed
    watched true false a = some bad_run_id
    watched true true a = awaited a

    unfoldable pub watch_jobs : Option CaseOutcome
    unfolding all_in await_jobs database_samples ids_where first_rows parse_all percentile span_of
    watch_jobs = watched b.starts (all_in id_codes b.run_id) (await_jobs queries count timeout)

    abbrev pub with_sent : List HttpRequest → Option CaseOutcome → Option Ran
    with_sent sent none = none
    with_sent sent (some o) = some (record { sent = sent; outcome = o })

    abbrev pub after_submission : List HttpRequest × Bool → Option Ran
    after_submission (sent, false) = some (record { sent = sent; outcome = batch_failed })
    after_submission (sent, true) = with_sent sent watch_jobs

    abbrev pub after_stop : Bool → Option Ran
    after_stop false = some (record { sent = []; outcome = stop_failed })
    after_stop true = after_submission (submit_batches 0 (submitted count))

    -- `none` means that the fuel of the loop ran out.
    unfoldable pub run_case : Option Ran
    unfolding submitted submit_batches watch_jobs
    run_case = after_stop b.stops
