-- ===== src/Lib.antt =====
-- RunGrid: the Python side of a distributed job runner, with its SDK and the studies that run on it.
--
-- The parts and how they interact. A worker (worker/python/rungrid_worker) registers with a control
-- plane, leases attempts of jobs from it, runs each attempt's command, renews the lease in a thread
-- beside it, and reports logs, checkpoints and outputs, whose files it puts into object storage. All
-- calls to the control plane go through one retrying client. The SDK (sdk/python/rungrid) submits
-- jobs and writes the checkpoints that the worker collects. The study (examples/heterosplit) submits
-- and aggregates research jobs with the SDK; the benchmarks measure the cluster.
--
-- Files and code.
--   Common, Common/*   texts, lists and decimal numerals on native numbers.
--   Wire               the messages of the worker's service, as the calls use them.
--   Rpc, Rpc/*         worker/python/rungrid_worker/rpc.py: `RPC.call` is `call`, its `while True` is
--                      `retry`, the local deadline is `stamp`. The channel and the clock are `Link`.
--   Artifacts,         worker/python/rungrid_worker/artifacts.py: `digest`, `upload` with its tries,
--   Artifacts/*        `restore` and the object keys. S3 and the clock are `Site`, SHA-256 is `Hash`.
--   Worker, Worker/*   worker/python/rungrid_worker/main.py. State holds the variables that `execute`
--                      shares with its two threads; Threads has the moves of `renew`, `read_logs` and
--                      the command, which come between any two steps of `execute`; Execute has
--                      `execute`, `progress`, the temporary directory and the `finally` block, in the monad of Monad, whose
--                      steps end in a value, a return or an exception; Environment is the environment
--                      of the command; Run is `Worker.run`; Start has `Worker.__init__`, the metrics
--                      endpoint and the steps of `main`.
--   Sdk, Sdk/*         sdk/python/rungrid: `checkpoint` as its file operations, Paths with
--                      what it reads from the environment, `Client` as the requests that it
--                      sends; Invoke is `main` of invoke.py; examples/checkpoint_counter.py.
--   Study, Study/*     examples/heterosplit: Protocols, Plans (`split_protocol`), Records, Loading
--                      (`load_records`), Submit, Keys, Jobs, Pairs, Present, Batch (submit.py), Sampling, Negatives, Nodes,
--                      Graph, Metrics with Sums, Counts, Ranks and Auc, and with Labels,
--                      Quotients and Precision, Research (research.py), Task, Run, Repeats, Agrees,
--                      Resumed (task.py), Aggregate, Polling, Published, Groups, Grouped, Tabled
--                      (aggregate.py), Preflight, Rehearsal (preflight.py), Smoke (smoke.py).
--                      Rehearsal relates the preflight to the tasks, Repeats a task to the one from its
--                      checkpoint, Agrees a task to `run_once` of research.py, Resumed two attempts of a
--                      task by the worker's storage, and Published the worker's uploads to the
--                      aggregated rows.
--   Benchmarks,        benchmarks/recovery.py: Wait (`wait`), Recovery and Measures (`case`);
--   Benchmarks/*       benchmarks/run.py: Batches and Await (the batches and the loop of `run_case`), Rows
--                      (`database_samples`), Case (`run_case`) with Ids, Outcome and Lives, Grid
--                      (`main`), Sorted and Percentile (`percentile`). A case sends its batches as
--                      requests of Sdk.Client.
--   Release,           scripts/release.py: Build (the script), Sums (the file SHA256SUMS and a reader of
--   Release/*          it), Packed and Verifies (what is left in `dist`).
--
-- Bounds and fuel. Times are milliseconds since the start of the clock, and differences stop at 0
-- where the source compares or takes the larger of two numbers. `retry` has fuel for one round in
-- each 100 ms of the timeout and one more: each round waits at least 100 ms. `watch` has fuel for
-- its rounds; it is enough once it is more than the number of waits after which the command has
-- exited. `close_output` has fuel for the waits during which the log reader is inside a read; it is
-- enough once it is more than the number of waits after which the reader is in none. `wait` of the benchmarks has fuel for one call in each 50 ms, `await_jobs` for one poll
-- in each 500 ms and two more, `aggregate_study` for one in each 5000 ms and two more. The batches
-- have fuel for their items. `str` has fuel above its number. A loop that runs out of its fuel has
-- a result of its own, which the theorems on the whole functions exclude.
--
-- What the environment does is a parameter: the answers of the control plane and how long they
-- take, the object store, the contents of the files, the moves of the threads, the draws of torch's
-- generator, the splitter of heterosplit, one step of the optimizer, the decoding and `argsort` of
-- torch, `int` of a text, the calendar, the values of environment variables, argparse and json in
-- `invoke.py`, the rows of the benchmarks' database, its operator LIKE, what Docker answers, and
-- git, go and tar in a release. Decoding JSON and time stamps is part of an answer. `percentile`
-- takes percents and gives hundredths, and `roc_auc` and `average_precision` give quotients, so
-- that they are exact; floats round.
--
-- Not modelled: the control plane in Go and its database, generated code, printed log lines,
-- exceptions other than those of gRPC out of a call, exceptions out of a finished future in
-- `Worker.run`, the tensor computations of the models and the statistics in floating point, plots,
-- the thread that samples the machine during a benchmark, and the scripts that generate code and
-- copy benchmark results.
pub mod Common
pub mod Wire
pub mod Rpc
pub mod Artifacts
pub mod Worker
pub mod Sdk
pub mod Study
pub mod Benchmarks
pub mod Release
