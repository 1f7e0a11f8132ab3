-- ===== src/Benchmarks/Lives.antt =====
-- When `run_case` of benchmarks/run.py returns its summary.
use mathlib.Core.Path.{subst}
use mathlib.Core.Option.{some-injective}
use rungrid.Common.{
  ℕ, ◌+◌, ◌*◌, ◌≤◌, ◌≡◌, refl, sym, ap, ◌∙◌, true, inl, inr, Bool-cases, Option, some, List, [],
  ◌∷◌, map, length, ◌==◌, Text, codes, text_eq, All, All-weaken, arith,
}
use rungrid.Wire.{is_terminal}
use rungrid.Sdk.Client.{HttpRequest}
use rungrid.Benchmarks.Batches.{submitted}
use rungrid.Benchmarks.Await.{
  Sample, ids_where, Awaited, elapsed, await_jobs, Settled, await_jobs_settles, await_jobs_lives,
  all_terminal, pause_ms,
}
use rungrid.Benchmarks.Ids.{ids_where_same}
use rungrid.Benchmarks.Rows.{id_codes, all_in}
use rungrid.Benchmarks.Case.{
  Bench, Summary, case_done, first_rows, parse_all, is_succeeded, queries, summary_of, summarized,
  described, recorded, awaited, watched, watch_jobs, with_sent, after_submission, after_stop,
  run_case,
}
use rungrid.Benchmarks.Outcome.{requests, submit_batches-answered}

-- A value that `float` or `fromisoformat` reads, in the row of a first attempt.
abbrev Reads : (Text → Option ℕ) → (Sample → Text) → Sample → Type 0
Reads parse column r =
    text_eq r.attempt_number (codes "1") ≡ true → (n : ℕ) × (parse (column r) ≡ some n)

parse_all-Reads :
    (parse : Text → Option ℕ) (column : Sample → Text) (rows : List Sample)
    → All (Reads parse column) rows
    → (ns : List ℕ) × (parse_all parse (map column (first_rows rows)) ≡ some ns)
unfolding parse_all first_rows
parse_all-Reads parse column [] h = ([], refl)
parse_all-Reads parse column (r ∷ rs) (reads, h) =
    let (ns, rest) = parse_all-Reads parse column rs h in
    elim (Bool-cases (text_eq r.attempt_number (codes "1"))) [
      | inl first ↦ let (n, e) = reads first in (n ∷ ns, rw (first, e, rest) refl)
      | inr later ↦ (ns, rw (later) rest)
    ]

module _ (b : Bench) where
  -- A row with a job that has not failed, whose values are numbers.
  abbrev pub IsHealthy : Sample → Type 0
  IsHealthy r =
      (is_terminal r.state ≡ is_succeeded r.state)
      × (text_eq r.attempt_number (codes "1") ≡ true → (n : ℕ) × (b.float r.latency ≡ some n))
      × (text_eq r.attempt_number (codes "1") ≡ true → (n : ℕ) × (b.from_iso r.leased_at ≡ some n))

  module _ (workload : Text) (count workers timeout : ℕ) where
    summarized_done :
        (rows : List Sample) (now : ℕ)
        → All IsHealthy rows
        → length (ids_where is_terminal rows) ≡ count
        → b.records ≡ true
        → b.describes ≡ true
        → (s : Summary) × (awaited b workload count workers timeout (some (elapsed rows now))
            ≡ some (case_done s))
          × (s.elapsed_ms ≡ now)
    summarized_done rows now h t records describes =
        let (latencies, l) =
          parse_all-Reads b.float (λ r. r.latency) rows (All-weaken _ _ (λ r o. o.1) rows h) in
        let (leases, k) =
          parse_all-Reads b.from_iso (λ r. r.leased_at) rows (All-weaken _ _ (λ r o. o.2) rows h) in
        let all : length (ids_where is_succeeded rows) ≡ count =
          ap length (
            sym (ids_where_same is_terminal is_succeeded rows (All-weaken _ _ (λ r o. o.0) rows h)))
          ∙ t in
        let won : length (ids_where is_succeeded rows) == count ≡ true = ground (arith, all) in
        let floats = parse_all b.float (map (λ r. r.latency) (first_rows rows)) in
        let leased = parse_all b.from_iso (map (λ r. r.leased_at) (first_rows rows)) in
        let told_of = summarized b workload count workers timeout rows now in
        let s = summary_of b workload count workers timeout rows now latencies leases in
        (
          s,
          ap (λ kept. some (recorded b workload count workers timeout kept (told_of floats leased)))
                records
              ∙ (ap (λ x. some (told_of x leased)) l
                  ∙ (ap (λ x. some (told_of (some latencies) x)) k
                      ∙ (ap (λ told. some (described b workload count workers timeout told s))
                            describes
                          ∙ rw (won) refl))),
          refl,
        )

    elapsed-count :
        (rows : List Sample) (now : ℕ) (a : Awaited)
        → await_jobs (queries b workload count workers timeout) count timeout
          ≡ some (elapsed rows now)
        → await_jobs (queries b workload count workers timeout) count timeout ≡ some a
        → Settled (queries b workload count workers timeout) count timeout a
        → (n : ℕ) × (rows ≡ (queries b workload count workers timeout).rows n)
          × (length (ids_where is_terminal rows) ≡ count)
    elapsed-count rows now a e f s =
        subst (Settled (queries b workload count workers timeout) count timeout)
          (some-injective a (elapsed rows now) (sym f ∙ e)) s

    -- If the workers stop and start, the server accepts the batches, the id passes the assertion, every
    -- query succeeds and takes no longer than `limit`, the results can be written, git and Docker
    -- answer, no poll finds a failed job or a value of a first attempt that is no number, and the poll
    -- number `k` finds all jobs ended early enough, then the case returns a summary, of no later than
    -- that poll, and has sent a request for each batch.
    pub run_case_lives :
        (k limit : ℕ)
        → b.stops ≡ true
        → b.starts ≡ true
        → ((r : HttpRequest) → b.answers r ≡ true)
        → all_in id_codes b.run_id ≡ true
        → ((n : ℕ) → b.reads n ≡ true)
        → ((n : ℕ) → b.takes n ≤ limit)
        → b.records ≡ true
        → b.describes ≡ true
        → ((n : ℕ) → All IsHealthy ((queries b workload count workers timeout).rows n))
        → all_terminal (queries b workload count workers timeout) count timeout k ≡ true
        → k * (limit + pause_ms) + limit ≤ timeout
        → (s : Summary) × (run_case b workload count workers timeout
            ≡ some
                (record { sent = requests b workload 0 (submitted count); outcome = case_done s }))
          × (s.elapsed_ms ≤ k * (limit + pause_ms) + limit)
    unfolding run_case watch_jobs
    run_case_lives k limit stops starts answers hex reads quick records describes healthy ends
          fits =
        let (rows, now, e, bound) =
          await_jobs_lives (queries b workload count workers timeout) count timeout k limit reads
            quick ends fits in
        let (a, f, settled) =
          await_jobs_settles (queries b workload count workers timeout) count timeout in
        let (n, are, t) = elapsed-count rows now a e f settled in
        let (s, done, time) =
          summarized_done rows now (subst (All IsHealthy) (sym are) (healthy n)) t records
            describes in
        let aw = await_jobs (queries b workload count workers timeout) count timeout in
        let watches : watch_jobs b workload count workers timeout ≡ some (case_done s) =
          ap (λ up. watched b workload count workers timeout up (all_in id_codes b.run_id) aw)
            starts
          ∙ (ap (λ ok. watched b workload count workers timeout true ok aw) hex
              ∙ (ap (awaited b workload count workers timeout) e ∙ done)) in
        let sent = submit_batches-answered b workload 0 (submitted count) answers in
        (
          s,
          ap (after_stop b workload count workers timeout) stops
              ∙ (ap (after_submission b workload count workers timeout) sent
                  ∙ ap
                      (with_sent b workload count workers timeout
                        (requests b workload 0 (submitted count)))
                      watches),
          omega (arith, time, bound),
        )
