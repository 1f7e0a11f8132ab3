-- ===== src/Benchmarks/Outcome.antt =====
-- How `run_case` of benchmarks/run.py ends.
use mathlib.Core.Path.{subst}
use rungrid.Common.{
  ℕ, suc, ◌<◌, ◌≡◌, ◌≢◌, refl, sym, ap, ◌∙◌, Bool, true, false, ◌⊎◌, inl, inr, Bool-cases,
  Option-cases, Option, none, some, List, [], ◌∷◌, ◌++◌, map, length, ◌==◌, Text, All, arith,
  Present, Present-here, Present-there,
}
use rungrid.Wire.{is_terminal}
use rungrid.Sdk.Client.{HttpRequest}
use rungrid.Study.Protocols.{among}
use rungrid.Benchmarks.Batches.{submitted}
use rungrid.Benchmarks.Await.{
  Sample, ids_where, Awaited, elapsed, timed_out, unread, await_jobs, Settled, await_jobs_settles,
}
use rungrid.Benchmarks.Ids.{ids_where_all}
use rungrid.Benchmarks.Rows.{id_codes, all_in}
use rungrid.Benchmarks.Case.{
  Bench, Summary, CaseOutcome, stop_failed, batch_failed, up_failed, bad_run_id, unrecorded,
  bad_value, undescribed, query_failed, case_timed_out, failed_jobs, case_done, Ran, is_succeeded,
  batch_request, put_sent, submit_batches, first_rows, parse_all, queries, summary_of, judged,
  described, recorded, summarized, awaited, watched, watch_jobs, with_sent, after_submission,
  after_stop, run_case,
}

terminal_succeeded : (s : Text) → is_succeeded s ≡ true → is_terminal s ≡ true
terminal_succeeded s h = ground (arith, h)

-- A list of texts that is not read has a text that is not read.
parse_all-none :
    (parse : Text → Option ℕ) (column : Sample → Text) (rows : List Sample)
    → parse_all parse (map column rows) ≡ none
    → (r : Sample) × Present r rows × (parse (column r) ≡ none)
unfolding parse_all
parse_all-none parse column [] h = cc
parse_all-none parse column (r ∷ rs) h = elim (Option-cases (parse (column r))) [
  | inl bad ↦ (r, Present-here r rs, bad)
  | inr (n, fine) ↦ elim (Option-cases (parse_all parse (map column rs))) [
    | inl bad ↦
        let (r', p, q) = parse_all-none parse column rs bad in (r', Present-there r' r rs p, q)
    | inr (ns, read) ↦ cc
  ]
]

module _ (b : Bench) (workload : Text) where
  -- One request for each batch.
  abbrev pub requests : ℕ → List (List ℕ) → List HttpRequest
  requests k [] = []
  requests k (numbers ∷ rest) = batch_request b workload k numbers ∷ requests (suc k) rest

  -- Every batch is sent, or the last one that is sent was refused.
  abbrev Sends : ℕ → List (List ℕ) → List HttpRequest × Bool → Type 0
  Sends k bs (sent, true) = sent ≡ requests k bs
  Sends k bs (sent, false) =
      (before : List HttpRequest) × (r : HttpRequest) × (rest : List HttpRequest) × (sent
        ≡ before ++ r ∷ [])
      × (b.answers r ≡ false)
      × (requests k bs ≡ before ++ r ∷ rest)

  Sends-put :
      (k : ℕ) (numbers : List ℕ) (bs : List (List ℕ)) (s : List HttpRequest × Bool)
      → Sends (suc k) bs s
      → Sends k (numbers ∷ bs) (put_sent b workload (batch_request b workload k numbers) s)
  Sends-put k numbers bs (sent, true) e = ap (λ l. batch_request b workload k numbers ∷ l) e
  Sends-put k numbers bs (sent, false) (before, r, rest, e, refused, all) =
      let first = batch_request b workload k numbers in
      (first ∷ before, r, rest, ap (λ l. first ∷ l) e, refused, ap (λ l. first ∷ l) all)

  submit_batches-Sends : (k : ℕ) (bs : List (List ℕ)) → Sends k bs (submit_batches b workload k bs)
  unfolding submit_batches
  submit_batches-Sends k [] = refl
  submit_batches-Sends k (numbers ∷ bs) =
      let r = batch_request b workload k numbers in
      let rest = Sends-put k numbers bs _ (submit_batches-Sends (suc k) bs) in
      elim (Bool-cases (b.answers r)) [
        | inl fine ↦ rw (fine) rest
        | inr broken ↦ rw (broken) ([], r, requests (suc k) bs, refl, broken, refl)
      ]

  pub submit_batches-answered :
      (k : ℕ) (bs : List (List ℕ))
      → ((r : HttpRequest) → b.answers r ≡ true)
      → submit_batches b workload k bs ≡ (requests k bs, true)
  unfolding submit_batches
  submit_batches-answered k [] h = refl
  submit_batches-answered k (numbers ∷ bs) h =
      rw (h (batch_request b workload k numbers), submit_batches-answered (suc k) bs h) refl

  module _ (count workers timeout : ℕ) where
    -- In these rows as many jobs as were submitted have succeeded, and every job that has ended is one of
    -- them.
    abbrev pub AllSucceeded : List Sample → Type 0
    AllSucceeded rows =
        (length (ids_where is_succeeded rows) ≡ count)
        × All (λ r. is_terminal r.state ≡ true → among r.id (ids_where is_succeeded rows) ≡ true)
            rows

    -- A value of the rows that `float` or `fromisoformat` does not read.
    abbrev pub Unreadable : List Sample → Type 0
    Unreadable rows =
        (r : Sample) × Present r rows
        × ((b.float r.latency ≡ none) ⊎ (b.from_iso r.leased_at ≡ none))

    -- What an end says of the wait.
    abbrev pub Waits : CaseOutcome → Type 0
    Waits (case_timed_out now) = timeout < now
    Waits bad_run_id = all_in id_codes b.run_id ≡ false
    Waits up_failed = b.starts ≡ false
    Waits (failed_jobs s) = s.succeeded ≢ count
    Waits (case_done s) =
        (n : ℕ) × (s.jobs ≡ count)
        × (s.workload ≡ workload)
        × (s.workers ≡ workers)
        × (s.succeeded ≡ count)
        × (s.attempts ≡ length ((queries b workload count workers timeout).rows n))
        × AllSucceeded ((queries b workload count workers timeout).rows n)
    Waits (query_failed n) = b.reads n ≡ false
    Waits unrecorded = b.records ≡ false
    Waits undescribed = b.describes ≡ false
    Waits bad_value =
        (n : ℕ) × Unreadable (first_rows ((queries b workload count workers timeout).rows n))
    Waits stop_failed = ⊥
    Waits batch_failed = ⊥

    abbrev pub Concludes : List HttpRequest → CaseOutcome → Type 0
    Concludes sent stop_failed = (b.stops ≡ false) × (sent ≡ [])
    Concludes sent batch_failed =
        (before : List HttpRequest) × (r : HttpRequest) × (rest : List HttpRequest) × (sent
          ≡ before ++ r ∷ [])
        × (b.answers r ≡ false)
        × (requests 0 (submitted count) ≡ before ++ r ∷ rest)
    Concludes sent o = (sent ≡ requests 0 (submitted count)) × Waits o

    judged-Waits :
        (n now : ℕ) (rows : List Sample) (latencies leases : List ℕ)
        → rows ≡ (queries b workload count workers timeout).rows n
        → length (ids_where is_terminal rows) ≡ count
        → Waits (
            judged b workload count workers timeout
              (summary_of b workload count workers timeout rows now latencies leases))
    judged-Waits n now rows latencies leases e t =
        elim (Bool-cases (length (ids_where is_succeeded rows) == count)) [
          | inl all ↦
              let succeeded : length (ids_where is_succeeded rows) ≡ count = ground (arith, all) in
              let every =
                ids_where_all is_succeeded is_terminal rows terminal_succeeded
                  (t ∙ sym succeeded) in
              rw (all) (
                n,
                refl,
                refl,
                refl,
                succeeded,
                ap length e,
                subst AllSucceeded e (succeeded, every),
              )
          | inr some_failed ↦ rw (some_failed) (ground (arith, some_failed))
        ]

    described-Waits :
        (told : Bool) (s : Summary)
        → b.describes ≡ told
        → Waits (judged b workload count workers timeout s)
        → Waits (described b workload count workers timeout told s)
    described-Waits true s e h = h
    described-Waits false s e h = e

    recorded-Waits :
        (kept : Bool) (o : CaseOutcome)
        → b.records ≡ kept
        → Waits o
        → Waits (recorded b workload count workers timeout kept o)
    recorded-Waits true o e h = h
    recorded-Waits false o e h = e

    summarized-Waits :
        (n now : ℕ) (rows : List Sample) (latencies leases : Option (List ℕ))
        → rows ≡ (queries b workload count workers timeout).rows n
        → length (ids_where is_terminal rows) ≡ count
        → parse_all b.float (map (λ r. r.latency) (first_rows rows)) ≡ latencies
        → parse_all b.from_iso (map (λ r. r.leased_at) (first_rows rows)) ≡ leases
        → Waits (summarized b workload count workers timeout rows now latencies leases)
    summarized-Waits n now rows none leases e t f g =
        let (r, p, q) = parse_all-none b.float (λ r. r.latency) (first_rows rows) f in
        (n, subst (λ rs. Unreadable (first_rows rs)) e (r, p, inl q))
    summarized-Waits n now rows (some latencies) none e t f g =
        let (r, p, q) = parse_all-none b.from_iso (λ r. r.leased_at) (first_rows rows) g in
        (n, subst (λ rs. Unreadable (first_rows rs)) e (r, p, inr q))
    summarized-Waits n now rows (some latencies) (some leases) e t f g =
        described-Waits b.describes _ refl (judged-Waits n now rows latencies leases e t)

    awaited-Waits :
        (a : Awaited)
        → Settled (queries b workload count workers timeout) count timeout a
        → (o : CaseOutcome) × (awaited b workload count workers timeout (some a) ≡ some o) × Waits o
    awaited-Waits (timed_out now) s = (case_timed_out now, refl, s)
    awaited-Waits (unread n) s = (query_failed n, refl, s)
    awaited-Waits (elapsed rows now) (n, e, t) =
        (_, refl, recorded-Waits b.records _ refl (summarized-Waits n now rows _ _ e t refl refl))

    watched-Waits :
        (up hex : Bool)
        → b.starts ≡ up
        → all_in id_codes b.run_id ≡ hex
        → (o : CaseOutcome) × (watched b workload count workers timeout up hex
              (await_jobs (queries b workload count workers timeout) count timeout)
            ≡ some o)
          × Waits o
    watched-Waits false hex u h = (up_failed, refl, u)
    watched-Waits true false u h = (bad_run_id, refl, h)
    watched-Waits true true u h =
        let (a, e, s) =
          await_jobs_settles (queries b workload count workers timeout) count timeout in
        let (o, f, w) = awaited-Waits a s in
        (o, ap (awaited b workload count workers timeout) e ∙ f, w)

    watch_jobs-Waits :
        (o : CaseOutcome) × (watch_jobs b workload count workers timeout ≡ some o) × Waits o
    unfolding watch_jobs
    watch_jobs-Waits = watched-Waits b.starts (all_in id_codes b.run_id) refl refl

    concluded :
        (o : CaseOutcome) (sent : List HttpRequest)
        → sent ≡ requests 0 (submitted count)
        → Waits o
        → Concludes sent o
    concluded stop_failed sent e w = elim w [ ]
    concluded batch_failed sent e w = elim w [ ]
    concluded up_failed sent e w = (e, w)
    concluded bad_run_id sent e w = (e, w)
    concluded bad_value sent e w = (e, w)
    concluded unrecorded sent e w = (e, w)
    concluded undescribed sent e w = (e, w)
    concluded (query_failed n) sent e w = (e, w)
    concluded (case_timed_out now) sent e w = (e, w)
    concluded (failed_jobs s) sent e w = (e, w)
    concluded (case_done s) sent e w = (e, w)

    submission-Concludes :
        (s : List HttpRequest × Bool)
        → Sends 0 (submitted count) s
        → (r : Ran) × (after_submission b workload count workers timeout s ≡ some r)
          × Concludes r.sent r.outcome
    submission-Concludes (sent, false) refused =
        (record { sent = sent; outcome = batch_failed }, refl, refused)
    submission-Concludes (sent, true) whole =
        let (o, f, w) = watch_jobs-Waits in
        (
          record { sent = sent; outcome = o },
          ap (with_sent b workload count workers timeout sent) f,
          concluded o sent whole w,
        )

    after_stop-Concludes :
        (stopped : Bool)
        → b.stops ≡ stopped
        → (r : Ran) × (after_stop b workload count workers timeout stopped ≡ some r)
          × Concludes r.sent r.outcome
    after_stop-Concludes false s = (record { sent = []; outcome = stop_failed }, refl, (s, refl))
    after_stop-Concludes true s =
        submission-Concludes (submit_batches b workload 0 (submitted count))
          (submit_batches-Sends 0 (submitted count))

    -- A case always ends. If it returns its summary, a request was sent for each batch, as many jobs as
    -- were submitted have succeeded in the rows of a poll, and no job has ended there that has not. An
    -- error means that the workers did not stop or start; that the last batch that was sent was
    -- refused, and none sent after it; that the id holds a foreign character; that a query failed;
    -- that the results could not be written, or git or Docker did not answer; that a value of a first
    -- attempt is no number; that the wait was longer than the timeout; or that the number of jobs that
    -- have succeeded is another one.
    pub run_case-Concludes :
        (r : Ran) × (run_case b workload count workers timeout ≡ some r)
        × Concludes r.sent r.outcome
    unfolding run_case
    run_case-Concludes = after_stop-Concludes b.stops refl
