-- ===== src/Study/Polling.antt =====
-- examples/heterosplit/aggregate.py from its start to its rows: the wait for the jobs, and the collection
-- of Aggregate. The clock is in milliseconds from the start on.
use rungrid.Common.{
  ℕ, zero, suc, ◌+◌, ◌/◌, ◌≤◌, ◌≡◌, Bool, true, false, ◌&&◌, ◌⊎◌, Option, none, some, List, [], ◌∷◌,
  leb, if◌then◌else◌, Text, text_eq,
}
use rungrid.Wire.{is_terminal}
use rungrid.Study.Aggregate.{
  StudyJob, Collected, raised, collected, not_all_succeeded, any_failed, collect, aggregate, Rows,
}

-- What the client answers about the jobs and how long that takes, by the number of rounds before.
pub record Answers : Type 0 where
  pub jobs : ℕ → List StudyJob
  pub takes : ℕ → ℕ

pub data Aggregated : Type 0 where
  -- `TimeoutError`, and what comes of the collection.
  timed_out : ℕ → Aggregated
  ended : Collected (List (List ℕ)) → Aggregated

-- `all(...)`
unfoldable pub all_over : List StudyJob → Bool
unfolding text_eq
all_over [] = true
all_over (j ∷ js) = is_terminal j.state && all_over js

abbrev pub sleep_ms : ℕ
sleep_ms = 5000

module _ (get_object : Text → List ℕ) (sha256 : List ℕ → Text) (answers : Answers)
    (timeout : ℕ) where
  -- The loop with what follows it, on fuel: `none` means that the fuel ran out.
  unfoldable pub poll_jobs : ℕ → ℕ → ℕ → Option Aggregated
  unfolding all_over aggregate
  poll_jobs zero n now = none
  poll_jobs (suc fuel) n now =
      let after = now + answers.takes n in
      let rest = poll_jobs fuel (suc n) (after + sleep_ms) in
      if all_over (answers.jobs n)
      then some (ended (aggregate get_object sha256 (answers.jobs n)))
      else if leb timeout after
      then some (timed_out after)
      else rest

  unfoldable pub aggregate_study : Option Aggregated
  unfolding poll_jobs
  aggregate_study = poll_jobs (suc (suc (timeout / sleep_ms))) 0 0

  -- How the collection ends on the jobs of one round: with their rows, or since a job has failed, or since
  -- an artifact is missing, doubled or spoilt.
  abbrev pub Collects : List StudyJob → Collected (List (List ℕ)) → Type 0
  Collects jobs (collected rows) = Rows get_object sha256 rows jobs
  Collects jobs (raised e) =
      ((e ≡ not_all_succeeded) × (any_failed jobs ≡ true))
      ⊎ ((any_failed jobs ≡ false) × (collect get_object sha256 jobs ≡ raised e))

  abbrev pub Ends : Aggregated → Type 0
  Ends (timed_out now) = timeout ≤ now
  Ends (ended c) = (n : ℕ) × (all_over (answers.jobs n) ≡ true) × Collects (answers.jobs n) c
