-- ===== src/Study/Smoke.antt =====
-- examples/heterosplit/smoke.py: for every regime and model of the expanded study, a run of one epoch and
-- one that goes on from its checkpoint, in a fresh directory for each pair.
use rungrid.Common.{
  ◌*◌, ◌+◌, Bool, false, ℕ, suc, ◌≡◌, refl, ap, ◌∙◌, true, ◌&&◌, none, some, List, [], ◌∷◌, ◌++◌,
  codes, length, ◌==◌, if◌then◌else◌, Text, All, arith,
}
use rungrid.Study.Protocols.{regimes, expanded_v2}
use rungrid.Study.Submit.{Experiment, experiments}
use rungrid.Study.Preflight.{Site, data_path}
use rungrid.Study.Task.{Checkpoint}
use rungrid.Study.Metrics.{Score, quotient, Average, average}
use rungrid.Study.Run.{is_quotient, is_average, Config, Torch, Metrics, Finished, finished, run}
use rungrid.Study.Repeats.{run-Repeats, one_checkpoint, run_finite}

pub data SmokeError : Type 0 where
  run_failed no_checkpoint assertion_failed : SmokeError

pub data Smoked : Type 0 where
  broken : SmokeError → Smoked
  -- The number of round trips that passed.
  smoked : ℕ → Smoked

unfoldable pub config_of : Text → Experiment → Config
config_of data_dir e = record {
  study = expanded_v2;
  dataset = e.dataset;
  path = data_path data_dir e.dataset;
  regime = e.regime;
  model = e.model;
  seed = 0;
  epochs = 1;
  dim = 16;
  max_rows = 120000;
  job_id = e.dataset ++ b'-' ∷ (e.regime ++ b'-' ∷ e.model);
  attempt_id = codes "local-smoke";
}

-- `==` on the metrics, which are exact here: equal quotients.
abbrev pub same_quotient : ℕ × ℕ → ℕ × ℕ → Bool
same_quotient p q = (p.0 * q.1) == (q.0 * p.1)

abbrev pub same_score : Score → Score → Bool
same_score (quotient a b) (quotient c d) = same_quotient (a, b) (c, d)
same_score _ _ = false

unfoldable pub sum_quotients : List (ℕ × ℕ) → ℕ × ℕ
sum_quotients [] = (0, 1)
sum_quotients (q ∷ qs) = let rest = sum_quotients qs in (q.0 * rest.1 + rest.0 * q.1, q.1 * rest.1)

abbrev pub quotient_by : ℕ × ℕ → ℕ → ℕ × ℕ
quotient_by p n = (p.0, p.1 * n)

unfoldable pub same_average : Average → Average → Bool
unfolding sum_quotients
same_average (average ps n) (average qs k) =
    same_quotient (quotient_by (sum_quotients ps) n) (quotient_by (sum_quotients qs) k)
same_average _ _ = false

same_quotient_self : (p : ℕ × ℕ) → same_quotient p p ≡ true
same_quotient_self p = ground arith

same_score_self : (s : Score) → is_quotient s ≡ true → same_score s s ≡ true
same_score_self (quotient a b) h = same_quotient_self (a, b)
same_score_self _ h = cc

same_average_self : (a : Average) → is_average a ≡ true → same_average a a ≡ true
unfolding same_average
same_average_self (average qs n) h = same_quotient_self (quotient_by (sum_quotients qs) n)
same_average_self _ h = cc

module _ {R Result S G : Type 0} (site : Site R Result) (torch : Torch Result S G) where
  -- The three assertions.
  abbrev pub compare_runs : Metrics → Finished S → Smoked → Smoked
  compare_runs before (finished cs after) rest =
      if (after.resumed_epoch == 1)
        && (same_score before.auc after.auc && same_average before.ap after.ap)
      then rest
      else broken assertion_failed
  compare_runs before _ rest = broken run_failed

  -- `next((root / "checkpoints").glob("*.json"))`, of the checkpoints that the first run left.
  abbrev pub run_again : Config → Finished S → Smoked → Smoked
  run_again c (finished [] before) rest = broken no_checkpoint
  run_again c (finished (k ∷ cs) before) rest = compare_runs before (run site torch c (some k)) rest
  run_again c _ rest = broken run_failed

  abbrev pub add_one : Smoked → Smoked
  add_one (broken e) = broken e
  add_one (smoked n) = smoked (suc n)

  unfoldable pub smoke_all : Text → List Experiment → Smoked
  unfolding run config_of
  smoke_all data_dir [] = smoked 0
  smoke_all data_dir (e ∷ es) =
      let c = config_of data_dir e in
      run_again c (run site torch c none) (add_one (smoke_all data_dir es))

  unfoldable pub smoke : Text → Smoked
  unfolding smoke_all experiments
  smoke data_dir = smoke_all data_dir (experiments 1 regimes)

  -- The first run of the round trip finishes.
  abbrev pub Finishes : Text → Experiment → Type 0
  Finishes data_dir e =
      (cs : List (Checkpoint S)) × (m : Metrics) × (run site torch (config_of data_dir e) none
        ≡ finished cs m)

  pub smoke_all_passes :
      (data_dir : Text) (es : List Experiment)
      → All (Finishes data_dir) es
      → smoke_all data_dir es ≡ smoked (length es)
  unfolding smoke_all config_of
  smoke_all_passes data_dir [] h = refl
  smoke_all_passes data_dir (e ∷ es) ((cs, m, first), h) =
      let c = config_of data_dir e in
      let rest = smoke_all_passes data_dir es h in
      let (k, one, epoch) = one_checkpoint site torch c cs m refl first in
      let again = run-Repeats site torch c (k ∷ []) m (first ∙ ap (λ l. finished l m) one) in
      let fine = run_finite site torch c cs m first in
      let auc : same_score m.auc m.auc ≡ true = same_score_self m.auc (ground (arith, fine)) in
      let ap_same : same_average m.ap m.ap ≡ true = same_average_self m.ap (ground (arith, fine)) in
      rw (first, one, again.0.1, epoch, auc, ap_same, rest) refl

  -- No assertion fails: when every first run finishes, the smoke test passes, with 32 round trips.
  pub smoke_passes :
      (data_dir : Text)
      → All (Finishes data_dir) (experiments 1 regimes)
      → smoke data_dir ≡ smoked 32
  unfolding smoke experiments
  smoke_passes data_dir h = smoke_all_passes data_dir (experiments 1 regimes) h
