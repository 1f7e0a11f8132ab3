-- ===== src/Study/Run.antt =====
-- `run` of examples/heterosplit/task.py as a whole: the split of Preflight, the numbering of Nodes,
-- the training of Task, and the evaluation on sampled negatives.
use rungrid.Common.{
  range_from, ◌-◌, ℕ, Bool, true, false, ◌&&◌, Option, none, some, List, ◌++◌, length, map,
  if◌then◌else◌, Text,
}
use rungrid.Study.Submit.{Experiment}
use rungrid.Study.Sampling.{Edge, Generator, sample_pairs}
use rungrid.Study.Nodes.{SplitResult, Prep, prepare}
use rungrid.Study.Metrics.{Score, quotient, roc_auc, Average, average, average_precision}
use rungrid.Study.Preflight.{Site, PreflightError, Checked, stopped, passed, split_task}
use rungrid.Study.Task.{
  Identity, Checkpoint, TaskError, Trained, TaskRun, task_error, trained, run_task,
}

-- The arguments of the command, with the two ids that its environment holds.
pub record Config : Type 0 where
  pub study : Text
  pub dataset : Text
  pub path : Text
  pub regime : Text
  pub model : Text
  pub seed : ℕ
  pub epochs : ℕ
  pub dim : ℕ
  pub max_rows : ℕ
  pub job_id : Text
  pub attempt_id : Text

-- What torch does: a state holds the model, the optimizer and both generators. A score, a result of
-- `_decode`, is a number as in Metrics.
pub record Torch (Result S G : Type 0) : Type 0 where
  pub edges : Result → SplitResult
  pub start : Text → ℕ → ℕ → ℕ → S
  -- From `model.train()` to `optimizer.step()`, on the negatives that are sampled.
  pub step : Prep → List Edge → S → S
  pub generator : Generator G
  pub generator_of : S → G
  pub put_generator : G → S → S
  -- `torch.unique`
  pub unique : List ℕ → List ℕ
  pub decode : S → Prep → Edge → ℕ
  -- `argsort`, ascending and descending.
  pub argsort : List ℕ → List ℕ
  pub argsort_down : List ℕ → List ℕ

pub record Metrics : Type 0 where
  pub identity : Identity
  pub auc : Score
  pub ap : Average
  pub records : ℕ
  pub resumed_epoch : ℕ
  pub split_counts : List ℕ
  pub excluded_records : ℕ
  pub context_features_used : Bool
  pub job_id : Text
  pub attempt_id : Text

pub data Finished (S : Type 0) : Type 0 where
  not_split : PreflightError → Finished S
  not_trained : TaskError → Finished S
  -- A sampling that raises, and a metric that is no number or that raises.
  not_sampled no_metric : Finished S
  finished : List (Checkpoint S) → Metrics → Finished S

abbrev pub sources : List Edge → List ℕ
sources = map (λ e. e.0)

abbrev pub destinations : List Edge → List ℕ
destinations = map (λ e. e.1)

abbrev pub labels_of : Bool → List Edge → List Bool
labels_of b = map (λ e. b)

abbrev pub is_quotient : Score → Bool
is_quotient (quotient a b) = true
is_quotient _ = false

abbrev pub is_average : Average → Bool
is_average (average qs n) = true
is_average _ = false

-- `src` and `dst`: the nodes that the negatives of the training are sampled from.
abbrev pub train_sources : Prep → List ℕ
train_sources p = range_from 0 p.n_src

abbrev pub train_destinations : Prep → List ℕ
train_destinations p =
    if p.self_rel then train_sources p else range_from p.offset (p.num_nodes - p.offset)

module _ {R Result S G : Type 0} (site : Site R Result) (torch : Torch Result S G) where
  abbrev pub identity_of : Config → Result → Identity
  identity_of c result = record {
    study = c.study;
    dataset = c.dataset;
    regime = c.regime;
    model = c.model;
    seed = c.seed;
    epochs = c.epochs;
    dim = c.dim;
    manifest_digest = site.manifest_digest result;
  }

  -- One epoch: negatives, then a step on them; nothing where the sampling raises.
  abbrev pub stepped : Prep → S → Option (List Edge) × G → Option S
  stepped p s (none, g) = none
  stepped p s (some neg, g) = some (torch.step p neg (torch.put_generator g s))

  unfoldable pub epoch : Prep → S → Option S
  unfolding sample_pairs range_from
  epoch p s = stepped p s (
      sample_pairs torch.generator (train_sources p) (train_destinations p) (length p.train_pos)
        p.positives p.self_rel (torch.generator_of s))

  -- `test_src` and `test_dst`: in a self relation both are all the nodes of the test edges.
  abbrev pub test_sources : Prep → List ℕ
  test_sources p =
      torch.unique
        (if p.self_rel then sources p.test_pos ++ destinations p.test_pos else sources p.test_pos)

  abbrev pub test_destinations : Prep → List ℕ
  test_destinations p = torch.unique (
      if p.self_rel then sources p.test_pos ++ destinations p.test_pos else destinations p.test_pos)

  unfoldable pub negatives : Prep → S → Option (List Edge)
  unfolding sample_pairs
  negatives p s =
      (sample_pairs torch.generator (test_sources p) (test_destinations p) (length p.test_pos)
        p.positives p.self_rel (torch.generator_of s)).0

  abbrev pub scores_of : Prep → S → List Edge → List ℕ
  scores_of p s neg = map (torch.decode s p) p.test_pos ++ map (torch.decode s p) neg

  abbrev pub labels : Prep → List Edge → List Bool
  labels p neg = labels_of true p.test_pos ++ labels_of false neg

  abbrev pub run_metrics : Config → ℕ → Result → Prep → Trained S → List Edge → Metrics
  run_metrics c n result p t neg = record {
    identity = identity_of c result;
    auc = roc_auc torch.argsort (scores_of p t.state neg) (labels p neg);
    ap = average_precision torch.argsort_down (scores_of p t.state neg) (labels p neg);
    records = n;
    resumed_epoch = t.resumed_epoch;
    split_counts = site.splitter.counts result;
    excluded_records = site.n_excluded result;
    context_features_used = false;
    job_id = c.job_id;
    attempt_id = c.attempt_id;
  }

  -- `json.dumps(metrics, allow_nan=False)`
  abbrev pub written : List (Checkpoint S) → Metrics → Finished S
  written cs m = if is_quotient m.auc && is_average m.ap then finished cs m else no_metric

  abbrev pub evaluate : Config → ℕ → Result → Prep → Trained S → Option (List Edge) → Finished S
  evaluate c n result p t none = not_sampled
  evaluate c n result p t (some neg) = written t.checkpoints (run_metrics c n result p t neg)

  abbrev pub evaluate_run : Config → ℕ → Result → Prep → TaskRun S → Finished S
  evaluate_run c n result p (task_error e) = not_trained e
  evaluate_run c n result p (trained t) = evaluate c n result p t (negatives p t.state)

  -- From the split on.
  unfoldable pub run_split : Config → ℕ → Result → Option (Checkpoint S) → Finished S
  unfolding prepare run_task epoch negatives
  run_split c n result restored =
      let p = prepare (torch.edges result) in
      let identity = identity_of c result in
      evaluate_run c n result p (
        run_task (epoch p) identity (length p.train_pos) (length p.test_pos)
          (torch.start c.model p.num_nodes c.dim c.seed) restored)

  abbrev pub experiment_of : Config → Experiment
  experiment_of c = record {
    dataset = c.dataset;
    regime = c.regime;
    model = c.model;
    seed = c.seed;
  }

  abbrev pub run_checked : Config → Option (Checkpoint S) → Checked (ℕ × Result) → Finished S
  run_checked c restored (stopped e) = not_split e
  run_checked c restored (passed (n, result)) = run_split c n result restored

  unfoldable pub run : Config → Option (Checkpoint S) → Finished S
  unfolding split_task run_split
  run c restored =
      run_checked c restored (split_task site c.study c.max_rows c.path (experiment_of c))
