-- ===== src/Study/RunTests.antt =====
-- A study on a disk with two ratings: preflight, one task with its repetition, and the smoke test.
use rungrid.Common.{
  at, length, leb, range_from, ℕ, ◌+◌, ◌*◌, ◌≡◌, refl, Bool, true, false, ◌&&◌, Option, none, some,
  List, [], ◌∷◌, Text, codes, All, arith,
}
use rungrid.Study.Protocols.{find, split_by, plan, movie_lens, regimes, original_v1, expanded_v2}
use rungrid.Study.Submit.{Experiment, experiments}
use rungrid.Study.Nodes.{SplitResult}
use rungrid.Study.Preflight.{load_path, Site, PreflightRow, passed, stopped, no_choice, preflight}
use rungrid.Study.Rehearsal.{Starts, preflight-Starts}
use rungrid.Study.Task.{Checkpoint}
use rungrid.Study.Run.{
  Config, Torch, Metrics, Finished, not_split, not_trained, not_sampled, no_metric, finished, run,
}
use rungrid.Study.Records.{Loaded, loaded}
use rungrid.Study.Research.{Setting, settings, setting_of, run_once}
use rungrid.Study.Agrees.{run-run_once}
use rungrid.Study.Smoke.{config_of, Finishes, smoke, smoked, smoke_passes}
use rungrid.Study.Metrics.{roc_auc, average_precision}
use rungrid.Study.MetricsTests.{sort_by, sorter, geb}
use rungrid.Study.Tests.{halves, counter, ratings, header, read_int}

abbrev pub site : Site ℕ (ℕ × Option (List (Text × Text)))
site = record {
  file = λ path. (header, ratings);
  int = read_int;
  month = λ t. codes "1970-01";
  records = λ path l. 7;
  n_records = λ r. r;
  splitter = halves;
  n_excluded = λ r. 0;
  manifest_digest = λ r. codes "d";
}

-- Two test pairs, so that there are pairs of their nodes that are no positives.
abbrev pub wide : SplitResult
wide = record {
  self_rel = false;
  n_source = 2;
  n_destination = 3;
  message_passing = (0, 2) ∷ [];
  train = (0, 2) ∷ [];
  test = (0, 0) ∷ (1, 1) ∷ [];
  codes_of = (0, 2) ∷ (0, 0) ∷ (1, 1) ∷ [];
}

abbrev pub torch : Torch (ℕ × Option (List (Text × Text))) ℕ ℕ
torch = record {
  edges = λ r. wide;
  start = λ model nodes dim seed. seed + 1;
  step = λ p neg s. s * 2 + length neg;
  generator = counter;
  generator_of = λ s. s;
  put_generator = λ g s. g;
  unique = λ ns. ns;
  decode = λ s p e. s + (e.0 + e.1);
  argsort = sorter leb;
  argsort_down = sorter geb;
}

preflight_refuses : preflight site (codes "v3") 9 (codes "/data") ≡ stopped no_choice
unfolding preflight
preflight_refuses = refl

preflight_rows :
    (rows : List PreflightRow) × (preflight site expanded_v2 9 (codes "/data") ≡ passed rows)
unfolding preflight range_from split_by plan
preflight_rows = (_, refl)

preflight-Starts_example : All (Starts site expanded_v2 9 (codes "/data")) (experiments 2 regimes)
unfolding find
preflight-Starts_example =
    preflight-Starts site expanded_v2 9 (codes "/data") 2 regimes preflight_rows.0 (omega arith)
      refl preflight_rows.1

abbrev pub config : Config
config = record {
  study = expanded_v2;
  dataset = movie_lens;
  path = codes "r.csv";
  regime = codes "random";
  model = codes "MF";
  seed = 3;
  epochs = 2;
  dim = 4;
  max_rows = 9;
  job_id = codes "j1";
  attempt_id = codes "a1";
}

unfoldable pub run_finishes :
    (cs : List (Checkpoint ℕ)) × (m : Metrics) × (run site torch config none ≡ finished cs m)
unfolding run split_by plan roc_auc average_precision sort_by range_from at
run_finishes = (_, _, refl)

abbrev original_config : Config
original_config = record config { study = original_v1 }

original_finishes :
    (cs : List (Checkpoint ℕ)) × (m : Metrics) × (run site torch original_config none
      ≡ finished cs m)
unfolding run split_by plan roc_auc average_precision sort_by range_from at
original_finishes = (_, _, refl)

run-run_once_example :
    (l : Loaded) × (rows : List Setting) × (row : Setting) × (load_path site original_v1 9
        (codes "r.csv")
        movie_lens
      ≡ loaded l)
    × (find movie_lens settings ≡ some rows)
    × (setting_of (codes "random") rows ≡ some row)
    × (run_once site torch (site.records (codes "r.csv") l) row (codes "MF") 4 2 3
        ≡ some (original_finishes.1.auc, original_finishes.1.ap))
run-run_once_example =
    run-run_once site torch original_config original_finishes.0 original_finishes.1 refl
      original_finishes.2

abbrev is_finished : Finished ℕ → Bool
is_finished (finished cs m) = true
is_finished _ = false

is_finished_sound :
    (o : Finished ℕ)
    → is_finished o ≡ true
    → (cs : List (Checkpoint ℕ)) × (m : Metrics) × (o ≡ finished cs m)
is_finished_sound (finished cs m) h = (cs, m, refl)
is_finished_sound (not_split e) h = cc
is_finished_sound (not_trained e) h = cc
is_finished_sound not_sampled h = cc
is_finished_sound no_metric h = cc

all_finish : List Experiment → Bool
all_finish [] = true
all_finish (e ∷ es) =
    is_finished (run site torch (config_of (codes "/data") e) none) && all_finish es

all_finish-Finishes :
    (es : List Experiment) → all_finish es ≡ true → All (Finishes site torch (codes "/data")) es
unfolding all_finish
all_finish-Finishes [] h = tt
all_finish-Finishes (e ∷ es) h = (
  is_finished_sound (run site torch (config_of (codes "/data") e) none) (ground (arith, h)),
  all_finish-Finishes es (ground (arith, h)),
)

all_finish_here : all_finish (experiments 1 regimes) ≡ true
unfolding all_finish run experiments split_by plan config_of roc_auc average_precision sort_by
    range_from at
all_finish_here = refl

smoke_passes_example : smoke site torch (codes "/data") ≡ smoked 32
smoke_passes_example =
    smoke_passes site torch (codes "/data")
      (all_finish-Finishes (experiments 1 regimes) all_finish_here)
