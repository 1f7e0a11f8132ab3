-- ===== src/Study/Submit.antt =====
-- `definitions` of examples/heterosplit/submit.py: the jobs of a study.
use rungrid.Common.{
  range_from, ℕ, Option, none, some, List, [], ◌∷◌, ◌++◌, map, Text, codes, text_eq, str, ◌==◌,
  if◌then◌else◌, min,
}
use rungrid.Study.Protocols.{find, studies, drug_comb}

-- One turn of the four loops.
pub record Experiment : Type 0 where
  pub dataset : Text
  pub regime : Text
  pub model : Text
  pub seed : ℕ

pub record Definition : Type 0 where
  pub name : Text
  pub command : List Text
  pub environment : List (Text × Text)
  pub cpu : ℕ
  pub memory_mb : ℕ
  pub gpu : ℕ
  pub max_attempts : ℕ
  pub timeout_seconds : ℕ
  pub idempotency_key : Text
  pub artifact_prefix : Text

-- `for x in xs: yield from f(x)`
unfoldable pub for_each {ℓ κ} : {A : Type ℓ} {B : Type κ} → (A → List B) → List A → List B
for_each f [] = []
for_each f (x ∷ xs) = f x ++ for_each f xs

abbrev pub models : List Text
models = codes "MF" ∷ codes "SAGE" ∷ []

abbrev pub by_seed : ℕ → Text → Text → Text → List Experiment
by_seed seeds dataset regime model =
    map (λ seed. record { dataset = dataset; regime = regime; model = model; seed = seed })
      (range_from 0 seeds)

abbrev pub by_model : ℕ → Text → Text → List Experiment
by_model seeds dataset regime = for_each (by_seed seeds dataset regime) models

abbrev pub by_regime : ℕ → Text × List Text → List Experiment
by_regime seeds row = for_each (by_model seeds row.0) row.1

unfoldable pub experiments : ℕ → List (Text × List Text) → List Experiment
unfolding for_each range_from
experiments seeds = for_each (by_regime seeds)

unfoldable pub name_of : Experiment → Text
unfolding str
name_of e =
    e.dataset ++ (codes "-" ++ (e.regime ++ (codes "-" ++ (e.model ++ (codes "-" ++ str e.seed)))))

abbrev pub data_of : Text → Text
data_of dataset =
    if text_eq dataset drug_comb
    then codes "/data/summary_v_1_5.csv"
    else codes "/data/ml/ml-latest-small/ratings.csv"

unfoldable pub key_of : Text → Text → Experiment → Text
unfolding name_of
key_of study run_id e =
    codes "heterosplit-" ++ (study ++ (codes "-" ++ (run_id ++ (codes "-" ++ name_of e))))

unfoldable pub definition : Text → ℕ → ℕ → Text → Experiment → Definition
unfolding name_of key_of text_eq str
definition run_id epochs max_rows study e = record {
  name = name_of e;
  command =
      codes "python"
      ∷ codes "examples/heterosplit/task.py"
      ∷ codes "--dataset"
      ∷ e.dataset
      ∷ codes "--data"
      ∷ data_of e.dataset
      ∷ codes "--regime"
      ∷ e.regime
      ∷ codes "--model"
      ∷ e.model
      ∷ codes "--seed"
      ∷ str e.seed
      ∷ codes "--epochs"
      ∷ str epochs
      ∷ codes "--max-rows"
      ∷ str max_rows
      ∷ codes "--study"
      ∷ study
      ∷ [];
  environment = (codes "OMP_NUM_THREADS", codes "1") ∷ (codes "MKL_NUM_THREADS", codes "1") ∷ [];
  cpu = 1;
  memory_mb = 2048;
  gpu = 0;
  max_attempts = 3;
  timeout_seconds = 1800;
  idempotency_key = key_of study run_id e;
  artifact_prefix =
      codes "heterosplit/" ++ (study ++ (codes "/" ++ (run_id ++ (codes "/" ++ name_of e))));
}

abbrev pub definitions_of :
    Text → ℕ → ℕ → ℕ → Text → Option (List (Text × List Text)) → Option (List Definition)
definitions_of run_id seeds epochs max_rows study none = none
definitions_of run_id seeds epochs max_rows study (some table) =
    some (map (definition run_id epochs max_rows study) (experiments seeds table))

-- `list(definitions(...))`: nothing where it raises, for a number that is not positive or a study
-- that is not known.
unfoldable pub definitions : Text → ℕ → ℕ → ℕ → Text → Option (List Definition)
unfolding find definition experiments
definitions run_id seeds epochs max_rows study =
    if min (min seeds epochs) max_rows == 0
    then none
    else definitions_of run_id seeds epochs max_rows study (find study studies)
