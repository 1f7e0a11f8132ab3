-- ===== src/Study/Preflight.antt =====
-- examples/heterosplit/preflight.py, which splits the records for every regime and five seeds before
-- a study is submitted, and the beginning of `run` in examples/heterosplit/task.py, which it
-- rehearses. `Site` is the data on the disk with the parts of heterosplit that both use.
use rungrid.Common.{
  ℕ, Option, none, some, List, [], ◌∷◌, ◌++◌, range_from, ◌==◌, if◌then◌else◌, Text, codes, text_eq,
}
use rungrid.Study.Protocols.{
  drug_comb, studies, find, Splitter, ProtocolError, Outcome, raised, returned, split_protocol,
}
use rungrid.Study.Records.{Row, Loaded, LoadError, Load, failed, loaded, load_records}
use rungrid.Study.Submit.{Experiment}

pub record Site (R Result : Type 0) : Type 0 where
  -- The header and the rows of the file at a path.
  pub file : Text → List Text × List Row
  pub int : Text → Option ℕ
  pub month : ℕ → Text
  -- The records that a loader gives for the file at a path.
  pub records : Text → Loaded → R
  pub n_records : R → ℕ
  pub splitter : Splitter R Result
  pub n_excluded : Result → ℕ
  pub manifest_digest : Result → Text

pub record PreflightRow : Type 0 where
  pub study : Text
  pub dataset : Text
  pub regime : Text
  pub seed : ℕ
  pub records : ℕ
  pub counts : List ℕ
  pub excluded : ℕ
  pub manifest_digest : Text

pub data PreflightError : Type 0 where
  no_choice no_records : PreflightError
  bad_load : LoadError → PreflightError
  bad_split : ProtocolError → PreflightError

pub data Checked (A : Type 0) : Type 0 where
  stopped : PreflightError → Checked A
  passed : A → Checked A

abbrev pub then_append : {A : Type 0} → Checked (List A) → Checked (List A) → Checked (List A)
then_append (stopped e) rest = stopped e
then_append (passed xs) (stopped e) = stopped e
then_append (passed xs) (passed ys) = passed (xs ++ ys)

-- A loop that appends the rows of each turn, up to the first turn that raises.
unfoldable pub each : {A B : Type 0} → (A → Checked (List B)) → List A → Checked (List B)
each f [] = passed []
each f (x ∷ xs) = then_append (f x) (each f xs)

-- `args.data_dir / (...)`
abbrev pub data_path : Text → Text → Text
data_path data_dir dataset =
    data_dir
    ++ (if text_eq dataset drug_comb
        then codes "/summary_v_1_5.csv"
        else codes "/ml/ml-latest-small/ratings.csv")

module _ {R Result : Type 0} (site : Site R Result) (study : Text) (max_rows : ℕ) where
  abbrev pub load_path : Text → Text → Load Loaded
  load_path path dataset =
      load_records site.int site.month dataset max_rows study (site.file path).0 (site.file path).1

  abbrev pub row_of : R → Text → Text → ℕ → Result → PreflightRow
  row_of records dataset regime seed result = record {
    study = study;
    dataset = dataset;
    regime = regime;
    seed = seed;
    records = site.n_records records;
    counts = site.splitter.counts result;
    excluded = site.n_excluded result;
    manifest_digest = site.manifest_digest result;
  }

  abbrev pub rows_of : R → Text → Text → ℕ → Outcome Result → Checked (List PreflightRow)
  rows_of records dataset regime seed (raised e) = stopped (bad_split e)
  rows_of records dataset regime seed (returned result) =
      passed (row_of records dataset regime seed result ∷ [])

  unfoldable pub check_seed : R → Text → Text → ℕ → Checked (List PreflightRow)
  unfolding split_protocol
  check_seed records dataset regime seed =
      rows_of records dataset regime seed
        (split_protocol site.splitter records dataset regime seed study)

  unfoldable pub check_regime : R → Text → Text → Checked (List PreflightRow)
  unfolding check_seed each
  check_regime records dataset regime = each (check_seed records dataset regime) (range_from 0 5)

  abbrev pub check_loaded : Text → Text → List Text → Load Loaded → Checked (List PreflightRow)
  check_loaded path dataset regimes (failed e) = stopped (bad_load e)
  check_loaded path dataset regimes (loaded l) =
      if site.n_records (site.records path l) == 0
      then stopped no_records
      else each (check_regime (site.records path l) dataset) regimes

  unfoldable pub check_dataset : Text → Text × List Text → Checked (List PreflightRow)
  unfolding load_records check_regime
  check_dataset data_dir row =
      let path = data_path data_dir row.0 in check_loaded path row.0 row.1 (load_path path row.0)

  abbrev pub check_table : Text → Option (List (Text × List Text)) → Checked (List PreflightRow)
  check_table data_dir none = stopped no_choice
  check_table data_dir (some table) = each (check_dataset data_dir) table

  unfoldable pub preflight : Text → Checked (List PreflightRow)
  unfolding find check_dataset
  preflight data_dir = check_table data_dir (find study studies)

  abbrev pub split_result : ℕ → Outcome Result → Checked (ℕ × Result)
  split_result n (raised e) = stopped (bad_split e)
  split_result n (returned result) = passed (n, result)

  -- The beginning of a task, up to the saved manifest: the number of records, and their split.
  abbrev pub split_loaded : Text → Text → Text → ℕ → Load Loaded → Checked (ℕ × Result)
  split_loaded path dataset regime seed (failed e) = stopped (bad_load e)
  split_loaded path dataset regime seed (loaded l) =
      split_result (site.n_records (site.records path l))
        (split_protocol site.splitter (site.records path l) dataset regime seed study)

  unfoldable pub split_task : Text → Experiment → Checked (ℕ × Result)
  unfolding load_records split_protocol
  split_task path e = split_loaded path e.dataset e.regime e.seed (load_path path e.dataset)
