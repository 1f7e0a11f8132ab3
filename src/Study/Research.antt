-- ===== src/Study/Research.antt =====
-- `run_once` of examples/heterosplit/research.py and the tables that it is run with: the experiment
-- as one call, with no checkpoints. The study's task does the same over attempts.
use rungrid.Common.{
  range_from, ℕ, zero, suc, ◌-◌, Bool, true, false, Option, none, some, List, [], ◌∷◌, length,
  if◌then◌else◌, Text, codes, text_eq,
}
use rungrid.Study.Sampling.{Edge, sample_pairs}
use rungrid.Study.Nodes.{Prep, prepare}
use rungrid.Study.Metrics.{Score, roc_auc, Average, average_precision}
use rungrid.Study.Preflight.{Site}
use rungrid.Study.Protocols.{drug_comb, movie_lens}
use rungrid.Study.Run.{Torch, test_sources, test_destinations, scores_of, labels, stepped}

-- A row: regime, holdout and `undirected_pairs`.
pub record Setting : Type 0 where
  pub regime : Text
  pub holdout : Option (List (Text × Text))
  pub undirected : Bool

abbrev pub drugcomb_regimes : List Setting
drugcomb_regimes =
    record { regime = codes "random"; holdout = none; undirected = true }
    ∷ record { regime = codes "pair_cold_start"; holdout = none; undirected = true }
    ∷ record { regime = codes "either_cold_start"; holdout = none; undirected = true }
    ∷ record { regime = codes "both_cold_start"; holdout = none; undirected = true }
    ∷ []

abbrev pub movielens_regimes : List Setting
movielens_regimes =
    record { regime = codes "random"; holdout = none; undirected = false }
    ∷ record { regime = codes "source_cold_start"; holdout = none; undirected = false }
    ∷ record { regime = codes "destination_cold_start"; holdout = none; undirected = false }
    ∷ record { regime = codes "both_cold_start"; holdout = none; undirected = false }
    ∷ []

-- The two tables by the names of their datasets.
abbrev pub settings : List (Text × List Setting)
settings = (drug_comb, drugcomb_regimes) ∷ (movie_lens, movielens_regimes) ∷ []

unfoldable pub setting_of : Text → List Setting → Option Setting
unfolding text_eq
setting_of regime [] = none
setting_of regime (s ∷ ss) = if text_eq regime s.regime then some s else setting_of regime ss

module _ {R Result S G : Type 0} (site : Site R Result) (torch : Torch Result S G) where
  -- `src_all` and `dst_all`
  abbrev pub src_all : Prep → List ℕ
  src_all p = range_from 0 p.n_src

  abbrev pub dst_all : Prep → List ℕ
  dst_all p =
      if p.self_rel then range_from 0 p.n_src else range_from p.offset (p.num_nodes - p.offset)

  -- The loop over so many epochs; nothing where a sampling raises.
  unfoldable pub epochs_on : Prep → ℕ → S → Option S
  unfolding sample_pairs range_from
  epochs_on p zero s = some s
  epochs_on p (suc n) s =
      elim (stepped site torch p s (
        sample_pairs torch.generator (src_all p) (dst_all p) (length p.train_pos) p.positives
          p.self_rel (torch.generator_of s))) [ none ↦ none | some s' ↦ epochs_on p n s' ]

  abbrev pub scored : Prep → S → Option (List Edge) → Option (Score × Average)
  scored p s none = none
  scored p s (some neg) = some (
    roc_auc torch.argsort (scores_of site torch p s neg) (labels site torch p neg),
    average_precision torch.argsort_down (scores_of site torch p s neg) (labels site torch p neg),
  )

  abbrev pub evaluated_on : Prep → Option S → Option (Score × Average)
  evaluated_on p none = none
  evaluated_on p (some s) =
      scored p s
        (sample_pairs torch.generator (test_sources site torch p) (test_destinations site torch p)
          (length p.test_pos) p.positives p.self_rel (torch.generator_of s)).0

  -- AUC and average precision, which need not be finite; nothing where a sampling raises.
  unfoldable pub run_once : R → Setting → Text → ℕ → ℕ → ℕ → Option (Score × Average)
  unfolding prepare epochs_on sample_pairs
  run_once records row model dim epochs seed =
      let p =
        prepare
          (torch.edges (site.splitter.split records row.regime row.holdout seed row.undirected)) in
      evaluated_on p (epochs_on p epochs (torch.start model p.num_nodes dim seed))
