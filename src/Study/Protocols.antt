-- ===== src/Study/Protocols.antt =====
-- The tables and `split_protocol` of examples/heterosplit/protocols.py. The `heterosplit` package
-- is the parameter `Splitter`.
use rungrid.Common.{
  ℕ, Bool, true, false, ◌||◌, Option, none, some, List, [], ◌∷◌, ◌++◌, Text, codes, text_eq,
  if◌then◌else◌, ◌==◌,
}

-- `name in names`
unfoldable pub among : Text → List Text → Bool
unfolding text_eq
among n [] = false
among n (m ∷ ms) = text_eq n m || among n ms

-- `table.get(name)`
unfoldable pub find {ℓ} : {A : Type ℓ} → Text → List (Text × A) → Option A
unfolding text_eq
find n [] = none
find n (e ∷ es) = if text_eq n e.0 then some e.1 else find n es

abbrev pub drug_comb : Text
drug_comb = codes "DrugComb"

abbrev pub movie_lens : Text
movie_lens = codes "MovieLens"

abbrev pub original : List (Text × List Text)
original =
    (
      drug_comb,
      codes "random"
          ∷ codes "pair_cold_start"
          ∷ codes "either_cold_start"
          ∷ codes "both_cold_start"
          ∷ [],
    )
    ∷ (
      movie_lens,
      codes "random"
          ∷ codes "source_cold_start"
          ∷ codes "destination_cold_start"
          ∷ codes "both_cold_start"
          ∷ [],
    )
    ∷ []

abbrev pub regimes : List (Text × List Text)
regimes =
    (
      drug_comb,
      codes "random"
          ∷ codes "pair_cold_start"
          ∷ codes "either_cold_start"
          ∷ codes "both_cold_start"
          ∷ codes "cell_cold_start"
          ∷ codes "pair_cell_cold_start"
          ∷ codes "either_cell_cold_start"
          ∷ codes "both_cell_cold_start"
          ∷ [],
    )
    ∷ (
      movie_lens,
      codes "random"
          ∷ codes "source_cold_start"
          ∷ codes "destination_cold_start"
          ∷ codes "both_cold_start"
          ∷ codes "month_cold_start"
          ∷ codes "source_month_cold_start"
          ∷ codes "destination_month_cold_start"
          ∷ codes "both_month_cold_start"
          ∷ [],
    )
    ∷ []

abbrev pub original_v1 : Text
original_v1 = codes "original-v1"

abbrev pub expanded_v2 : Text
expanded_v2 = codes "expanded-v2"

abbrev pub studies : List (Text × List (Text × List Text))
studies = (original_v1, original) ∷ (expanded_v2, regimes) ∷ []

unfoldable pub regimes_in : Text → Option (List (Text × List Text)) → Option (List Text)
unfolding find
regimes_in dataset none = none
regimes_in dataset (some table) = find dataset table

-- `STUDIES[study][dataset]`
unfoldable pub regimes_of : Text → Text → Option (List Text)
unfolding find regimes_in
regimes_of study dataset = regimes_in dataset (find study studies)

-- What `split_protocol` tells the splitter to do: the regime that it knows, what it holds out, and
-- if the records get the column of the unordered pairs of drugs.
pub record Plan : Type 0 where
  pub native_regime : Text
  pub holdout : Option (List (Text × Text))
  pub paired : Bool

abbrev drug_plan : Text → Plan
drug_plan regime =
    if text_eq regime (codes "pair_cell_cold_start")
    then record {
      native_regime = codes "joint_cold_start";
      holdout = some ((codes "cell_line", codes "all") ∷ (codes "drug_pair", codes "all") ∷ []);
      paired = true;
    }
    else record {
      native_regime = codes "joint_cold_start";
      holdout = some (
          (codes "cell_line", codes "all")
          ∷ (
            codes "drug",
            if text_eq regime (codes "either_cell_cold_start")
                then codes "either"
                else codes "both",
          )
          ∷ []);
      paired = false;
    }

abbrev movie_plan : Text → Plan
movie_plan regime =
    let both = text_eq regime (codes "both_month_cold_start") in
    record {
      native_regime = codes "joint_cold_start";
      holdout = some (
          (codes "rating_month", codes "all")
          ∷ ((if text_eq regime (codes "source_month_cold_start") || both
                then (codes "user", codes "source") ∷ []
                else [])
              ++ (if text_eq regime (codes "destination_month_cold_start") || both
                  then (codes "movie", codes "destination") ∷ []
                  else [])));
      paired = false;
    }

-- The choices of `split_protocol` for a regime of a dataset, whose original regimes are given.
unfoldable pub plan : List Text → Text → Text → Plan
unfolding among text_eq
plan native dataset regime =
    if text_eq regime (codes "cell_cold_start") || text_eq regime (codes "month_cold_start")
    then record { native_regime = codes "context_cold_start"; holdout = none; paired = false }
    else if among regime native
    then record { native_regime = regime; holdout = none; paired = false }
    else if text_eq dataset drug_comb
    then drug_plan regime
    else movie_plan regime

pub data ProtocolError : Type 0 where
  unknown_study not_part leakage empty_partition : ProtocolError

-- The parts of `heterosplit` that are used: `pair` rewrites the records to have the column of the
-- pairs of drugs, `split` is `split_records` on the specification's regime, holdout, seed and
-- `undirected_pairs`, `leaks` is what the audit finds and `counts` are the sizes of the partitions.
pub record Splitter (Records Result : Type 0) : Type 0 where
  pub pair : Records → Records
  pub split : Records → Text → Option (List (Text × Text)) → ℕ → Bool → Result
  pub leaks : Result → Bool
  pub counts : Result → List ℕ

pub data Outcome (R : Type 0) : Type 0 where
  raised : ProtocolError → Outcome R
  returned : R → Outcome R

unfoldable pub any_zero : List ℕ → Bool
any_zero [] = false
any_zero (n ∷ ns) = (n == 0) || any_zero ns

module _ {Records Result : Type 0} (splitter : Splitter Records Result) where
  unfoldable pub audited : Result → Outcome Result
  unfolding any_zero
  audited result =
      if splitter.leaks result
      then raised leakage
      else if any_zero (splitter.counts result)
      then raised empty_partition
      else returned result

  unfoldable pub split_by : Records → Text → ℕ → Plan → Outcome Result
  unfolding audited
  split_by records dataset seed p = audited (
      splitter.split (if p.paired then splitter.pair records else records) p.native_regime p.holdout
        seed (text_eq dataset drug_comb))

  -- The original regimes are in the table of every dataset that `STUDIES[study]` has.
  abbrev pub split_known :
      Records → Text → Text → ℕ → Option (List Text) → Option (List Text) → Outcome Result
  split_known records dataset regime seed none native = raised unknown_study
  split_known records dataset regime seed (some known) none = raised unknown_study
  split_known records dataset regime seed (some known) (some native) =
      if among regime known
      then split_by records dataset seed (plan native dataset regime)
      else raised not_part

  unfoldable pub split_protocol : Records → Text → Text → ℕ → Text → Outcome Result
  unfolding regimes_of find among
  split_protocol records dataset regime seed study =
      split_known records dataset regime seed (regimes_of study dataset) (find dataset original)
