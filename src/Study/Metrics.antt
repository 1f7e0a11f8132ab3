-- ===== src/Study/Metrics.antt =====
-- `_roc_auc` and `_average_precision` of examples/heterosplit/research.py. A score stands by a number, of
-- which only the order matters, and quotients are exact: the rounding of floats is left out. `argsort`
-- is torch's.
use mathlib.Core.List.{Perm}
use rungrid.Common.{
  get_elem?, All, ◌≤◌, ◌==◌, ℕ, suc, ◌+◌, ◌-◌, ◌*◌, ◌/◌, Bool, true, false, Option, none, some,
  List, [], ◌∷◌, ◌++◌, map, length, take, range_from, if◌then◌else◌, at, Ascending,
}
use rungrid.Study.Sampling.{put_first}
use rungrid.Study.Sums.{sum_of}

-- As torch documents it: the indices of a tensor, in an order in which the values ascend. Which of two
-- equal values comes first is not said.
pub record IsArgsort (argsort : List ℕ → List ℕ) : Type 0 where
  pub perm : (xs : List ℕ) → Perm (argsort xs) (range_from 0 (length xs))
  pub ascending : (xs : List ℕ) → Ascending (map (at xs) (argsort xs))

pub data Score : Type 0 where
  -- The tensors do not fit, and `float("nan")`.
  mismatch nan : Score
  quotient : ℕ → ℕ → Score

abbrev pub same_label : Bool → Bool → Bool
same_label true b = b
same_label false true = false
same_label false false = true

-- `scores[labels == b]`
unfoldable pub scores_at : Bool → List ℕ → List Bool → Option (List ℕ)
scores_at b [] [] = some []
scores_at b [] (l ∷ ls) = none
scores_at b (x ∷ xs) [] = none
scores_at b (x ∷ xs) (l ∷ ls) =
    let rest = scores_at b xs ls in if same_label b l then put_first (some x) rest else rest

abbrev pub sum : List ℕ → ℕ
sum = sum_of (λ x. x)

module _ (argsort : List ℕ → List ℕ) where
  abbrev pub ranks : List ℕ → List ℕ
  ranks xs = map suc (argsort (argsort xs))

  abbrev pub auc_of : List ℕ → List ℕ → Score
  auc_of [] neg = nan
  auc_of (p ∷ pos) [] = nan
  auc_of (p ∷ pos) (q ∷ neg) =
      let n = length (p ∷ pos) in
      quotient (sum (take n (ranks ((p ∷ pos) ++ q ∷ neg))) - (n * (n + 1)) / 2)
        (n * length (q ∷ neg))

  abbrev pub auc_picked : Option (List ℕ) → Option (List ℕ) → Score
  auc_picked none neg = mismatch
  auc_picked (some pos) none = mismatch
  auc_picked (some pos) (some neg) = auc_of pos neg

  unfoldable pub roc_auc : List ℕ → List Bool → Score
  unfolding scores_at
  roc_auc scores labels = auc_picked (scores_at true scores labels) (scores_at false scores labels)

-- `_average_precision`. Its `argsort` is descending: of two equal values either can come first.
abbrev pub Descending : List ℕ → Type 0
Descending [] = Unit
Descending (x ∷ xs) = All (λ y. y ≤ x) xs × Descending xs

pub record IsArgsortDown (argsort : List ℕ → List ℕ) : Type 0 where
  pub perm : (xs : List ℕ) → Perm (argsort xs) (range_from 0 (length xs))
  pub descending : (xs : List ℕ) → Descending (map (at xs) (argsort xs))

-- An `IndexError`, `float("nan")`, or the sum of some quotients over a number.
pub data Average : Type 0 where
  bad_index no_positive : Average
  average : List (ℕ × ℕ) → ℕ → Average

-- `labels[order]`
unfoldable pub labels_in : List Bool → List ℕ → Option (List Bool)
unfolding get_elem?
labels_in labels [] = some []
labels_in labels (i ∷ order) = put_first (get_elem? labels i) (labels_in labels order)

-- `lab.sum()`
abbrev pub positives_of : List Bool → ℕ
positives_of = sum_of (λ l. if l then 1 else 0)

-- `cum_tp / torch.arange(1, ...)` where `lab` is one; the other terms of the sum are zero.
unfoldable pub precisions : ℕ → ℕ → List Bool → List (ℕ × ℕ)
precisions tp i [] = []
precisions tp i (true ∷ lab) = (suc tp, suc i) ∷ precisions (suc tp) (suc i) lab
precisions tp i (false ∷ lab) = precisions tp (suc i) lab

abbrev pub average_of : Option (List Bool) → Average
average_of none = bad_index
average_of (some lab) =
    if positives_of lab == 0 then no_positive else average (precisions 0 0 lab) (positives_of lab)

unfoldable pub average_precision : (List ℕ → List ℕ) → List ℕ → List Bool → Average
unfolding labels_in precisions
average_precision argsort scores labels = average_of (labels_in labels (argsort scores))
