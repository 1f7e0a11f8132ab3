-- ===== src/Study/Groups.antt =====
-- The table of examples/heterosplit/aggregate.py: the AUCs of the collected rows by study, dataset, regime
-- and model. An AUC stands by a number in some unit, and a mean is a quotient. How JSON is read, and how
-- a mean and a standard deviation are printed, are parameters.
use rungrid.Common.{
  ℕ, Bool, true, false, ◌&&◌, ◌||◌, Option, none, some, List, [], ◌∷◌, ◌++◌, map, length, ltb, ◌==◌,
  if◌then◌else◌, Text, codes, text_eq, join, str,
}
use rungrid.Study.Protocols.{original_v1}
use rungrid.Study.Sums.{sum_of}
use rungrid.Study.Aggregate.{AggregateError, Collected, raised, collected}

-- The fields of a row that the table shows.
pub record MetricsRow : Type 0 where
  pub study : Option Text
  pub dataset : Text
  pub regime : Text
  pub model : Text
  pub auc : ℕ

abbrev pub Key : Type 0
Key = List Text

abbrev pub or_original : Option Text → Text
or_original none = original_v1
or_original (some study) = study

abbrev pub group_of : MetricsRow → Key
group_of r = or_original r.study ∷ r.dataset ∷ r.regime ∷ r.model ∷ []

unfoldable pub same_key : Key → Key → Bool
unfolding text_eq
same_key [] [] = true
same_key (s ∷ k) (t ∷ l) = text_eq s t && same_key k l
same_key _ _ = false

-- `groups[key].append(value)`, of a `defaultdict(list)`.
unfoldable pub append_value : Key → ℕ → List (Key × List ℕ) → List (Key × List ℕ)
unfolding same_key
append_value k v [] = (k, v ∷ []) ∷ []
append_value k v (g ∷ gs) =
    let rest = append_value k v gs in if same_key k g.0 then (g.0, g.1 ++ v ∷ []) ∷ gs else g ∷ rest

unfoldable pub add_rows : List MetricsRow → List (Key × List ℕ) → List (Key × List ℕ)
unfolding append_value
add_rows [] groups = groups
add_rows (r ∷ rs) groups = add_rows rs (append_value (group_of r) r.auc groups)

-- `s <= t` of two texts, and of two keys.
unfoldable pub text_le : Text → Text → Bool
text_le [] t = true
text_le (a ∷ s) [] = false
text_le (a ∷ s) (b ∷ t) = ltb a b || (a == b && text_le s t)

unfoldable pub key_le : Key → Key → Bool
unfolding text_eq text_le
key_le [] l = true
key_le (s ∷ k) [] = false
key_le (s ∷ k) (t ∷ l) = let rest = key_le k l in if text_eq s t then rest else text_le s t

-- `sorted(groups.items())`: no two keys are the same, so that the values are not compared.
unfoldable pub insert_group : Key × List ℕ → List (Key × List ℕ) → List (Key × List ℕ)
unfolding key_le
insert_group g [] = g ∷ []
insert_group g (h ∷ gs) =
    let rest = insert_group g gs in if key_le g.0 h.0 then g ∷ h ∷ gs else h ∷ rest

unfoldable pub sort_groups : List (Key × List ℕ) → List (Key × List ℕ)
unfolding insert_group
sort_groups [] = []
sort_groups (g ∷ gs) = insert_group g (sort_groups gs)

unfoldable pub table : List MetricsRow → List (Key × List ℕ)
unfolding add_rows sort_groups
table rows = sort_groups (add_rows rows [])

abbrev pub mean : List ℕ → ℕ × ℕ
mean values = (sum_of (λ v. v) values, length values)

abbrev pub heading : List Text
heading =
    codes "# HeteroSplit distributed experiment results"
    ∷ []
    ∷ codes
        "A scheduler demonstration; reduced data/epochs are not a replication of the published study."
    ∷ []
    ∷ codes
        "Context holdouts use context-blind link predictors; month holdouts are not chronological forecasting."
    ∷ []
    ∷ codes "| Study | Dataset | Regime | Model | Seeds | AUC mean | AUC std |"
    ∷ codes "|---|---|---|---|---:|---:|---:|"
    ∷ []

pub data Written : Type 0 where
  not_collected : AggregateError → Written
  -- A content that is no JSON of the fields. (The script reads each content before the next is fetched,
  -- so that it can raise this before an error of a later job.)
  bad_json : Written
  -- The text of `summary.md`.
  summary_md : Text → Written

module _ (json : List ℕ → Option MetricsRow) (fixed : ℕ × ℕ → Text)
    (deviation : List ℕ → Text) where
  unfoldable pub summary_line : Key × List ℕ → Text
  unfolding join str
  summary_line g =
      codes "| "
      ++ (join (codes " | ") g.0
          ++ (codes " | "
              ++ (str (length g.1)
                  ++ (codes " | "
                      ++ (fixed (mean g.1) ++ (codes " | " ++ (deviation g.1 ++ codes " |")))))))

  abbrev pub put_read : Option MetricsRow → Option (List MetricsRow) → Option (List MetricsRow)
  put_read none rest = none
  put_read (some r) none = none
  put_read (some r) (some rs) = some (r ∷ rs)

  unfoldable pub read_metrics : List (List ℕ) → Option (List MetricsRow)
  read_metrics [] = some []
  read_metrics (c ∷ cs) = put_read (json c) (read_metrics cs)

  abbrev pub text_of : Option (List MetricsRow) → Written
  text_of none = bad_json
  text_of (some rows) =
      summary_md (join (codes "\n") (heading ++ map summary_line (table rows)) ++ codes "\n")

  -- The script from its collected rows on.
  unfoldable pub write_summary : Collected (List (List ℕ)) → Written
  unfolding read_metrics table summary_line join
  write_summary (raised e) = not_collected e
  write_summary (collected contents) = text_of (read_metrics contents)
