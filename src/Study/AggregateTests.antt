-- ===== src/Study/AggregateTests.antt =====
-- The script of examples/heterosplit/aggregate.py on one job, in two rounds.
use rungrid.Common.{
  ℕ, map, join, str, length, Text, codes, ◌≢◌, ◌++◌, All, Option, none, some, zero, suc, ◌≡◌, refl,
  List, [], ◌∷◌, map, codes,
}
use rungrid.Study.Groups.{MetricsRow, Key, table, heading, summary_md, write_summary}
use rungrid.Study.Grouped.{values_at, values_of, InOrder, Apart}
use rungrid.Study.Tabled.{table-InOrder}
use rungrid.Study.Aggregate.{StudyJob, collected, aggregate}
use rungrid.Study.Polling.{Answers, ended, aggregate_study}

abbrev finished_jobs : List StudyJob
finished_jobs =
    record {
      state = codes "SUCCEEDED";
      attempts = codes "a1" ∷ codes "a2" ∷ [];
      artifacts =
          record {
            attempt_id = codes "a1";
            object_key = codes "k1-metrics.json";
            checksum = codes "x";
          }
          ∷ record {
            attempt_id = codes "a2";
            object_key = codes "k2-metrics.json";
            checksum = codes "k2-metrics.json";
          }
          ∷ record {
            attempt_id = codes "a2";
            object_key = codes "k2-split-manifest.json";
            checksum = codes "y";
          }
          ∷ [];
    }
    ∷ []

aggregate_runs :
    aggregate (λ k. k) (λ c. c) finished_jobs ≡ collected (codes "k2-metrics.json" ∷ [])
unfolding aggregate
aggregate_runs = refl

abbrev active : StudyJob → StudyJob
active j = record j { state = codes "RUNNING" }

-- Active in the first round, and finished in the second.
abbrev answers : Answers
answers = record {
  jobs = λ n. elim n [ zero ↦ map active finished_jobs | suc k ↦ finished_jobs ];
  takes = λ n. 20;
}

aggregate_study_runs :
    aggregate_study (λ k. k) (λ c. c) answers 7200
    ≡ some (ended (collected (codes "k2-metrics.json" ∷ [])))
unfolding aggregate_study aggregate
aggregate_study_runs = refl

abbrev metrics_row : Option Text → Text → ℕ → MetricsRow
metrics_row study model auc = record {
  study = study;
  dataset = codes "MovieLens";
  regime = codes "random";
  model = model;
  auc = auc;
}

-- An old row without a study falls in with those of the original study.
abbrev metrics_rows : List MetricsRow
metrics_rows =
    metrics_row none (codes "SAGE") 7
    ∷ metrics_row (some (codes "original-v1")) (codes "MF") 5
    ∷ metrics_row (some (codes "original-v1")) (codes "SAGE") 9
    ∷ []

table_runs : map (λ g. g.1) (table metrics_rows) ≡ (5 ∷ []) ∷ (7 ∷ 9 ∷ []) ∷ []
unfolding table
table_runs = refl

table-InOrder_example :
    ((k : Key) → values_at k (table metrics_rows) ≡ values_of k metrics_rows)
    × All (λ g. g.1 ≢ []) (table metrics_rows)
    × InOrder (table metrics_rows)
    × Apart (table metrics_rows)
table-InOrder_example = table-InOrder metrics_rows

write_summary_runs :
    write_summary
      (λ c. some (metrics_row none (codes "MF") (length c)))
      (λ q. str q.0)
      (λ vs. codes "0")
      (collected ((1 ∷ []) ∷ []))
    ≡ summary_md (
        join
          (codes "\n")
          (heading ++ codes "| original-v1 | MovieLens | random | MF | 1 | 1 | 0 |" ∷ [])
        ++ codes "\n")
unfolding write_summary join str
write_summary_runs = refl
