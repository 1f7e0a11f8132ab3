-- ===== src/Study/Tests.antt =====
-- The study at concrete inputs: a splitter and a generator that stand for the packages'.
use native.Mathlib.Nat.{mod-lt}
use rungrid.Common.{
  ℕ, zero, suc, ◌+◌, ◌%◌, ◌≡◌, ◌≢◌, ◌≤◌, ◌<◌, refl, false, Option, none, some, List, [], ◌∷◌,
  length, map, Text, codes, All, arith, ◌*◌,
}
use rungrid.Study.Protocols.{
  movie_lens, original, original_v1, expanded_v2, plan, Splitter, raised, returned, find, not_part,
  regimes, split_by, split_protocol,
}
use rungrid.Study.Submit.{Definition, definition, definitions, experiments}
use rungrid.Study.Jobs.{definitions_apart}
use rungrid.Sdk.Client.{batch, request}
use rungrid.Study.Keys.{regime_count}
use rungrid.Study.Pairs.{Pairwise}
use rungrid.Study.Present.{AsksAll}
use rungrid.Study.Batch.{submit_study, submit_study-Pairwise}
use rungrid.Study.Sampling.{Edge, Generator, sample_pairs}
use rungrid.Study.Negatives.{IsLawful, IsNegative, sample_pairs-Negative}
use rungrid.Study.Nodes.{SplitResult, prepare}
use rungrid.Study.Graph.{IsGraph, prepare-IsGraph}
use rungrid.Study.Records.{Row, Columns}
use rungrid.Study.Task.{Identity, Trained, trained, run_task}

-- Records are a number, and every partition holds as many.
abbrev pub halves : Splitter ℕ (ℕ × Option (List (Text × Text)))
halves = record {
  pair = λ r. suc r;
  split = λ r regime holdout seed undirected. (r, holdout);
  leaks = λ r. false;
  counts = λ r. r.0 ∷ r.0 ∷ [];
}

abbrev both_month : Text
both_month = codes "both_month_cold_start"

split_runs :
    split_protocol halves 7 movie_lens both_month 1 expanded_v2
    ≡ returned (
      7,
      some (
          (codes "rating_month", codes "all")
          ∷ (codes "user", codes "source")
          ∷ (codes "movie", codes "destination")
          ∷ []),
    )
unfolding split_protocol split_by plan
split_runs = refl

split_refuses : split_protocol halves 7 movie_lens both_month 1 original_v1 ≡ raised not_part
unfolding split_protocol split_by plan
split_refuses = refl

abbrev jobs : Text → List Definition
jobs run_id = map (definition run_id 3 9 original_v1) (experiments 1 original)

definitions_apart_example :
    All
      (λ d.
        All
          (λ d'.
            d.idempotency_key ≡ d'.idempotency_key → (codes "r" ≡ codes "s") × (d.name ≡ d'.name))
          (jobs (codes "s")))
      (jobs (codes "r"))
unfolding definitions
definitions_apart_example =
    definitions_apart (codes "r") (codes "s") original_v1 1 1 3 3 9 9 (jobs (codes "r"))
      (jobs (codes "s")) refl refl

abbrev same : ℕ → ℕ → List ℕ
same zero n = []
same (suc count) n = n ∷ same count n

-- The state of this generator counts its calls, and it draws one number all the time.
abbrev pub counter : Generator ℕ
counter = record { randint = λ g high count. (same count (g % high), suc g) }

length-same : (count n : ℕ) → length (same count n) ≡ count
length-same zero n = refl
length-same (suc count) n = omega (arith, length-same count n)

same-below : (count n high : ℕ) → n < high → All (λ i. i < high) (same count n)
same-below zero n high h = tt
same-below (suc count) n high h = (h, same-below count n high h)

counter-IsLawful : IsLawful counter
counter-IsLawful = record {
  count_of = λ g high count h. length-same count (g % high);
  below = λ g high count h. same-below count (g % high) high (mod-lt g h);
}

abbrev pair_of : List Edge
pair_of = (0, 1) ∷ []

sample_runs :
    (sample_pairs counter (5 ∷ 6 ∷ []) (7 ∷ 8 ∷ []) 2 pair_of false 0).0
    ≡ some ((5, 8) ∷ (5, 8) ∷ [])
unfolding sample_pairs
sample_runs = refl

sample_pairs-Negative_example :
    (out : List Edge) × ((sample_pairs counter (5 ∷ 6 ∷ []) (7 ∷ 8 ∷ []) 2 pair_of false 0).0
      ≡ some out)
    × (length out ≤ 2)
    × All (IsNegative (5 ∷ 6 ∷ []) (7 ∷ 8 ∷ []) pair_of false) out
sample_pairs-Negative_example =
    sample_pairs-Negative counter (5 ∷ 6 ∷ []) (7 ∷ 8 ∷ []) 2 pair_of false 0 counter-IsLawful

abbrev pub small : SplitResult
small = record {
  self_rel = false;
  n_source = 2;
  n_destination = 3;
  message_passing = (0, 2) ∷ (1, 0) ∷ [];
  train = (0, 2) ∷ [];
  test = (1, 1) ∷ [];
  codes_of = (0, 2) ∷ (1, 1) ∷ [];
}

prepare_runs : (prepare small).mp ≡ (0, 4) ∷ (1, 2) ∷ (4, 0) ∷ (2, 1) ∷ []
unfolding prepare
prepare_runs = refl

prepare-IsGraph_example : IsGraph small (prepare small)
prepare-IsGraph_example = prepare-IsGraph small (omega arith) (omega arith)

abbrev pub ratings : List Row
ratings =
    record { user_id = codes "1"; movie_id = codes "31"; timestamp = codes "12" }
    ∷ record { user_id = codes "2"; movie_id = codes "10"; timestamp = codes "13" }
    ∷ []

abbrev pub header : List Text
header = codes "userId" ∷ codes "movieId" ∷ codes "rating" ∷ codes "timestamp" ∷ []

abbrev pub read_int : Text → Option ℕ
read_int s = some (length s)

abbrev first_row : Columns
first_row = record {
  user = codes "1" ∷ [];
  movie = codes "31" ∷ [];
  rating_month = codes "1970-01" ∷ [];
  timestamps = 2 ∷ [];
}

abbrev identity : Identity
identity = record {
  study = expanded_v2;
  dataset = movie_lens;
  regime = both_month;
  model = codes "MF";
  seed = 1;
  epochs = 3;
  dim = 16;
  manifest_digest = codes "d";
}

-- Each epoch doubles the state and adds one.
abbrev trained_once : Trained ℕ
trained_once = record {
  resumed_epoch = 0;
  state = 15;
  checkpoints =
      record { identity = identity; epoch = 1; torch = 3 }
      ∷ record { identity = identity; epoch = 2; torch = 7 }
      ∷ record { identity = identity; epoch = 3; torch = 15 }
      ∷ [];
}

run_task_runs : run_task (λ s. some (s * 2 + 1)) identity 4 2 1 none ≡ trained trained_once
unfolding run_task
run_task_runs = refl

submit_study-Pairwise_example :
    (ds : List Definition) × (submit_study
        (codes "http://localhost:8080/")
        (λ ds. codes "[]")
        (codes "u")
        (codes "r")
        5
        3
        120000
        expanded_v2
      ≡ some (request (codes "http://localhost:8080/") (batch (codes "[]")) (codes "u")))
    × (length ds ≡ 2 * 5 * regime_count regimes)
    × AsksAll expanded_v2 5 3 120000 regimes ds
    × Pairwise (λ d d'. d.idempotency_key ≢ d'.idempotency_key) ds
unfolding find
submit_study-Pairwise_example =
    submit_study-Pairwise (codes "http://localhost:8080/") (λ ds. codes "[]") (codes "u")
      (codes "r") expanded_v2 5 3 120000 regimes (omega arith) (omega arith) (omega arith) refl
