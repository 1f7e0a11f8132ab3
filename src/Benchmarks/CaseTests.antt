-- ===== src/Benchmarks/CaseTests.antt =====
-- A case of two jobs, which have succeeded at the second poll; another run has rows beside them.
use rungrid.Common.{
  has_code, ℕ, zero, suc, ◌+◌, ◌*◌, ◌≤◌, ◌<◌, ◌≡◌, refl, ap, Bool, true, false, Option, some, List,
  [], ◌∷◌, ◌++◌, map, length, Text, codes, starts_with, All, arith, str, text_eq,
}
use rungrid.Benchmarks.Batches.{submitted, job_key}
use rungrid.Benchmarks.Await.{Sample, pause_ms, ids_where, add_id}
use rungrid.Benchmarks.Rows.{
  stored, own, IsLike, all_in, database_samples, database_samples-own, selected,
}
use rungrid.Benchmarks.Case.{Bench, Summary, Ran, case_done, run_case, queries}
use rungrid.Benchmarks.Outcome.{requests, Concludes, run_case-Concludes}
use rungrid.Benchmarks.Lives.{IsHealthy, run_case_lives}
use rungrid.Benchmarks.Grid.{GridRun, grid_done, main, fewest, Fills, main-Covers}

unfoldable drop_last : Text → Text
drop_last [] = []
drop_last (c ∷ []) = []
drop_last (c ∷ d ∷ s) = c ∷ drop_last (d ∷ s)

drop_last-append : (p : Text) → drop_last (p ++ codes "%") ≡ p
unfolding drop_last
drop_last-append [] = refl
drop_last-append (c ∷ []) = refl
drop_last-append (c ∷ d ∷ p) = ap (c ∷◌) (drop_last-append (d ∷ p))

like : Text → Text → Bool
like s p = starts_with s (drop_last p)

like-IsLike : IsLike like
unfolding like
like-IsLike s p a b c = ap (starts_with s) (drop_last-append p)

abbrev row : Text → Text → Sample
row id state = record {
  id = id;
  state = state;
  attempt_number = codes "1";
  latency = codes "12";
  leased_at = codes "40";
}

abbrev rows_with : Text → List (Text × ℕ × Sample)
rows_with state =
    (codes "0a-1", 0, row (codes "j0") (codes "SUCCEEDED"))
    ∷ (codes "0a-2", 0, row (codes "k0") (codes "FAILED"))
    ∷ (codes "0a-1", 1, row (codes "j1") state)
    ∷ []

abbrev length_of : Text → Option ℕ
length_of t = some (length t)

abbrev bench : Bench
bench = record {
  run_id = codes "0a-1";
  stops = true;
  starts = true;
  url = codes "http://localhost:8080";
  dumps = λ ds. codes "[]";
  fresh = λ k. codes "u";
  answers = λ r. true;
  submit_ms = 30;
  like = like;
  rows = λ n. elim n [
    | zero ↦ map stored (rows_with (codes "RUNNING"))
    | suc m ↦ map stored (rows_with (codes "SUCCEEDED"))
  ];
  reads = λ n. true;
  takes = λ n. 20;
  float = length_of;
  from_iso = length_of;
  records = true;
  describes = true;
  host = record {
    revision = codes "f00";
    dirty = false;
    platform = codes "Linux";
    python = codes "3.12";
    docker = codes "28";
    compose_config = codes "services:";
    timestamp = codes "2026";
  };
}

database_samples-own_example :
    database_samples like (codes "0a-1") (map stored (rows_with (codes "FAILED")))
    ≡ some (row (codes "j0") (codes "SUCCEEDED") ∷ row (codes "j1") (codes "FAILED") ∷ [])
unfolding all_in own text_eq
database_samples-own_example =
    database_samples-own like (codes "0a-1") (rows_with (codes "FAILED")) like-IsLike (omega arith)

run_case-Concludes_example :
    (r : Ran) × (run_case bench (codes "noop") 2 4 7200000 ≡ some r)
    × Concludes bench (codes "noop") 2 4 7200000 r.sent r.outcome
run_case-Concludes_example = run_case-Concludes bench (codes "noop") 2 4 7200000

healthy : (n : ℕ) → All (IsHealthy bench) ((queries bench (codes "noop") 2 4 7200000).rows n)
unfolding database_samples selected like starts_with job_key str text_eq drop_last
healthy zero =
    ((refl, (λ e. (_, refl)), (λ e. (_, refl))), ((refl, (λ e. (_, refl)), (λ e. (_, refl))), tt))
healthy (suc n) =
    ((refl, (λ e. (_, refl)), (λ e. (_, refl))), ((refl, (λ e. (_, refl)), (λ e. (_, refl))), tt))

run_case_lives_example :
    (s : Summary) × (run_case bench (codes "noop") 2 4 7200000
      ≡ some
          (record { sent = requests bench (codes "noop") 0 (submitted 2); outcome = case_done s }))
    × (s.elapsed_ms ≤ 1 * (20 + pause_ms) + 20)
unfolding database_samples selected like starts_with job_key str text_eq drop_last ids_where add_id
    all_in has_code
run_case_lives_example =
    run_case_lives bench (codes "noop") 2 4 7200000 1 20 refl refl (λ r. refl) refl (λ n. refl)
      (λ n. omega arith) refl refl healthy refl (omega arith)

main-Covers_example :
    (g : GridRun) × (main (λ k. bench) 2 7200 1 (codes "noop" ∷ []) (4 ∷ 2 ∷ []) true ≡ some g)
    × ((ss : List Summary)
        → g ≡ grid_done ss
        → (0 < 2)
          × (2 ≤ 100000)
          × (0 < fewest (4 ∷ 2 ∷ []))
          × Fills (λ k. bench) 2 7200 1 (codes "noop" ∷ []) (4 ∷ 2 ∷ []) ss)
main-Covers_example = main-Covers (λ k. bench) 2 7200 1 (codes "noop" ∷ []) (4 ∷ 2 ∷ []) true
