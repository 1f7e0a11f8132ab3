-- ===== src/Worker/Run/Tests.antt =====
-- A worker with one CPU in three rounds.
use rungrid.Common.{◌≡◌, refl, false, none, List, [], ◌∷◌, map}
use rungrid.Wire.{register_worker, lease_job, heartbeat, release_worker}
use rungrid.Artifacts.Tests.{lease}
use rungrid.Worker.Run.{Round, granted, idle, run}
use rungrid.Worker.Run.Pool.{IsBounded, run-IsBounded}

abbrev rounds : List Round
rounds =
    record { finished = λ l. false; beat = none; offer = idle; beat_takes = 5; lease_takes = 2000 }
    ∷ record {
      finished = λ l. false;
      beat = none;
      offer = granted lease;
      beat_takes = 5;
      lease_takes = 10;
    }
    ∷ record {
      finished = λ l. false;
      beat = none;
      offer = granted lease;
      beat_takes = 5;
      lease_takes = 10;
    }
    ∷ []

run_asks :
    map (λ a. a.method) (run 1 9000 none rounds none).asked
    ≡ release_worker ∷ lease_job ∷ lease_job ∷ heartbeat ∷ register_worker ∷ []
unfolding run
run_asks = refl

run-IsBounded_example : IsBounded 1 (run 1 9000 none rounds none)
run-IsBounded_example = run-IsBounded 1 9000 none rounds none
