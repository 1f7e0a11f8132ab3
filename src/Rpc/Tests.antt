-- ===== src/Rpc/Tests.antt =====
-- A call of the control plane on a link that fails twice and then answers.
use rungrid.Common.{
  ℕ, zero, suc, ◌+◌, ◌≤◌, ◌/◌, ◌≡◌, refl, none, some, [], ◌∷◌, arith, length, All, codes,
}
use rungrid.Wire.{heartbeat, Response, Reply, answered, rpc_error, unavailable}
use rungrid.Rpc.Loop.{Link, Rpc, returned, call, build_request, stamp}
use rungrid.Rpc.Rule.{Returns}
use rungrid.Rpc.Bounds.{IsRound, BacksOff, call_sends, call-BacksOff, call_ends}
use rungrid.Rpc.Deadline.{Concludes, StampsLater, Outlives, call-Concludes, call-Outlives}

abbrev leased : Response
leased = record { lease_expires_at = some 39000; server_time = some 9000; body = [] }

abbrev flaky : ℕ → Reply
flaky zero = rpc_error unavailable
flaky (suc zero) = rpc_error unavailable
flaky (suc (suc _)) = answered leased

abbrev flaky_link : Link
flaky_link = record {
  answer = λ i m req limit. flaky i;
  takes = λ i limit. 10;
  oversleeps = λ i. 1;
}

abbrev slow_link : Link
slow_link = record {
  answer = λ i m req limit. flaky i;
  takes = λ i limit. limit;
  oversleeps = λ i. 1;
}

abbrev me : Rpc
me = record { worker_id = codes "w"; session_id = codes "s" }

-- The first request leaves at 5000, the server stamps 9000 and grants 30 s.
flaky_runs :
    call flaky_link me heartbeat none 2000 0 none [] (codes "r") 5000
    ≡ some (record {
      rounds =
          record {
            request = build_request me none 0 none [] (codes "r");
            timeout = 2000;
            slept = some 100;
          }
          ∷ record {
            request = build_request me none 0 none [] (codes "r");
            timeout = 1889;
            slept = some 200;
          }
          ∷ record {
            request = build_request me none 0 none [] (codes "r");
            timeout = 1678;
            slept = none;
          }
          ∷ [];
      outcome = returned (record { response = leased; local_deadline = some 34500 });
      finished = 5332;
    })
unfolding call stamp
flaky_runs = refl

call_sends_example :
    Returns (call flaky_link me heartbeat none 2000 0 none [] (codes "r") 5000) λ run.
      All (IsRound (build_request me none 0 none [] (codes "r"))) run.rounds
      × (length run.rounds ≤ suc (2000 / 100))
call_sends_example = call_sends flaky_link me heartbeat none 2000 0 5000 none [] (codes "r")

call-BacksOff_example :
    Returns
      (call flaky_link me heartbeat none 2000 0 none [] (codes "r") 5000)
      λ run. BacksOff 0 run.rounds
call-BacksOff_example = call-BacksOff flaky_link me heartbeat none 2000 0 5000 none [] (codes "r")

call_ends_example :
    Returns
      (call slow_link me heartbeat none 2000 0 none [] (codes "r") 5000)
      λ run. run.finished ≤ 5000 + 2000 + 1 + 10
call_ends_example =
    call_ends slow_link me heartbeat none 2000 0 5000 none [] (codes "r") 1
      (λ i limit. omega arith, λ i. omega arith)

call-Concludes_example :
    Returns (call flaky_link me heartbeat none 2000 0 none [] (codes "r") 5000) λ run.
      Concludes flaky_link heartbeat
        (build_request me none 0 none [] (codes "r"))
        5000
        (5000 + 2000)
        run
call-Concludes_example = call-Concludes flaky_link me heartbeat none 2000 0 5000 none [] (codes "r")

flaky_stamps :
    (i : ℕ) (r : Response) (server : ℕ)
    → flaky i ≡ answered r
    → r.server_time ≡ some server
    → 5000 + 4000 ≤ server
flaky_stamps zero r server e q = cc
flaky_stamps (suc zero) r server e q = cc
flaky_stamps (suc (suc i)) r server e q = ground arith

flaky_link-StampsLater : StampsLater flaky_link heartbeat 4000 5000
flaky_link-StampsLater i req limit r server = flaky_stamps i r server

call-Outlives_example :
    Returns
      (call flaky_link me heartbeat none 2000 0 none [] (codes "r") 5000)
      λ run. Outlives 4000 run.outcome
call-Outlives_example =
    call-Outlives flaky_link me heartbeat none 2000 0 5000 none [] (codes "r") 4000
      flaky_link-StampsLater
