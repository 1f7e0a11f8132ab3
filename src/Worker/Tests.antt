-- ===== src/Worker/Tests.antt =====
-- One attempt that logs two lines and writes a checkpoint, and one that loses its lease.
use rungrid.Common.{
  ℕ, zero, suc, ◌≡◌, ◌≢◌, refl, true, false, none, some, List, [], ◌∷◌, map, codes, Text, arith,
  ltb, if◌then◌else◌,
}
use rungrid.Wire.{Method, start_attempt, report_progress, complete_attempt, not_found}
use rungrid.Artifacts.Digest.{digest}
use rungrid.Artifacts.Key.{object_key}
use rungrid.Artifacts.Tests.{plain, lease}
use rungrid.Worker.State.{
  Machine, World, Call, plus, Event, pass, wake, beat, line, checkpoint_file, beat_error, renewed,
  is_running, running, empty,
}
use rungrid.Worker.Threads.{happen, wait}
use rungrid.Worker.Monad.{value, returned, stuck}
use rungrid.Worker.Execute.{progress, execute, initial}
use rungrid.Worker.Protocol.Phase.{again, phase_of}
use rungrid.Worker.Protocol.Order.{InOrder, execute_ordered}
use rungrid.Worker.Ending.Total.{ExitsBy, execute_total, execute_cleans}
use rungrid.Worker.Progress.{IsNew, logged, progress_settles}

abbrev busy : ℕ → List Event
busy (suc zero) =
    line (codes "a") ∷ checkpoint_file (record { name = codes "c1.json"; content = [] }) ∷ []
busy (suc (suc zero)) = wake ∷ pass 100 ∷ beat (renewed 900) ∷ line (codes "b") ∷ []
busy _ = pass 10 ∷ []

abbrev world : World
world = record {
  meanwhile = busy;
  reply = λ n method payload. none;
  opened = λ n f i. f.content;
  put = λ n. true;
  exit_code = λ n. if ltb n 7 then none else some (plus 0);
  makes = λ n. true;
  restores = λ n. true;
  spawns = λ n. true;
  reader_alive = λ n. false;
  reading = λ n. false;
  removes = λ n. true;
  uuid = λ n. codes "u";
  decode = λ s. s;
  by_path = λ fs. fs;
  message = λ e. codes "error";
}

-- The heartbeat learns at once that the attempt is not known any more.
abbrev lost_world : World
lost_world = record world { meanwhile = λ n. wake ∷ beat (beat_error not_found) ∷ wake ∷ [] }

abbrev methods : List Call → List Method
methods = map (λ c. c.method)

execute_runs :
    (methods (execute world plain lease 20 0).1.calls
      ≡ complete_attempt ∷ report_progress ∷ report_progress ∷ report_progress ∷ report_progress
        ∷ start_attempt ∷ [])
    × ((execute world plain lease 20 0).0 ≡ value tt)
unfolding execute wait happen digest object_key
execute_runs = (refl, refl)

execute_lost :
    (methods (execute lost_world plain lease 20 0).1.calls ≡ start_attempt ∷ [])
    × ((execute lost_world plain lease 20 0).0 ≡ returned)
unfolding execute wait happen
execute_lost = (refl, refl)

-- The directory cannot be removed: the completed attempt is failed.
abbrev littered : World
littered = record world { removes = λ n. false }

execute-littered : phase_of (execute littered plain lease 20 0).1.calls ≡ again
unfolding execute wait happen digest object_key
execute-littered = refl

execute_ordered_example :
    InOrder littered plain lease (phase_of (execute littered plain lease 20 0).1.calls)
execute_ordered_example = execute_ordered littered plain lease 20 0

-- A descendant of the command keeps the output open for ever.
abbrev held : World
held = record world { reading = λ n. true }

execute-held :
    ((execute held plain lease 20 0).0 ≡ stuck) × ((execute held plain lease 20 0).1.done ≡ false)
unfolding execute wait happen digest object_key
execute-held = (refl, refl)

lost_world-ExitsBy : ExitsBy lost_world 7
lost_world-ExitsBy k h = ground arith

execute_cleans_example :
    let m = (execute lost_world plain lease 20 0).1 in
    (is_running m.process ≡ false) × (m.done ≡ true)
execute_cleans_example =
    execute_cleans lost_world plain lease 7 20 0 lost_world-ExitsBy (λ k h. refl) (omega arith)

world-ExitsBy : ExitsBy world 7
world-ExitsBy k h = ground arith

execute_total_example : (execute world plain lease 20 0).0 ≢ stuck
execute_total_example =
    execute_total world plain lease 7 20 0 world-ExitsBy (λ k h. refl) (omega arith)

-- Started, with two lines to report.
abbrev losing : Machine
losing = record (initial lost_world plain lease 0) {
  process = running;
  queue = codes "x" ∷ codes "y" ∷ [];
  calls = record { method = start_attempt; payload = empty; accepted = true } ∷ [];
}

abbrev behind : Machine
behind = record (initial world plain lease 0) {
  process = running;
  queue = codes "x" ∷ codes "y" ∷ [];
  checkpoints =
      record { name = codes "c1.json"; content = [] }
      ∷ record { name = codes "c2.json"; content = [] }
      ∷ [];
  uploaded = codes "c1.json" ∷ [];
}

progress_settles_example :
    let m' = (progress world plain lease behind).1 in
    (ns : List Text) × (m'.uploaded ≡ codes "c1.json" ∷ ns)
    × IsNew (codes "c1.json" ∷ []) (codes "c1.json" ∷ codes "c2.json" ∷ []) ns
    × (logged m'.calls ≡ codes "x" ∷ codes "y" ∷ [])
unfolding progress wait happen digest object_key
progress_settles_example =
    progress_settles world plain lease behind (progress world plain lease behind).1 refl

abbrev three : List ℕ
three = 1 ∷ 2 ∷ 3 ∷ []
