-- ===== src/Worker/Threads.antt =====
-- The other threads of `Worker.execute`: `renew`, `read_logs` and the command, one event at a time.
use rungrid.Common.{
  ℕ, suc, ◌+◌, ◌≤◌, ◌<◌, ◌≡◌, ◌∙◌, Bool, true, false, Option, none, some, List, [], ◌∷◌, ◌++◌, Text,
  arith, ltb, length, if◌then◌else◌, text_eq,
}
use rungrid.Wire.{Status, failed_precondition, not_found}
use rungrid.Worker.State.{
  Machine, World, Process, absent, running, ended, Renewer, waiting, calling, stopped, ReturnCode,
  minus, Beat, renewed, beat_error, beat_crash, Event, pass, wake, beat, line, checkpoint_file,
  output_file, alive, File, is_absent, is_running,
}

abbrev pub sigkill : ReturnCode
sigkill = minus 9

abbrev killed_code : Option ReturnCode → ReturnCode
killed_code (some code) = code
killed_code none = sigkill

-- `kill_group`, also of a group that is gone, and `process.wait()`: a command that has exited
-- before the signal keeps its code.
unfoldable pub kill_group : Option ReturnCode → Process → Process
kill_group exited absent = absent
kill_group exited running = ended (killed_code exited)
kill_group exited (ended code) = ended code

abbrev pub fatal : Status → Bool
fatal failed_precondition = true
fatal not_found = true
fatal _ = false

-- The loop of `renew` after `done.wait(0.5)`.
unfoldable pub renew_wakes : Option ReturnCode → Machine → Machine
unfolding kill_group
renew_wakes exited m =
    if m.done
    then record m { renewer = stopped }
    else if alive m
    then record m { renewer = calling }
    else record m { lost = true; process = kill_group exited m.process; renewer = stopped }

-- The rest of its loop, after the heartbeat.
unfoldable pub renew_answered : Beat → Machine → Machine
renew_answered (renewed d) m = record m { deadline = d; renewer = waiting }
renew_answered (beat_error code) m =
    if fatal code
    then record m { lost = true; renewer = waiting }
    else record m { renewer = waiting }
renew_answered beat_crash m = record m { renewer = stopped }

abbrev pub queue_size : ℕ
queue_size = 1000

-- One line of `read_logs`: the full queue drops it, the log file never does.
unfoldable pub read_line : (List ℕ → Text) → List ℕ → Machine → Machine
read_line decode chunk m = record m {
  log = m.log ++ chunk;
  queue = if ltb (length m.queue) queue_size then m.queue ++ decode chunk ∷ [] else m.queue;
}

abbrev wake_of : Renewer → Option ReturnCode → Machine → Machine
wake_of waiting exited m = renew_wakes exited m
wake_of _ exited m = m

abbrev beat_of : Renewer → Beat → Machine → Machine
beat_of calling b m = renew_answered b m
beat_of _ b m = m

abbrev line_of : Process → (List ℕ → Text) → List ℕ → Machine → Machine
line_of absent decode chunk m = m
line_of _ decode chunk m = read_line decode chunk m

abbrev file_of : Process → Machine → Machine → Machine
file_of running written m = written
file_of _ written m = m

abbrev keep_other : Text → File → List File → List File
keep_other n f rest = if text_eq n f.name then rest else f ∷ rest

-- The files of a directory by their times of modification, after a file is written: a file of the same
-- name is replaced.
unfoldable pub write_file : File → List File → List File
unfolding text_eq
write_file f [] = f ∷ []
write_file f (g ∷ gs) = keep_other f.name g (write_file f gs)

-- An event that its thread is not ready for does nothing.
unfoldable pub happen : World → Event → Machine → Machine
unfolding renew_wakes renew_answered read_line write_file
happen w (pass t) m = record m { now = m.now + t }
happen w wake m = wake_of m.renewer (w.exit_code m.waits) m
happen w (beat b) m = beat_of m.renewer b m
happen w (line chunk) m = line_of m.process w.decode chunk m
happen w (checkpoint_file f) m =
    file_of m.process (record m { checkpoints = write_file f m.checkpoints }) m
happen w (output_file f) m = file_of m.process (record m { outputs = write_file f m.outputs }) m

unfoldable pub happen_all : World → List Event → Machine → Machine
happen_all w [] m = m
happen_all w (e ∷ es) m = happen_all w es (happen w e m)

-- The main thread waits: the others run.
unfoldable pub wait : World → Machine → Machine
unfolding happen_all
wait w m = happen_all w (w.meanwhile m.waits) (record m { waits = suc m.waits })

-- What the other threads leave alone, that a lost lease stays lost, and that a command that was
-- started stays started, and one that is over stays over.
pub record Passive (m m' : Machine) : Type 0 where
  pub same_calls : m'.calls ≡ m.calls
  pub same_uploaded : m'.uploaded ≡ m.uploaded
  pub same_done : m'.done ≡ m.done
  pub still_lost : m.lost ≡ true → m'.lost ≡ true
  pub still_spawned : is_absent m.process ≡ false → is_absent m'.process ≡ false
  pub still_over : is_running m.process ≡ false → is_running m'.process ≡ false
  pub waits-le : m.waits ≤ m'.waits

pub happen-Passive : (w : World) (e : Event) (m : Machine) → Passive m (happen w e m)
unfolding happen
happen-Passive w (pass t) m = ground arith
happen-Passive w wake m = ground arith
happen-Passive w (beat b) m = ground arith
happen-Passive w (line c) m = ground arith
happen-Passive w (checkpoint_file f) m = ground arith
happen-Passive w (output_file f) m = ground arith

pub Passive-trans : {m n o : Machine} → Passive m n → Passive n o → Passive m o
Passive-trans p q = record {
  same_calls = q.same_calls ∙ p.same_calls;
  same_uploaded = q.same_uploaded ∙ p.same_uploaded;
  same_done = q.same_done ∙ p.same_done;
  still_lost = λ l. q.still_lost (p.still_lost l);
  still_spawned = λ l. q.still_spawned (p.still_spawned l);
  still_over = λ l. q.still_over (p.still_over l);
  waits-le = omega (arith, p.waits-le, q.waits-le);
}

happen_all-Passive : (w : World) (es : List Event) (m : Machine) → Passive m (happen_all w es m)
unfolding happen_all
happen_all-Passive w [] m = ground arith
happen_all-Passive w (e ∷ es) m =
    Passive-trans (happen-Passive w e m) (happen_all-Passive w es (happen w e m))

pub wait-Passive : (w : World) (m : Machine) → Passive m (wait w m)
unfolding wait
wait-Passive w m =
    Passive-trans {n = record m { waits = suc m.waits }} (ground arith)
      (happen_all-Passive w (w.meanwhile m.waits) (record m { waits = suc m.waits }))

-- A wait is counted.
pub waits-wait : (w : World) (m : Machine) → m.waits < (wait w m).waits
unfolding wait
waits-wait w m =
    (happen_all-Passive w (w.meanwhile m.waits) (record m { waits = suc m.waits })).waits-le
