-- ===== src/Worker/Execute.antt =====
-- `Worker.execute`: from the lease to the last call, with its handler and its `finally` block.
use rungrid.Common.{
  ℕ, zero, suc, Bool, true, false, Option, none, some, List, [], ◌∷◌, ◌++◌, map, Text, codes, take,
  drop, text_eq, if◌then◌else◌, length, Bool-cases, inl, inr,
}
use rungrid.Wire.{
  Method, start_attempt, report_progress, complete_attempt, fail_attempt, Entry, Lease,
}
use rungrid.Artifacts.Digest.{Hash}
use rungrid.Worker.State.{
  Machine, World, Process, absent, running, ended, waiting, ReturnCode, minus, succeeded, File,
  empty, logs, artifacts, exit, setup_failure, restore_failure, spawn_failure, cleanup_failure,
  alive,
}
use rungrid.Worker.Threads.{wait, kill_group, Passive, Passive-trans, wait-Passive}
use rungrid.Worker.Monad.{
  M, Step, value, returned, raised, stuck, pure, modify, ◌>>=◌, ◌>>◌, return_unless_alive, rpc,
  upload_file,
}

abbrev pub batch_size : ℕ
batch_size = 100

-- `range(0, len(xs), 100)` with the slices `xs[index:index + 100]`, on fuel.
unfoldable pub batches_from {ℓ} : {A : Type ℓ} → ℕ → List A → List (List A)
batches_from zero xs = []
batches_from (suc fuel) [] = []
batches_from (suc fuel) (x ∷ xs) =
    take batch_size (x ∷ xs) ∷ batches_from fuel (drop batch_size (x ∷ xs))

-- Each slice holds an item or more, so the length is enough fuel.
unfoldable pub batches {ℓ} : {A : Type ℓ} → List A → List (List A)
unfolding batches_from
batches xs = batches_from (length xs) xs

-- `path in uploaded`
unfoldable pub contains : Text → List Text → Bool
unfolding text_eq
contains n [] = false
contains n (k ∷ ks) = if text_eq n k then true else contains n ks

abbrev not_in : List Text → File → List File → List File
not_in seen f rest = if contains f.name seen then rest else f ∷ rest

-- The checkpoints that are not uploaded yet.
unfoldable pub new_files : List Text → List File → List File
unfolding contains
new_files seen [] = []
new_files seen (f ∷ fs) = not_in seen f (new_files seen fs)

-- `process.poll()`
unfoldable pub poll : Option ReturnCode → Process → Option ReturnCode
poll exited absent = none
poll exited running = exited
poll exited (ended code) = some code

abbrev pub is_empty {ℓ} : {A : Type ℓ} → List A → Bool
is_empty [] = true
is_empty (x ∷ xs) = false

module _ (w : World) where
  unfoldable pub kill : Machine → Machine
  unfolding kill_group
  kill m = record m { process = kill_group (w.exit_code m.waits) m.process }

  abbrev pub pause : M (Unit {0})
  pause = modify (wait w)

  -- `reader.join(timeout=3)`, and once more with another signal if the reader still lives.
  unfoldable pub join_reader : Machine → Machine
  join_reader m = if w.reader_alive m.waits then wait w (wait w m) else wait w m

  pub join_reader-Passive : (m : Machine) → Passive m (join_reader m)
  unfolding join_reader
  join_reader-Passive m = elim (Bool-cases (w.reader_alive m.waits)) [
    | inl e ↦ rw (e) (Passive-trans (wait-Passive w m) (wait-Passive w (wait w m)))
    | inr e ↦ rw (e) (wait-Passive w m)
  ]

  -- `Artifacts`, `TemporaryDirectory`, its directories and the environment.
  abbrev pub make_directory : M (Unit {0})
  make_directory m = (if w.makes m.waits then value tt else raised setup_failure, m)

  -- The exit of the `with` block, however its body ended: the exception of a directory that cannot be
  -- removed takes the place of that end.
  unfoldable pub leave_directory : Step (Unit {0}) → M (Unit {0})
  leave_directory stuck m = (stuck, m)
  leave_directory s m = (if w.removes m.waits then s else raised cleanup_failure, wait w m)

  -- `process.stdout.close()`, on fuel: it waits while the reader is inside a read.
  unfoldable pub close_output : ℕ → M (Unit {0})
  close_output zero m = (stuck, m)
  close_output (suc fuel) m =
      let later = close_output fuel (wait w m) in if w.reading m.waits then later else (value tt, m)

  -- `if process.stdout:`, of a command that was started.
  unfoldable pub close_stdout : ℕ → Process → M (Unit {0})
  unfolding close_output
  close_stdout fuel absent m = (value tt, m)
  close_stdout fuel _ m = close_output fuel m

  -- `artifacts.restore`, if the lease names a checkpoint.
  abbrev pub restore_checkpoint : Option Entry → M (Unit {0})
  restore_checkpoint none m = (value tt, m)
  restore_checkpoint (some e) m =
      (if w.restores m.waits then value tt else raised restore_failure, wait w m)

  -- `subprocess.Popen`
  abbrev pub spawn : M (Unit {0})
  spawn m =
      if w.spawns m.waits
      then (value tt, record m { process = running })
      else (raised spawn_failure, m)

module _ (w : World) (hash : Hash) (lease : Lease) where
  -- `artifacts.upload` of each file in turn, with the paths.
  unfoldable pub upload_files : Text → List File → M (List (Entry × Text))
  unfolding upload_file
  upload_files kind [] = pure []
  upload_files kind (f ∷ fs) = do
    e ← upload_file w hash lease kind f
    es ← upload_files kind fs
    pure ((e, f.name) ∷ es)

  -- The batches of checkpoint metadata, each with the paths that it settles.
  unfoldable pub report_checkpoints : List (List (Entry × Text)) → M (Unit {0})
  unfolding rpc
  report_checkpoints [] = pure tt
  report_checkpoints (b ∷ bs) = do
    rpc w report_progress (artifacts (map (λ p. p.0) b))
    modify (λ m. record m { uploaded = m.uploaded ++ map (λ p. p.1) b })
    report_checkpoints bs

  unfoldable pub report_outputs : List (List (Entry × Text)) → M (Unit {0})
  unfolding rpc
  report_outputs [] = pure tt
  report_outputs (b ∷ bs) = do
    rpc w report_progress (artifacts (map (λ p. p.0) b))
    report_outputs bs

  -- `if batch or entries:` and its body.
  unfoldable pub report : List Text → List (Entry × Text) → M (Unit {0})
  unfolding rpc report_checkpoints batches
  report [] [] = pure tt
  report batch entries = do rpc w report_progress (logs batch); report_checkpoints (batches entries)

  -- `progress()`
  unfoldable pub progress : M (Unit {0})
  unfolding report upload_files new_files
  progress m =
      (upload_files (codes "checkpoint") (new_files m.uploaded m.checkpoints)
          >>= report (take batch_size m.queue))
        (record m { queue = drop batch_size m.queue })

  -- `while process.poll() is None`, on fuel; the value is `process.returncode`.
  unfoldable pub watch : ℕ → M ReturnCode
  unfolding progress kill poll
  watch zero m = (stuck, m)
  watch (suc fuel) m = elim (poll (w.exit_code m.waits) m.process) [
    | some code ↦ (value code, record m { process = ended code })
    | none ↦ elim (alive m) [
      | false ↦ (returned, kill w m)
      | true ↦ (progress >> pause w >> watch fuel) m
    ]
  ]

  abbrev pub last_method : Bool → Method
  last_method true = complete_attempt
  last_method false = fail_attempt

  abbrev pub last_reason : Bool → Text
  last_reason true = []
  last_reason false = codes "command exited nonzero"

  -- The last call.
  unfoldable pub report_exit : ReturnCode → M (Unit {0})
  unfolding rpc
  report_exit code = rpc w (last_method (succeeded code)) (exit code (last_reason (succeeded code)))

  -- The metadata of the log and of the outputs, and the last call behind it.
  unfoldable pub report_files :
      ReturnCode → List (Entry × Text) → List (Entry × Text) → M (Unit {0})
  unfolding report_outputs batches report_exit
  report_files code log outputs = do report_outputs (batches (log ++ outputs)); report_exit code

  unfoldable pub publish_outputs : ReturnCode → List (Entry × Text) → M (Unit {0})
  unfolding upload_files report_files
  publish_outputs code log m =
      (upload_files (codes "output") (w.by_path m.outputs) >>= report_files code log) m

  abbrev pub log_file : Machine → File
  log_file m = record { name = codes "execution.log"; content = m.log }

  unfoldable pub publish_log : ReturnCode → M (Unit {0})
  unfolding upload_files publish_outputs
  publish_log code m = (upload_files (codes "log") (log_file m ∷ []) >>= publish_outputs code) m

  -- The uploads and the reports of a command that has exited, up to the last call.
  unfoldable pub publish : ReturnCode → M (Unit {0})
  unfolding progress publish_log
  publish code = do progress; publish_log code

  unfoldable pub after_exit : ReturnCode → M (Unit {0})
  unfolding publish kill join_reader return_unless_alive
  after_exit code m = (return_unless_alive >> publish code) (join_reader w (kill w m))

  -- The command from its start on.
  unfoldable pub supervise : ℕ → M (Unit {0})
  unfolding watch after_exit
  supervise fuel = do code ← watch fuel; after_exit code

  unfoldable pub launch : ℕ → M (Unit {0})
  unfolding supervise
  launch fuel = do spawn w; supervise fuel

  unfoldable pub prepare : ℕ → M (Unit {0})
  unfolding launch return_unless_alive
  prepare fuel = do return_unless_alive; launch fuel

  unfoldable pub resume : ℕ → M (Unit {0})
  unfolding prepare
  resume fuel = do restore_checkpoint w lease.checkpoint; prepare fuel

  -- The `with` block.
  unfoldable pub in_directory : ℕ → M (Unit {0})
  unfolding resume leave_directory
  in_directory fuel m = let (s, m') = resume fuel m in leave_directory w s m'

  unfoldable pub set_up : ℕ → M (Unit {0})
  unfolding in_directory
  set_up fuel = do make_directory w; in_directory fuel

  -- The body of the `try` block.
  unfoldable pub begin : ℕ → M (Unit {0})
  unfolding rpc set_up
  begin fuel = do rpc w start_attempt empty; set_up fuel

  unfoldable pub attempt : ℕ → M (Unit {0})
  unfolding begin return_unless_alive
  attempt fuel = do return_unless_alive; begin fuel

  -- `except Exception`: the failure is reported while the lease is alive.
  unfoldable pub handle : Step (Unit {0}) → Machine → Machine
  unfolding rpc
  handle (raised e) m =
      if alive m then (rpc w fail_attempt (exit (minus 1) (take 8192 (w.message e))) m).1 else m
  handle (value _) m = m
  handle returned m = m
  handle stuck m = m

  -- `done.set` and `heartbeat.join`, and the end of the attempt.
  abbrev pub dismiss : Step (Unit {0}) → Step (Unit {0}) × Machine → Step (Unit {0}) × Machine
  dismiss s (value u, m) = (s, wait w (record m { done = true }))
  dismiss s (_, m) = (stuck, m)

  -- `finally`, after an end of the rest.
  unfoldable pub clean_up : ℕ → Step (Unit {0}) → Machine → Step (Unit {0}) × Machine
  unfolding kill close_stdout
  clean_up fuel stuck m = (stuck, m)
  clean_up fuel s m = let killed = kill w m in dismiss s (close_stdout w fuel killed.process killed)

  abbrev pub initial : ℕ → Machine
  initial now = record {
    now = now;
    deadline = lease.local_deadline;
    done = false;
    lost = false;
    renewer = waiting;
    process = absent;
    queue = [];
    log = [];
    checkpoints = [];
    outputs = [];
    uploaded = [];
    upload_failures = 0;
    calls = [];
    waits = 0;
  }

  unfoldable pub execute : ℕ → ℕ → Step (Unit {0}) × Machine
  unfolding attempt handle clean_up
  execute fuel now =
      let (step, m) = attempt fuel (initial now) in clean_up fuel step (handle step m)
