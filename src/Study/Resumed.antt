-- ===== src/Study/Resumed.antt =====
-- A task of examples/heterosplit/task.py in two attempts of one job: the checkpoint of the first goes
-- through the storage of worker/python/rungrid_worker/artifacts.py into the environment of the second,
-- where `resume_path` of sdk/python/rungrid/checkpoint.py finds it.
use mathlib.Core.Path.{subst}
use rungrid.Common.{
  get_elem?, length, ℕ, zero, suc, ◌≡◌, refl, ap, ◌∙◌, ◌&&◌, inl, inr, Bool-cases, Option, none,
  some, List, [], ◌∷◌, if◌then◌else◌, Text, codes, true, false, text_eq, text_eq_refl, All,
}
use rungrid.Wire.{Lease, Entry}
use rungrid.Sdk.Paths.{Env, resume_path}
use rungrid.Worker.Environment.{Attempt, command_env, resume_file, command_env-Reaches}
use rungrid.Artifacts.Digest.{Hash}
use rungrid.Artifacts.Upload.{uploaded, upload}
use rungrid.Artifacts.Upload as Upload
use rungrid.Artifacts.Restore.{
  Restored, restored, download_error, checksum_mismatch, restore, Keeps, restore-upload,
}
use rungrid.Study.Nodes.{Prep, prepare}
use rungrid.Study.Preflight.{Site, Checked, stopped, passed, split_task}
use rungrid.Study.Task.{Checkpoint, TaskRun, task_error, trained, run_task}
use rungrid.Study.Run.{
  is_quotient, is_average, Config, Torch, Metrics, Finished, not_split, not_trained, not_sampled,
  no_metric, finished, written, run_metrics, evaluate, evaluate_run, negatives, run_split,
  run_checked, experiment_of, identity_of, epoch, run,
}
use rungrid.Study.Repeats.{run-Repeats}

-- The files of an attempt's directory, by their paths.
abbrev pub Disk : Type 0
Disk = Text → Option (List ℕ)

abbrev pub write_file : Text → List ℕ → Disk → Disk
write_file path content disk p = if text_eq p path then some content else disk p

-- What the worker makes of the lease's checkpoint: the file `resume.json` with its path in the
-- environment, or neither; nothing where `restore` raises.
abbrev pub resume_env : Env → Attempt → Text → Option Restored → Disk → Option (Disk × Env)
resume_env os a root none disk = some (disk, command_env os a root false)
resume_env os a root (some (restored content)) disk =
    some (write_file (resume_file root) content disk, command_env os a root true)
resume_env os a root (some download_error) disk = none
resume_env os a root (some checksum_mismatch) disk = none

module _ {R Result S G : Type 0} (site : Site R Result) (torch : Torch Result S G)
    (decode : List ℕ → Option (Checkpoint S)) where
  abbrev pub with_checkpoint : Config → Option (Checkpoint S) → Option (Finished S)
  with_checkpoint c none = none
  with_checkpoint c (some k) = some (run site torch c (some k))

  abbrev pub read_checkpoint : Option (List ℕ) → Option (Checkpoint S)
  read_checkpoint none = none
  read_checkpoint (some content) = decode content

  abbrev pub run_from : Config → Disk → Option Text → Option (Finished S)
  run_from c disk none = some (run site torch c none)
  run_from c disk (some path) = with_checkpoint c (read_checkpoint (disk path))

  abbrev pub with_ids : Config → Disk → Env → Option Text → Option Text → Option (Finished S)
  with_ids c disk env none attempt_id = none
  with_ids c disk env (some job_id) none = none
  with_ids c disk env (some job_id) (some attempt_id) =
      run_from (record c { job_id = job_id; attempt_id = attempt_id }) disk (resume_path env)

  -- The task in the environment that the worker has made; nothing where the worker or the reading of the
  -- environment or of the checkpoint raises.
  abbrev pub run_attempt : Config → Option (Disk × Env) → Option (Finished S)
  run_attempt c none = none
  run_attempt c (some (disk, env)) =
      with_ids c disk env (env (codes "RUNGRID_JOB_ID")) (env (codes "RUNGRID_ATTEMPT_ID"))

module _ {R Result S G : Type 0} (site : Site R Result) (torch : Torch Result S G) where
  -- The same end under the ids of another attempt.
  abbrev of_attempt : Text → Text → Finished S → Finished S
  of_attempt j a (finished cs m) = finished cs (record m { job_id = j; attempt_id = a })
  of_attempt j a (not_split e) = not_split e
  of_attempt j a (not_trained e) = not_trained e
  of_attempt j a not_sampled = not_sampled
  of_attempt j a no_metric = no_metric

  abbrev other : Text → Text → Config → Config
  other j a c = record c { job_id = j; attempt_id = a }

  written-of_attempt :
      (j a : Text) (cs : List (Checkpoint S)) (m : Metrics)
      → written site torch cs (record m { job_id = j; attempt_id = a })
        ≡ of_attempt j a (written site torch cs m)
  written-of_attempt j a cs m = elim (Bool-cases (is_quotient m.auc && is_average m.ap)) [
    | inl fine ↦ rw (fine) refl
    | inr bad ↦ rw (bad) refl
  ]

  evaluate_run-of_attempt :
      (j a : Text) (c : Config) (n : ℕ) (result : Result) (p : Prep) (o : TaskRun S)
      → evaluate_run site torch (other j a c) n result p o
        ≡ of_attempt j a (evaluate_run site torch c n result p o)
  evaluate_run-of_attempt j a c n result p (task_error e) = refl
  evaluate_run-of_attempt j a c n result p (trained t) = sampled (negatives site torch p t.state)
    where
      sampled :
          (o : Option (List (ℕ × ℕ)))
          → evaluate site torch (other j a c) n result p t o
            ≡ of_attempt j a (evaluate site torch c n result p t o)
      sampled none = refl
      sampled (some neg) =
          written-of_attempt j a t.checkpoints (run_metrics site torch c n result p t neg)

  run-of_attempt :
      (j a : Text) (c : Config) (o : Option (Checkpoint S))
      → run site torch (other j a c) o ≡ of_attempt j a (run site torch c o)
  unfolding run run_split
  run-of_attempt j a c o =
      split (split_task site c.study c.max_rows c.path (experiment_of site torch c))
    where
      split :
          (r : Checked (ℕ × Result))
          → run_checked site torch (other j a c) o r ≡ of_attempt j a (run_checked site torch c o r)
      split (stopped e) = refl
      split (passed (n, result)) =
          let p = prepare (torch.edges result) in
          evaluate_run-of_attempt j a c n result p (
            run_task (epoch site torch p) (identity_of site torch c result) (length p.train_pos)
              (length p.test_pos) (torch.start c.model p.num_nodes c.dim c.seed) o)

  member-All :
      (P : Checkpoint S → Type 0) (cs : List (Checkpoint S)) (i : ℕ) (k : Checkpoint S)
      → All P cs
      → get_elem? cs i ≡ some k
      → P k
  unfolding get_elem?
  member-All P [] i k h e = cc
  member-All P (x ∷ cs) zero k h e = let same : x ≡ k = cc in subst P same h.0
  member-All P (x ∷ cs) (suc i) k h e = member-All P cs i k h.1 e

  -- If a task has finished, and the worker of one attempt has uploaded one of its checkpoints, which did
  -- not change meanwhile, then the task in the environment that the worker makes for another attempt,
  -- of which the lease names that checkpoint, starts with it and finishes with the same metrics, but
  -- for the epoch that it resumed at and the ids, which are those of its attempt.
  pub run_attempt-resumes :
      {B : Type 0} (bucket : Upload.Site B) (download : B → Text → Option (List ℕ)) (hash : Hash)
      (encode : Checkpoint S → List ℕ) (decode : List ℕ → Option (Checkpoint S)) (c : Config)
      (cs : List (Checkpoint S)) (m : Metrics) (i : ℕ) (k : Checkpoint S) (lease : Lease)
      (kind uuid name : Text) (s s' : B) (e : Entry) (os : Env) (a : Attempt) (root : Text)
      (disk : Disk)
      → run site torch c none ≡ finished cs m
      → get_elem? cs i ≡ some k
      → ((x : Checkpoint S) → decode (encode x) ≡ some x)
      → Keeps bucket download
      → upload bucket hash lease kind (λ i. encode k) uuid name s ≡ (uploaded e, s')
      → (ds : List (Checkpoint S)) × (run_attempt site torch decode c
            (resume_env os a root (some (restore download hash e s')) disk)
          ≡ some (
              finished ds (record m {
                resumed_epoch = k.epoch;
                job_id = a.job_id;
                attempt_id = a.attempt_id;
              })))
  run_attempt-resumes bucket download hash encode decode c cs m i k lease kind uuid name s s' e os a
        root disk first is_k codec keeps done =
      let back =
        restore-upload bucket download hash lease kind (encode k) uuid name s s' e keeps done in
      let env = command_env-Reaches os a root true in
      let again = member-All _ cs i k (run-Repeats site torch c cs m first) is_k in
      let end =
        run-of_attempt a.job_id a.attempt_id c (some k)
        ∙ ap (of_attempt a.job_id a.attempt_id) again.1 in
      (
        again.0,
        rw (back, env.3, env.4, env.2, text_eq_refl (resume_file root))
            (rw (codec k) (ap some end)),
      )
