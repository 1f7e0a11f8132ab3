-- ===== src/Study/ResumedTests.antt =====
-- A task whose first attempt ends after its second checkpoint, and is run again from the first one.
use rungrid.Common.{
  get_elem?, ℕ, ◌≡◌, refl, ap, Option, none, some, List, [], ◌∷◌, ◌++◌, length, take, drop, Text,
  codes,
}
use rungrid.Wire.{Entry}
use rungrid.Worker.Environment.{Attempt}
use rungrid.Artifacts.Upload.{uploaded, upload}
use rungrid.Artifacts.Restore.{restore}
use rungrid.Artifacts.Tests.{plain, Bucket, bucket, bucket_site, download, bucket-Keeps, lease}
use rungrid.Study.Task.{Checkpoint}
use rungrid.Study.Run.{finished}
use rungrid.Study.Resumed.{run_attempt, resume_env, run_attempt-resumes}
use rungrid.Study.RunTests.{site, torch, config, run_finishes}

-- A text behind its length.
abbrev field : Text → List ℕ → List ℕ
field t rest = length t ∷ (t ++ rest)

abbrev read_field : {A : Type 0} → (Text → List ℕ → Option A) → List ℕ → Option A
read_field f [] = none
read_field f (n ∷ rest) = f (take n rest) (drop n rest)

take_front : (t rest : Text) → take (length t) (t ++ rest) ≡ t
take_front [] rest = refl
take_front (x ∷ t) rest = ap (λ l. x ∷ l) (take_front t rest)

drop_front : (t rest : Text) → drop (length t) (t ++ rest) ≡ rest
drop_front [] rest = refl
drop_front (x ∷ t) rest = drop_front t rest

read_field-field :
    {A : Type 0} (f : Text → List ℕ → Option A) (t : Text) (rest : List ℕ)
    → read_field f (field t rest) ≡ f t rest
read_field-field f t rest = λ i. f (take_front t rest i) (drop_front t rest i)

abbrev numbers : Checkpoint ℕ → List ℕ
numbers k = k.identity.seed ∷ k.identity.epochs ∷ k.identity.dim ∷ k.epoch ∷ k.torch ∷ []

abbrev encode : Checkpoint ℕ → List ℕ
encode k = field k.identity.study (
    field k.identity.dataset (
      field k.identity.regime
        (field k.identity.model (field k.identity.manifest_digest (numbers k)))))

abbrev read_numbers : Text → Text → Text → Text → Text → List ℕ → Option (Checkpoint ℕ)
read_numbers study dataset regime model digest (seed ∷ epochs ∷ dim ∷ epoch ∷ state ∷ []) =
    some (record {
      identity = record {
        study = study;
        dataset = dataset;
        regime = regime;
        model = model;
        seed = seed;
        epochs = epochs;
        dim = dim;
        manifest_digest = digest;
      };
      epoch = epoch;
      torch = state;
    })
read_numbers study dataset regime model digest _ = none

unfoldable decode : List ℕ → Option (Checkpoint ℕ)
decode = read_field λ study. read_field λ dataset. read_field λ regime.
    read_field λ model. read_field λ digest. read_numbers study dataset regime model digest

decode-encode : (k : Checkpoint ℕ) → decode (encode k) ≡ some k
unfolding decode
decode-encode k = simp (take_front, drop_front)

first_uploaded :
    (k : Checkpoint ℕ) × (e : Entry) × (s' : Bucket) × (get_elem? run_finishes.0 0 ≡ some k)
    × (upload bucket_site plain lease
          (codes "checkpoint")
          (λ i. encode k)
          (codes "u2")
          (codes "f00d.json")
          bucket
        ≡ (uploaded e, s'))
unfolding get_elem? upload run_finishes
first_uploaded = (_, _, _, refl, refl)

-- A job may name variables of the worker: they do not reach the command.
abbrev second : Attempt
second = record {
  job_id = codes "j1";
  attempt_id = codes "a2";
  attempt_number = 2;
  environment =
      (codes "RUNGRID_CHECKPOINT_PATH", codes "/old.json")
      ∷ (codes "OMP_NUM_THREADS", codes "1")
      ∷ [];
}

run_attempt-resumes_example :
    (ds : List (Checkpoint ℕ)) × (run_attempt site torch decode config (
        resume_env
          (λ n. none)
          second
          (codes "/tmp/r")
          (some (restore download plain first_uploaded.1 first_uploaded.2))
          (λ p. none))
      ≡ some (
          finished ds (record run_finishes.1 {
            resumed_epoch = first_uploaded.0.epoch;
            job_id = codes "j1";
            attempt_id = codes "a2";
          })))
run_attempt-resumes_example =
    run_attempt-resumes site torch bucket_site download plain encode decode config run_finishes.0
      run_finishes.1 0 first_uploaded.0 lease (codes "checkpoint") (codes "u2") (codes "f00d.json")
      bucket first_uploaded.2 first_uploaded.1 (λ n. none) second (codes "/tmp/r") (λ p. none)
      run_finishes.2 first_uploaded.3 decode-encode bucket-Keeps first_uploaded.4
