-- ===== src/Worker/Environment.antt =====
-- The environment in which `Worker.execute` of worker/python/rungrid_worker/main.py starts a command,
-- and what the SDK reads from it.
use rungrid.Common.{
  ℕ, ◌≡◌, refl, Bool, true, false, Option, none, some, List, [], ◌∷◌, ◌++◌, Text, codes, text_eq,
  if◌then◌else◌, str, arith, zero, suc, sym, ap, ◌∙◌, ◌⊎◌, inl, inr, Bool-cases, text_eq_refl,
  text_eq_sound, get_elem?, Present, Present-there,
}
use mathlib.Core.Path.{subst}
use mathlib.Core.Option.{some-injective}
use rungrid.Study.Protocols.{among}
use rungrid.Sdk.Paths.{Env, output_dir, checkpoint_dir, path_in, resume_path}

-- What the lease names: the two ids, the number of the attempt, and the job's own variables.
pub record Attempt : Type 0 where
  pub job_id : Text
  pub attempt_id : Text
  pub attempt_number : ℕ
  pub environment : List (Text × Text)

unfoldable pub assign : Text → Option Text → Env → Env
unfolding text_eq
assign name v env k = if text_eq k name then v else env k

-- `os.environ | environment`
unfoldable pub merge : Env → List (Text × Text) → Env
unfolding assign
merge env [] = env
merge env (e ∷ es) = merge (assign e.0 (some e.1) env) es

abbrev pub outputs_of : Text → Text
outputs_of root = root ++ codes "/outputs"

abbrev pub checkpoints_of : Text → Text
checkpoints_of root = root ++ codes "/checkpoints"

abbrev pub resume_file : Text → Text
resume_file root = root ++ codes "/resume.json"

-- `env.update(...)` and `env.pop(...)`
unfoldable pub updated : Attempt → Text → Env → Env
unfolding assign
updated a root env = assign (codes "RUNGRID_CHECKPOINT_PATH") none (
    assign (codes "PYTHONUNBUFFERED") (some (codes "1")) (
      assign (codes "RUNGRID_CHECKPOINT_DIR") (some (checkpoints_of root)) (
        assign (codes "RUNGRID_OUTPUT_DIR") (some (outputs_of root)) (
          assign (codes "RUNGRID_ATTEMPT_NUMBER") (some (str a.attempt_number)) (
            assign (codes "RUNGRID_ATTEMPT_ID") (some a.attempt_id)
              (assign (codes "RUNGRID_JOB_ID") (some a.job_id) env))))))

abbrev pub with_resume : Bool → Text → Env → Env
with_resume false root env = env
with_resume true root env = assign (codes "RUNGRID_CHECKPOINT_PATH") (some (resume_file root)) env

-- The environment of the command, for an attempt that begins anew or from a restored checkpoint.
unfoldable pub command_env : Env → Attempt → Text → Bool → Env
unfolding merge updated
command_env os a root restored = with_resume restored root (updated a root (merge os a.environment))

-- The variables that the worker sets or takes away.
abbrev pub worker_names : List Text
worker_names =
    codes "RUNGRID_JOB_ID"
    ∷ codes "RUNGRID_ATTEMPT_ID"
    ∷ codes "RUNGRID_ATTEMPT_NUMBER"
    ∷ codes "RUNGRID_OUTPUT_DIR"
    ∷ codes "RUNGRID_CHECKPOINT_DIR"
    ∷ codes "PYTHONUNBUFFERED"
    ∷ codes "RUNGRID_CHECKPOINT_PATH"
    ∷ []

-- A path in a directory is not empty.
path_in-resume : (root : Text) → path_in (some (resume_file root)) ≡ some (resume_file root)
path_in-resume [] = refl
path_in-resume (c ∷ root) = refl

resume_path-command_env :
    (os : Env) (a : Attempt) (root : Text) (restored : Bool)
    → resume_path (command_env os a root restored)
      ≡ (if restored then some (resume_file root) else none)
unfolding resume_path command_env assign
resume_path-command_env os a root true = path_in-resume root
resume_path-command_env os a root false = refl

updated_other :
    (k : Text) (a : Attempt) (root : Text) (env : Env)
    → among k worker_names ≡ false
    → updated a root env k ≡ env k
unfolding updated assign among
updated_other k a root env h = ground (arith, h)

command_env_other :
    (os : Env) (a : Attempt) (root k : Text) (restored : Bool)
    → among k worker_names ≡ false
    → command_env os a root restored k ≡ merge os a.environment k
unfolding command_env assign among
command_env_other os a root k true h =
    let rest = updated_other k a root (merge os a.environment) h in ground (arith, rest, h)
command_env_other os a root k false h = updated_other k a root (merge os a.environment) h

-- What the job and the worker's environment say of a variable: the value of a setting of the job with
-- this name, or without one what the worker's environment has.
abbrev pub Settles : Env → List (Text × Text) → Text → Option Text → Type 0
Settles os settings k value =
    ((v : Text) × Present (k, v) settings × (value ≡ some v))
    ⊎ (((v : Text) → Present (k, v) settings → ⊥) × (value ≡ os k))

Present-cons :
    (k v : Text) (e : Text × Text) (es : List (Text × Text))
    → Present (k, v) (e ∷ es)
    → (e.0 ≡ k) ⊎ Present (k, v) es
unfolding get_elem?
Present-cons k v e es (zero, same) = inl (ap (λ x. x.0) (some-injective e (k, v) same))
Present-cons k v e es (suc i, same) = inr (i, same)

merge-Settles : (k : Text) (es : List (Text × Text)) (env : Env) → Settles env es k (merge env es k)
unfolding merge assign get_elem?
merge-Settles k [] env = inr ((λ v (i, e). cc), refl)
merge-Settles k (e ∷ es) env = elim (merge-Settles k es (assign e.0 (some e.1) env)) [
  | inl (v, h, same) ↦ inl (v, Present-there (k, v) e es h, same)
  | inr (lacks, same) ↦ elim (Bool-cases (text_eq k e.0)) [
    | inl hit ↦
        let name : e.0 ≡ k = sym (text_eq_sound k e.0 hit) in
        inl (e.1, (zero, ap some (λ i. (name i, e.1))), same ∙ rw (hit) refl)
    | inr miss ↦ inr (
      (λ v h. elim (Present-cons k v e es h) [
        | inl name ↦ let hit : text_eq k e.0 ≡ true = ap (text_eq k) name ∙ text_eq_refl k in cc
        | inr later ↦ lacks v later
      ]),
      same ∙ rw (miss) refl,
    )
  ]
]

command_env-Settles :
    (os : Env) (a : Attempt) (root : Text) (restored : Bool) (k : Text)
    → among k worker_names ≡ false
    → Settles os a.environment k (command_env os a root restored k)
command_env-Settles os a root restored k h =
    subst (Settles os a.environment k) (sym (command_env_other os a root k restored h))
      (merge-Settles k a.environment os)

pub command_env-Reaches :
    (os : Env) (a : Attempt) (root : Text) (restored : Bool)
    → (output_dir (command_env os a root restored) ≡ some (outputs_of root))
      × (checkpoint_dir (command_env os a root restored) ≡ some (checkpoints_of root))
      × (resume_path (command_env os a root restored)
          ≡ (if restored then some (resume_file root) else none))
      × (command_env os a root restored (codes "RUNGRID_JOB_ID") ≡ some a.job_id)
      × (command_env os a root restored (codes "RUNGRID_ATTEMPT_ID") ≡ some a.attempt_id)
      × (command_env os a root restored (codes "RUNGRID_ATTEMPT_NUMBER")
          ≡ some (str a.attempt_number))
      × ((k : Text)
          → among k worker_names ≡ false
          → Settles os a.environment k (command_env os a root restored k))
unfolding command_env assign
command_env-Reaches os a root true = (
  refl,
  refl,
  resume_path-command_env os a root true,
  refl,
  refl,
  refl,
  command_env-Settles os a root true,
)
command_env-Reaches os a root false = (
  refl,
  refl,
  resume_path-command_env os a root false,
  refl,
  refl,
  refl,
  command_env-Settles os a root false,
)
