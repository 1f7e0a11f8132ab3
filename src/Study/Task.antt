-- ===== src/Study/Task.antt =====
-- `run` of examples/heterosplit/task.py: training with checkpoints, and from one. The state holds
-- the model, the optimizer, the generator and torch's own generator; an epoch on it is the parameter
-- `epoch`, which gives nothing where the sampling of the negatives raises.
use mathlib.Core.Path.{subst}
use rungrid.Common.{
  sym, ℕ, zero, suc, ◌+◌, ◌-◌, ◌≤◌, ◌≡◌, refl, ap, ◌∙◌, Bool, true, false, ◌&&◌, ◌||◌, inl, inr,
  Bool-cases, Option, none, some, List, [], ◌∷◌, ◌==◌, if◌then◌else◌, Text, text_eq, text_eq_refl,
  All, arith,
}

-- What a task is about: its arguments and the digest of its split.
pub record Identity : Type 0 where
  pub study : Text
  pub dataset : Text
  pub regime : Text
  pub model : Text
  pub seed : ℕ
  pub epochs : ℕ
  pub dim : ℕ
  pub manifest_digest : Text

pub record Checkpoint (S : Type 0) : Type 0 where
  pub identity : Identity
  pub epoch : ℕ
  pub torch : S

pub data TaskError : Type 0 where
  configuration_mismatch empty_split sampling_failed : TaskError

-- The trained state and the checkpoints, first to last.
pub record Trained (S : Type 0) : Type 0 where
  pub resumed_epoch : ℕ
  pub state : S
  pub checkpoints : List (Checkpoint S)

pub data TaskRun (S : Type 0) : Type 0 where
  task_error : TaskError → TaskRun S
  trained : Trained S → TaskRun S

unfoldable pub same_identity : Identity → Identity → Bool
unfolding text_eq
same_identity a b =
    text_eq a.study b.study
    && (text_eq a.dataset b.dataset
        && (text_eq a.regime b.regime
            && (text_eq a.model b.model
                && ((a.seed == b.seed)
                    && ((a.epochs == b.epochs)
                        && ((a.dim == b.dim) && text_eq a.manifest_digest b.manifest_digest))))))

module _ {S : Type 0} (epoch : S → Option S) (identity : Identity) where
  abbrev pub saved : ℕ → S → TaskRun S → TaskRun S
  saved e s (task_error x) = task_error x
  saved e s (trained t) = trained (record t {
    checkpoints = record { identity = identity; epoch = e; torch = s } ∷ t.checkpoints;
  })

  -- `for epoch in range(start, args.epochs)`: the first number counts the epochs that are left.
  unfoldable pub train : ℕ → ℕ → ℕ → S → TaskRun S
  train zero start e s = trained (record { resumed_epoch = start; state = s; checkpoints = [] })
  train (suc n) start e s = elim (epoch s) [
    | none ↦ task_error sampling_failed
    | some s' ↦ saved (suc e) s' (train n start (suc e) s')
  ]

  abbrev pub train_from : ℕ → S → TaskRun S
  train_from start s = train (identity.epochs - start) start start s

  -- The guard on the split, of which the numbers of train and test edges are given, and the loop.
  unfoldable pub checked_run : ℕ → ℕ → ℕ → S → TaskRun S
  unfolding train
  checked_run n_train n_test start s =
      if (n_train == 0) || (n_test == 0) then task_error empty_split else train_from start s

  -- A task that begins in the state given, or goes on from the checkpoint that it is restored from.
  unfoldable pub run_task : ℕ → ℕ → S → Option (Checkpoint S) → TaskRun S
  unfolding checked_run same_identity
  run_task n_train n_test fresh none = checked_run n_train n_test 0 fresh
  run_task n_train n_test fresh (some c) =
      if same_identity c.identity identity
      then checked_run n_train n_test c.epoch c.torch
      else task_error configuration_mismatch

  -- A run that ends in the state, and began at the epoch.
  abbrev EndsIn : TaskRun S → ℕ → S → Type 0
  EndsIn o start s = (t : Trained S) × (o ≡ trained t) × (t.state ≡ s) × (t.resumed_epoch ≡ start)

  -- A checkpoint from which the epochs up to `last` lead to the state.
  abbrev LeadsTo : ℕ → S → Checkpoint S → Type 0
  LeadsTo last s c =
      (c.identity ≡ identity)
      × (c.epoch ≤ last)
      × ((start : ℕ) → EndsIn (train (last - c.epoch) start c.epoch c.torch) start s)

  -- An epoch that ends well, and the rest of the training after it.
  abbrev pub Stepped : ℕ → ℕ → ℕ → S → Trained S → Type 0
  Stepped n start e s t =
      (s' : S) × (u : Trained S) × (epoch s ≡ some s')
      × (train n start (suc e) s' ≡ trained u)
      × (t ≡ record u {
        checkpoints = record { identity = identity; epoch = suc e; torch = s' } ∷ u.checkpoints;
      })

  saved-parts :
      (e : ℕ) (s : S) (o : TaskRun S) (t : Trained S)
      → saved e s o ≡ trained t
      → (u : Trained S) × (o ≡ trained u)
        × (t ≡ record u {
          checkpoints = record { identity = identity; epoch = e; torch = s } ∷ u.checkpoints;
        })
  saved-parts e s (task_error x) t h = cc
  saved-parts e s (trained u) t h = (u, refl, cc)

  pub train-Stepped :
      (n start e : ℕ) (s : S) (r : Option S) (t : Trained S)
      → epoch s ≡ r
      → train (suc n) start e s ≡ trained t
      → Stepped n start e s t
  unfolding train
  train-Stepped n start e s none t k h =
      let bad : ◌≡◌ {A = TaskRun S} (task_error sampling_failed) (trained t) = rw (k, train) at h in
      cc
  train-Stepped n start e s (some s') t k h =
      let good : saved (suc e) s' (train n start (suc e) s') ≡ trained t = rw (k, train) at h in
      let (u, hu, same) = saved-parts (suc e) s' (train n start (suc e) s') t good in
      (s', u, k, hu, same)

  -- The other way round: an epoch that ends well, then a training that ends in the state.
  EndsIn-step :
      (n start e : ℕ) (s s' end : S)
      → epoch s ≡ some s'
      → EndsIn (train n start (suc e) s') start end
      → EndsIn (train (suc n) start e s) start end
  unfolding train
  EndsIn-step n start e s s' end k (u, hu, hs, hr) = (
    record u {
      checkpoints = record { identity = identity; epoch = suc e; torch = s' } ∷ u.checkpoints;
    },
    rw (k, train) (rw (hu) refl),
    hs,
    hr,
  )

  train-EndsIn :
      (n start start' e : ℕ) (s : S) (t : Trained S)
      → train n start e s ≡ trained t
      → EndsIn (train n start' e s) start' t.state
  unfolding train
  train-EndsIn zero start start' e s t h = (_, refl, cc, refl)
  train-EndsIn (suc n) start start' e s t h =
      let (s', u, k, hu, same) = train-Stepped n start e s (epoch s) t refl h in
      EndsIn-step n start' e s s' t.state k (
        subst (λ (x : Trained S). EndsIn (train n start' (suc e) s') start' x.state) (sym same)
          (train-EndsIn n start start' (suc e) s' u hu))

  train-LeadsTo :
      (n start e last : ℕ) (s : S) (t : Trained S)
      → train n start e s ≡ trained t
      → last ≡ e + n
      → All (LeadsTo last t.state) t.checkpoints
  unfolding train
  train-LeadsTo zero start e last s t h l =
      let none_saved : t.checkpoints ≡ [] = cc in rw (none_saved) tt
  train-LeadsTo (suc n) start e last s t h l =
      let (s', u, k, hu, same) = train-Stepped n start e s (epoch s) t refl h in
      let left : last - suc e ≡ n = omega (arith, l) in
      rw (same) (
        (refl, omega (arith, l), λ start'. rw (left) (train-EndsIn n start start' (suc e) s' u hu)),
        train-LeadsTo n start (suc e) last s' u hu (omega (arith, l)),
      )

  same_identity_refl : same_identity identity identity ≡ true
  unfolding same_identity
  same_identity_refl = ground (
    arith,
    text_eq_refl identity.study,
    text_eq_refl identity.dataset,
    text_eq_refl identity.regime,
    text_eq_refl identity.model,
    text_eq_refl identity.manifest_digest,
  )

  -- What a run from the checkpoint comes to.
  abbrev Resumes : ℕ → ℕ → S → Checkpoint S → Type 0
  Resumes n_train n_test end c =
      (other : S)
      → (again : Trained S) × (run_task n_train n_test other (some c) ≡ trained again)
        × (again.state ≡ end)
        × (again.resumed_epoch ≡ c.epoch)

  LeadsTo-Resumes :
      (n_train n_test : ℕ) (end : S) (cs : List (Checkpoint S))
      → (n_train == 0) || (n_test == 0) ≡ false
      → All (LeadsTo identity.epochs end) cs
      → All (Resumes n_train n_test end) cs
  unfolding run_task checked_run
  LeadsTo-Resumes n_train n_test end [] h a = tt
  LeadsTo-Resumes n_train n_test end (c ∷ cs) h a =
      let same : same_identity c.identity identity ≡ true =
        ap (λ i. same_identity i identity) a.0.0 ∙ same_identity_refl in
      ((λ other. rw (same, h) (a.0.2 c.epoch)), LeadsTo-Resumes n_train n_test end cs h a.1)

  fresh_parts :
      (n_train n_test : ℕ) (fresh : S) (full : Trained S)
      → run_task n_train n_test fresh none ≡ trained full
      → ((n_train == 0) || (n_test == 0) ≡ false) × (train_from 0 fresh ≡ trained full)
  unfolding run_task checked_run
  fresh_parts n_train n_test fresh full e = elim (Bool-cases ((n_train == 0) || (n_test == 0))) [
    | inl empty ↦
        let bad : ◌≡◌ {A = TaskRun S} (task_error empty_split) (trained full) = rw (empty) at e in
        cc
    | inr some_edges ↦
        let good : train_from 0 fresh ≡ trained full = rw (some_edges) at e in (some_edges, good)
  ]

  -- What a run from the beginning has trained.
  pub run_task_fresh :
      (n_train n_test : ℕ) (fresh : S) (full : Trained S)
      → run_task n_train n_test fresh none ≡ trained full
      → train_from 0 fresh ≡ trained full
  run_task_fresh n_train n_test fresh full e = (fresh_parts n_train n_test fresh full e).1

  -- A task that is restored from any checkpoint of a run of its own, in whatever state it would begin
  -- otherwise, ends in the state in which that run ends.
  pub run_task_resumes :
      (n_train n_test : ℕ) (fresh : S) (full : Trained S)
      → run_task n_train n_test fresh none ≡ trained full
      → All
          (λ c.
            (other : S)
            → (again : Trained S) × (run_task n_train n_test other (some c) ≡ trained again)
              × (again.state ≡ full.state)
              × (again.resumed_epoch ≡ c.epoch))
          full.checkpoints
  run_task_resumes n_train n_test fresh full e =
      let (some_edges, h) = fresh_parts n_train n_test fresh full e in
      LeadsTo-Resumes n_train n_test full.state full.checkpoints some_edges
        (train-LeadsTo (identity.epochs - 0) 0 0 identity.epochs fresh full h (omega arith))

  saved_none :
      (n start e : ℕ) (s : S) (t : Trained S)
      → n ≡ 0
      → train n start e s ≡ trained t
      → t.checkpoints ≡ []
  unfolding train
  saved_none zero start e s t z h = cc
  saved_none (suc n) start e s t z h = absurd (omega (arith, z))

  -- A training of one epoch saves one checkpoint, of that epoch.
  pub train_once :
      (n start : ℕ) (s : S) (t : Trained S)
      → n ≡ 1
      → train n start 0 s ≡ trained t
      → (k : Checkpoint S) × (t.checkpoints ≡ k ∷ []) × (k.epoch ≡ 1)
  unfolding train
  train_once zero start s t one h = absurd (omega (arith, one))
  train_once (suc n) start s t one h =
      let (s', u, k, hu, same) = train-Stepped n start 0 s (epoch s) t refl h in
      let ends : n ≡ 0 = omega (arith, one) in
      let u_none : u.checkpoints ≡ [] = saved_none n start 1 s' u ends hu in
      (
        record { identity = identity; epoch = 1; torch = s' },
        ap (λ (x : Trained S). x.checkpoints) same ∙ rw (u_none) refl,
        refl,
      )
