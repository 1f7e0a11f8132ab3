-- ===== src/Study/Repeats.antt =====
-- A task of examples/heterosplit/task.py and the one that goes on from its checkpoint.
use mathlib.Core.Path.{subst}
use rungrid.Common.{
  All-weaken, ℕ, ◌-◌, ◌≡◌, refl, sym, ap, ◌∙◌, true, ◌&&◌, inl, inr, Bool-cases, Option, none, some,
  List, [], ◌∷◌, length, All, arith,
}
use rungrid.Study.Sampling.{Edge}
use rungrid.Study.Nodes.{Prep, prepare}
use rungrid.Study.Preflight.{Site, Checked, stopped, passed, split_task}
use rungrid.Study.Task.{
  Identity, Checkpoint, Trained, TaskRun, task_error, trained, train_from, train_once, run_task,
  run_task_resumes, run_task_fresh,
}
use rungrid.Study.Run.{
  is_quotient, is_average, Config, Torch, Metrics, Finished, no_metric, finished, identity_of,
  negatives, run_metrics, written, evaluate, evaluate_run, run_split, experiment_of, run_checked,
  epoch, run,
}

module _ {R Result S G : Type 0} (site : Site R Result) (torch : Torch Result S G) where
  -- The run from the checkpoint ends with the same metrics, but for the epoch that it resumed at.
  abbrev pub Repeats : Config → Metrics → Checkpoint S → Type 0
  Repeats c m k =
      (cs : List (Checkpoint S)) × (run site torch c (some k)
        ≡ finished cs (record m { resumed_epoch = k.epoch }))

  written_finite :
      (cs ds : List (Checkpoint S)) (m m' : Metrics)
      → written site torch cs m ≡ finished ds m'
      → (is_quotient m.auc && is_average m.ap ≡ true) × (cs ≡ ds) × (m ≡ m')
  written_finite cs ds m m' e = elim (Bool-cases (is_quotient m.auc && is_average m.ap)) [
    | inl fine ↦
        let good : ◌≡◌ {A = Finished S} (finished cs m) (finished ds m') = rw (fine) at e in
        (fine, cc, cc)
    | inr nan ↦ let bad : ◌≡◌ {A = Finished S} no_metric (finished ds m') = rw (nan) at e in cc
  ]

  module _ (c : Config) (n : ℕ) (result : Result) where
    abbrev pub p : Prep
    p = prepare (torch.edges result)

    abbrev pub identity : Identity
    identity = identity_of site torch c result

    abbrev pub fresh : S
    fresh = torch.start c.model p.num_nodes c.dim c.seed

    abbrev pub task : Option (Checkpoint S) → TaskRun S
    task = run_task (epoch site torch p) identity (length p.train_pos) (length p.test_pos) fresh

    -- A run that finished has trained, has sampled and has finite metrics.
    pub evaluated :
        (o : TaskRun S) (cs : List (Checkpoint S)) (m : Metrics)
        → evaluate_run site torch c n result p o ≡ finished cs m
        → (t : Trained S) × (neg : List Edge) × (o ≡ trained t)
          × (negatives site torch p t.state ≡ some neg)
          × (t.checkpoints ≡ cs)
          × (run_metrics site torch c n result p t neg ≡ m)
          × (is_quotient m.auc && is_average m.ap ≡ true)
    evaluated (task_error x) cs m e = cc
    evaluated (trained t) cs m e = sampled (negatives site torch p t.state) refl e
      where
        sampled :
            (o : Option (List Edge))
            → negatives site torch p t.state ≡ o
            → evaluate site torch c n result p t o ≡ finished cs m
            → (t' : Trained S) × (neg : List Edge) × (trained t ≡ trained t')
              × (negatives site torch p t'.state ≡ some neg)
              × (t'.checkpoints ≡ cs)
              × (run_metrics site torch c n result p t' neg ≡ m)
              × (is_quotient m.auc && is_average m.ap ≡ true)
        sampled none q g = cc
        sampled (some neg) q g =
            let w =
              written_finite t.checkpoints cs (run_metrics site torch c n result p t neg) m g in
            (
              t,
              neg,
              refl,
              q,
              w.1,
              w.2,
              subst (λ x. is_quotient x.auc && is_average x.ap ≡ true) w.2 w.0,
            )

    -- The same end from a state that is the same.
    evaluated_again :
        (t again : Trained S) (neg : List Edge) (m : Metrics)
        → again.state ≡ t.state
        → negatives site torch p t.state ≡ some neg
        → run_metrics site torch c n result p t neg ≡ m
        → is_quotient m.auc && is_average m.ap ≡ true
        → evaluate_run site torch c n result p (trained again)
          ≡ finished again.checkpoints (record m { resumed_epoch = again.resumed_epoch })
    evaluated_again t again neg m same sample are fine =
        let sampled : negatives site torch p again.state ≡ some neg =
          ap (negatives site torch p) same ∙ sample in
        let again_metrics : run_metrics site torch c n result p again neg
            ≡ record m { resumed_epoch = again.resumed_epoch } =
          ap {A = S}
            (λ s.
              run_metrics site torch c n result p
                (record {
                  resumed_epoch = again.resumed_epoch;
                  state = s;
                  checkpoints = again.checkpoints;
                })
                neg)
            same
          ∙ ap {A = Metrics} (λ x. record x { resumed_epoch = again.resumed_epoch }) are in
        rw (sampled) (ap (written site torch again.checkpoints) again_metrics ∙ rw (fine) refl)

    split_repeats :
        (cs : List (Checkpoint S)) (m : Metrics)
        → run_split site torch c n result none ≡ finished cs m
        → All
            (λ k.
              (ds : List (Checkpoint S)) × (run_split site torch c n result (some k)
                ≡ finished ds (record m { resumed_epoch = k.epoch })))
            cs
          × ((t : Trained S) × (train_from (epoch site torch p) identity 0 fresh ≡ trained t)
              × (t.checkpoints ≡ cs))
    unfolding run_split
    split_repeats cs m e =
        let (t, neg, q, sample, are_cs, are, fine) = evaluated (task none) cs m e in
        let resumes =
          run_task_resumes (epoch site torch p) identity (length p.train_pos) (length p.test_pos)
            fresh t q in
        (
          subst
              (λ l.
                All
                  (λ k.
                    (ds : List (Checkpoint S)) × (run_split site torch c n result (some k)
                      ≡ finished ds (record m { resumed_epoch = k.epoch })))
                  l)
              are_cs
              (All-weaken _ _
                (λ k again_of.
                  let (again, r, state, epoch) = again_of fresh in
                  (
                    again.checkpoints,
                    ap (evaluate_run site torch c n result p) r
                        ∙ (evaluated_again t again neg m state sample are fine
                            ∙ ap {A = ℕ}
                                (λ j. finished again.checkpoints (record m { resumed_epoch = j }))
                                epoch),
                  ))
                t.checkpoints resumes),
          (
            t,
            run_task_fresh (epoch site torch p) identity (length p.train_pos) (length p.test_pos)
                fresh t q,
            are_cs,
          ),
        )

  -- A task that goes on from any checkpoint of a finished run with the same arguments finishes with the
  -- same metrics: only the epoch that it resumed at differs.
  pub run-Repeats :
      (c : Config) (cs : List (Checkpoint S)) (m : Metrics)
      → run site torch c none ≡ finished cs m
      → All (Repeats c m) cs
  unfolding run
  run-Repeats c cs m e =
      split (split_task site c.study c.max_rows c.path (experiment_of site torch c)) refl e
    where
      split :
          (r : Checked (ℕ × Result))
          → split_task site c.study c.max_rows c.path (experiment_of site torch c) ≡ r
          → run_checked site torch c none r ≡ finished cs m
          → All (Repeats c m) cs
      split (stopped x) q g = cc
      split (passed (n, result)) q g =
          All-weaken _ _ (λ k again. (again.0, ap (run_checked site torch c (some k)) q ∙ again.1))
            cs (split_repeats c n result cs m g).0

  -- A run of one epoch leaves one checkpoint, of that epoch.
  pub one_checkpoint :
      (c : Config) (cs : List (Checkpoint S)) (m : Metrics)
      → c.epochs ≡ 1
      → run site torch c none ≡ finished cs m
      → (k : Checkpoint S) × (cs ≡ k ∷ []) × (k.epoch ≡ 1)
  unfolding run
  one_checkpoint c cs m one e =
      split (split_task site c.study c.max_rows c.path (experiment_of site torch c)) e
    where
      split :
          (r : Checked (ℕ × Result))
          → run_checked site torch c none r ≡ finished cs m
          → (k : Checkpoint S) × (cs ≡ k ∷ []) × (k.epoch ≡ 1)
      split (stopped x) g = cc
      split (passed (n, result)) g =
          let (t, h, are) = (split_repeats c n result cs m g).1 in
          let (k, only, first) =
            train_once (epoch site torch (p c n result)) (identity c n result) (c.epochs - 0) 0
              (fresh c n result) t (omega (arith, one)) h in
          (k, sym are ∙ only, first)

  -- JSON holds no NaN: what a finished run has written is finite.
  pub run_finite :
      (c : Config) (cs : List (Checkpoint S)) (m : Metrics)
      → run site torch c none ≡ finished cs m
      → is_quotient m.auc && is_average m.ap ≡ true
  unfolding run run_split
  run_finite c cs m e =
      split (split_task site c.study c.max_rows c.path (experiment_of site torch c)) e
    where
      split :
          (r : Checked (ℕ × Result))
          → run_checked site torch c none r ≡ finished cs m
          → is_quotient m.auc && is_average m.ap ≡ true
      split (stopped x) g = cc
      split (passed (n, result)) g = (evaluated c n result (task c n result none) cs m g).6
