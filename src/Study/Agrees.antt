-- ===== src/Study/Agrees.antt =====
-- `run` of examples/heterosplit/task.py beside `run_once` of examples/heterosplit/research.py.
use mathlib.Core.Path.{subst}
use mathlib.Core.Option.{some-injective}
use rungrid.Common.{
  All, ℕ, zero, suc, ◌-◌, ◌≡◌, refl, sym, ap, ◌∙◌, true, false, none, some, List, length, Text,
  text_eq, arith,
}
use rungrid.Study.Nodes.{Prep, prepare}
use rungrid.Study.Preflight.{Site, load_path, split_loaded, split_result, split_task}
use rungrid.Study.Protocols.{
  among, drug_comb, original_v1, original, regimes_of, regimes_in, find, plan, Outcome, raised,
  returned, split_by, split_protocol,
}
use rungrid.Study.Plans.{split_protocol_checked, among-All, find-All, audited_checked}
use rungrid.Study.Records.{Loaded, Load, failed, loaded}
use rungrid.Study.Task.{
  Identity, Checkpoint, Trained, trained, train, train-Stepped, run_task_fresh,
}
use rungrid.Study.Run.{
  Config, Torch, Metrics, finished, identity_of, epoch, negatives, run_split, run_checked, run,
}
use rungrid.Study.Repeats.{evaluated, task}
use rungrid.Study.Research.{Setting, settings, setting_of, epochs_on, run_once}

-- The row that an original regime of a dataset has in the tables of research.py, and its plan.
abbrev Matches : Text → List Text → Text → Type 0
Matches dataset native regime =
    (rows : List Setting) × (row : Setting) × (find dataset settings ≡ some rows)
    × (setting_of regime rows ≡ some row)
    × (plan native dataset regime
        ≡ record { native_regime = row.regime; holdout = row.holdout; paired = false })
    × (text_eq dataset drug_comb ≡ row.undirected)

original-Matches : All (λ row. All (Matches row.0 row.1) row.1) original
unfolding find setting_of plan
original-Matches = (
  (
    (_, _, refl, refl, refl, refl),
    (
      (_, _, refl, refl, refl, refl),
      ((_, _, refl, refl, refl, refl), ((_, _, refl, refl, refl, refl), tt)),
    ),
  ),
  (
    (
      (_, _, refl, refl, refl, refl),
      (
        (_, _, refl, refl, refl, refl),
        ((_, _, refl, refl, refl, refl), ((_, _, refl, refl, refl, refl), tt)),
      ),
    ),
    tt,
  ),
)

original_row :
    (dataset regime : Text) (native : List Text)
    → find dataset original ≡ some native
    → among regime native ≡ true
    → Matches dataset native regime
original_row dataset regime native e m =
    among-All (Matches dataset native) regime native
      (find-All (λ d k. All (Matches d k) k) dataset native original original-Matches e) m

module _ {R Result S G : Type 0} (site : Site R Result) (torch : Torch Result S G) where
  -- Training with checkpoints ends in the state in which the plain loop ends.
  train-epochs_on :
      (p : Prep) (identity : Identity) (n start e : ℕ) (s : S) (t : Trained S)
      → train (epoch site torch p) identity n start e s ≡ trained t
      → epochs_on site torch p n s ≡ some t.state
  unfolding train epochs_on epoch
  train-epochs_on p identity zero start e s t h = cc
  train-epochs_on p identity (suc n) start e s t h =
      let (s', u, k, hu, same) =
        train-Stepped (epoch site torch p) identity n start e s (epoch site torch p s) t refl h in
      rw (epochs_on, k)
        (train-epochs_on p identity n start (suc e) s' u hu
          ∙ ap (λ (x : Trained S). some x.state) (sym same))

  split_same :
      (records : R) (dataset : Text) (seed : ℕ) (row : Setting) (result : Result)
      → split_by site.splitter records dataset seed
          (record { native_regime = row.regime; holdout = row.holdout; paired = false })
        ≡ returned result
      → text_eq dataset drug_comb ≡ row.undirected
      → site.splitter.split records row.regime row.holdout seed row.undirected ≡ result
  unfolding split_by
  split_same records dataset seed row result e u =
      ap (site.splitter.split records row.regime row.holdout seed) (sym u)
      ∙ (audited_checked site.splitter _ result e).0

  split_row :
      (c : Config) (records : R) (result : Result)
      → c.study ≡ original_v1
      → split_protocol site.splitter records c.dataset c.regime c.seed c.study ≡ returned result
      → (row : Setting) × (rows : List Setting) × (find c.dataset settings ≡ some rows)
        × (setting_of c.regime rows ≡ some row)
        × (site.splitter.split records row.regime row.holdout c.seed row.undirected ≡ result)
  unfolding regimes_of regimes_in find
  split_row c records result study e =
      let (known, native, k, f, among_known, done, tight, full) =
        split_protocol_checked site.splitter records c.dataset c.regime c.seed c.study result e in
      let original_known : find c.dataset original ≡ some known =
        ap (λ s. regimes_of s c.dataset) (sym study) ∙ k in
      let same : known ≡ native = some-injective known native (sym original_known ∙ f) in
      let (rows, row, are, h, plan_is, u) =
        original_row c.dataset c.regime native f
          (subst (λ names. among c.regime names ≡ true) same among_known) in
      (
        row,
        rows,
        are,
        h,
        split_same records c.dataset c.seed row result
            (ap (split_by site.splitter records c.dataset c.seed) (sym plan_is) ∙ done) u,
      )

  -- From a split on.
  split-run_once :
      (c : Config) (n : ℕ) (records : R) (row : Setting) (result : Result)
      (cs : List (Checkpoint S)) (m : Metrics)
      → site.splitter.split records row.regime row.holdout c.seed row.undirected ≡ result
      → run_split site torch c n result none ≡ finished cs m
      → run_once site torch records row c.model c.dim c.epochs c.seed ≡ some (m.auc, m.ap)
  unfolding run_once run_split negatives
  split-run_once c n records row result cs m same e =
      let (t, neg, q, sample, are_cs, are, fine) =
        evaluated site torch c n result (task site torch c n result none) cs m e in
      let p = prepare (torch.edges result) in
      let begun = torch.start c.model p.num_nodes c.dim c.seed in
      let identity = identity_of site torch c result in
      let all_epochs : c.epochs - 0 ≡ c.epochs = omega arith in
      let trains =
        run_task_fresh (epoch site torch p) identity (length p.train_pos) (length p.test_pos) begun
          t q in
      let ends : epochs_on site torch p c.epochs begun ≡ some t.state =
        ap (λ j. epochs_on site torch p j begun) (sym all_epochs)
        ∙ train-epochs_on p identity (c.epochs - 0) 0 0 begun t trains in
      rw (same, ends, sample) (ap {A = Metrics} (λ (x : Metrics). some (x.auc, x.ap)) are)

  -- What the task leaves of the records is what `run_once` returns, with a row of a table.
  abbrev IsOnce : Config → Loaded → Metrics → List Setting → Setting → Type 0
  IsOnce c l m rows row =
      (find c.dataset settings ≡ some rows)
      × (setting_of c.regime rows ≡ some row)
      × (run_once site torch (site.records c.path l) row c.model c.dim c.epochs c.seed
          ≡ some (m.auc, m.ap))

  split_original :
      (c : Config) (l : Loaded) (cs : List (Checkpoint S)) (m : Metrics)
      → c.study ≡ original_v1
      → run_checked site torch c none
          (split_loaded site c.study c.max_rows c.path c.dataset c.regime c.seed (loaded l))
        ≡ finished cs m
      → (rows : List Setting) × (row : Setting) × IsOnce c l m rows row
  split_original c l cs m study e =
      outcome
        (split_protocol site.splitter (site.records c.path l) c.dataset c.regime c.seed c.study)
        refl e
    where
      outcome :
          (o : Outcome Result)
          → split_protocol site.splitter (site.records c.path l) c.dataset c.regime c.seed c.study
            ≡ o
          → run_checked site torch c none
              (split_result site c.study c.max_rows (site.n_records (site.records c.path l)) o)
            ≡ finished cs m
          → (rows : List Setting) × (row : Setting) × IsOnce c l m rows row
      outcome (raised x) q g = cc
      outcome (returned result) q g =
          let (row, rows, f, h, same) = split_row c (site.records c.path l) result study q in
          (
            rows,
            row,
            (
              f,
              h,
              split-run_once c (site.n_records (site.records c.path l)) (site.records c.path l) row
                  result cs m same g,
            ),
          )

  -- A task of the original study that finished is an experiment of a table of research.py: on the
  -- records that the task loaded, `run_once` with the row of the task's regime returns the AUC and the
  -- average precision that the task has written.
  pub run-run_once :
      (c : Config) (cs : List (Checkpoint S)) (m : Metrics)
      → c.study ≡ original_v1
      → run site torch c none ≡ finished cs m
      → (l : Loaded) × (rows : List Setting) × (row : Setting) × (load_path site c.study c.max_rows
            c.path c.dataset
          ≡ loaded l)
        × (find c.dataset settings ≡ some rows)
        × (setting_of c.regime rows ≡ some row)
        × (run_once site torch (site.records c.path l) row c.model c.dim c.epochs c.seed
            ≡ some (m.auc, m.ap))
  unfolding run split_task
  run-run_once c cs m study e =
      let (l, rows, row, q, once) =
        opened (load_path site c.study c.max_rows c.path c.dataset) refl e in
      (l, rows, row, q, once.0, once.1, once.2)
    where
      opened :
          (r : Load Loaded)
          → load_path site c.study c.max_rows c.path c.dataset ≡ r
          → run_checked site torch c none
              (split_loaded site c.study c.max_rows c.path c.dataset c.regime c.seed r)
            ≡ finished cs m
          → (l : Loaded) × (rows : List Setting) × (row : Setting) × (load_path site c.study
                c.max_rows c.path c.dataset
              ≡ loaded l)
            × IsOnce c l m rows row
      opened (failed x) q g = cc
      opened (loaded l) q g =
          let (rows, row, once) = split_original c l cs m study g in (l, rows, row, q, once)
