-- ===== src/Study/Rehearsal.antt =====
-- What examples/heterosplit/preflight.py shows of the jobs of examples/heterosplit/submit.py.
use rungrid.Common.{
  ℕ, zero, suc, ◌≤◌, ◌≡◌, refl, inl, inr, Bool-cases, some, List, [], ◌∷◌, range_from, ◌==◌, Text,
  All, arith,
}
use rungrid.Study.Protocols.{studies, find, raised, returned, Outcome, split_protocol}
use rungrid.Study.Records.{Loaded, Load, failed, loaded}
use rungrid.Study.Submit.{Experiment, experiments, models, by_seed, by_model, by_regime}
use rungrid.Study.Keys.{All-for_each, All-zip}
use rungrid.Study.Preflight.{
  Site, PreflightRow, Checked, stopped, passed, no_records, then_append, each, data_path, load_path,
  rows_of, check_seed, check_regime, check_loaded, check_dataset, preflight, split_loaded,
  split_task,
}

-- A turn of the loop that did not raise.
abbrev Passes : {A B : Type 0} → (A → Checked (List B)) → A → Type 0
Passes {B} f x = (ys : List B) × (f x ≡ passed ys)

then_append_parts :
    {A : Type 0} (x y : Checked (List A)) (zs : List A)
    → then_append x y ≡ passed zs
    → ((as' : List A) × (x ≡ passed as')) × ((bs : List A) × (y ≡ passed bs))
then_append_parts (stopped e) y zs h = cc
then_append_parts (passed xs) (stopped e) zs h = cc
then_append_parts (passed xs) (passed ys) zs h = ((xs, refl), (ys, refl))

each-Passes :
    {A B : Type 0} (f : A → Checked (List B)) (xs : List A) (ys : List B)
    → each f xs ≡ passed ys
    → All (Passes f) xs
unfolding each
each-Passes f [] ys h = tt
each-Passes f (x ∷ xs) ys h =
    let parts = then_append_parts (f x) (each f xs) ys h in
    (parts.0, each-Passes f xs parts.1.0 parts.1.1)

All-range_from :
    (P : ℕ → Type 0) (a m n : ℕ) → m ≤ n → All P (range_from a n) → All P (range_from a m)
unfolding range_from
All-range_from P a zero n h all = tt
All-range_from P a (suc m) zero h all = absurd (omega arith)
All-range_from P a (suc m) (suc n) h all = (all.0, All-range_from P (suc a) m n (omega arith) all.1)

module _ {R Result : Type 0} (site : Site R Result) (study : Text) (max_rows : ℕ) where
  -- The task of the experiment loads its data and splits it without an exception.
  abbrev pub Starts : Text → Experiment → Type 0
  Starts data_dir e =
      (result : ℕ × Result) × (split_task site study max_rows (data_path data_dir e.dataset) e
        ≡ passed result)

  split-Passes :
      (path dataset regime : Text) (seed : ℕ) (l : Loaded)
      → Passes (check_seed site study max_rows (site.records path l) dataset regime) seed
      → (result : ℕ × Result) × (split_loaded site study max_rows path dataset regime seed
            (loaded l)
          ≡ passed result)
  unfolding check_seed
  split-Passes path dataset regime seed l (rows, h) =
      outcome (split_protocol site.splitter (site.records path l) dataset regime seed study) refl h
    where
      outcome :
          (o : Outcome Result)
          → split_protocol site.splitter (site.records path l) dataset regime seed study ≡ o
          → rows_of site study max_rows (site.records path l) dataset regime seed o ≡ passed rows
          → (result : ℕ × Result) × (split_loaded site study max_rows path dataset regime seed
                (loaded l)
              ≡ passed result)
      outcome (raised e) q g = cc
      outcome (returned result) q g = ((site.n_records (site.records path l), result), rw (q) refl)

  check_regime-Starts :
      (data_dir dataset regime : Text) (l : Loaded) (seeds : ℕ)
      → load_path site study max_rows (data_path data_dir dataset) dataset ≡ loaded l
      → seeds ≤ 5
      → Passes
          (check_regime site study max_rows (site.records (data_path data_dir dataset) l) dataset)
          regime
      → All (Starts data_dir) (by_model seeds dataset regime)
  unfolding check_regime split_task
  check_regime-Starts data_dir dataset regime l seeds e h (rows, p) =
      let path = data_path data_dir dataset in
      let ok = All-range_from _ 0 seeds 5 h (
        each-Passes (check_seed site study max_rows (site.records path l) dataset regime)
          (range_from 0 5) rows p) in
      All-for_each (λ m. Unit) (Starts data_dir) (by_seed seeds dataset regime)
        (λ model m.
          All-zip (Starts data_dir) _
            (Passes (check_seed site study max_rows (site.records path l) dataset regime))
            (λ seed q. rw (e) (split-Passes path dataset regime seed l q)) (range_from 0 seeds) ok)
        models (omega arith)

  check_dataset-Starts :
      (data_dir : Text) (seeds : ℕ) (row : Text × List Text)
      → seeds ≤ 5
      → Passes (check_dataset site study max_rows data_dir) row
      → All (Starts data_dir) (by_regime seeds row)
  unfolding check_dataset
  check_dataset-Starts data_dir seeds row h (rows, p) =
      opened (load_path site study max_rows (data_path data_dir row.0) row.0) refl p
    where
      opened :
          (r : Load Loaded)
          → load_path site study max_rows (data_path data_dir row.0) row.0 ≡ r
          → check_loaded site study max_rows (data_path data_dir row.0) row.0 row.1 r ≡ passed rows
          → All (Starts data_dir) (by_regime seeds row)
      opened (failed x) q g = cc
      opened (loaded l) q g =
          let path = data_path data_dir row.0 in
          elim (Bool-cases (site.n_records (site.records path l) == 0)) [
            | inl empty ↦
                let bad : ◌≡◌ {A = Checked (List PreflightRow)} (stopped no_records) (passed rows) =
                  rw (empty) at g in
                cc
            | inr full ↦
                All-for_each (Passes (check_regime site study max_rows (site.records path l) row.0))
                  (Starts data_dir) (by_model seeds row.0)
                  (λ regime k. check_regime-Starts data_dir row.0 regime l seeds q h k) row.1
                  (each-Passes (check_regime site study max_rows (site.records path l) row.0) row.1
                    rows (rw (full) at g))
          ]

  -- After a preflight that passed, the task of every job that the study submits for up to five seeds, on
  -- the same data and as many rows, loads its records and splits them without an exception.
  pub preflight-Starts :
      (data_dir : Text) (seeds : ℕ) (table : List (Text × List Text)) (rows : List PreflightRow)
      → seeds ≤ 5
      → find study studies ≡ some table
      → preflight site study max_rows data_dir ≡ passed rows
      → All (Starts data_dir) (experiments seeds table)
  unfolding preflight experiments
  preflight-Starts data_dir seeds table rows h e p =
      All-for_each (Passes (check_dataset site study max_rows data_dir)) (Starts data_dir)
        (by_regime seeds) (λ row k. check_dataset-Starts data_dir seeds row h k) table
        (each-Passes (check_dataset site study max_rows data_dir) table rows (rw (e) at p))
