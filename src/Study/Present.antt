-- ===== src/Study/Present.antt =====
-- The jobs of examples/heterosplit/submit.py are there for every turn of its loops.
use rungrid.Common.{
  ℕ, zero, suc, some, ◌<◌, ◌≡◌, ◌≢◌, refl, ap, sym, ◌∙◌, inl, inr, true, Bool-cases, List, [], ◌∷◌,
  map, Text, codes, text_eq, text_eq_refl, text_eq_sound, str, range_from, All, All-from, arith,
  Present, Present-left, Present-right, Present-map, get_elem?, get_elem?-range_from,
}
use mathlib.Core.Option.{some-injective}
use rungrid.Study.Protocols.{drug_comb}
use rungrid.Study.Submit.{
  Experiment, Definition, for_each, models, by_seed, by_model, by_regime, experiments, data_of,
  definition,
}

-- The file of a dataset.
abbrev pub IsFile : Text → Text → Type 0
IsFile dataset path =
    (dataset ≡ codes "DrugComb" → path ≡ codes "/data/summary_v_1_5.csv")
    × (dataset ≢ codes "DrugComb" → path ≡ codes "/data/ml/ml-latest-small/ratings.csv")

-- The job runs the task of this dataset, regime, model and seed.
abbrev pub Asks : Text → ℕ → ℕ → Text → Text → Text → ℕ → Definition → Type 0
Asks study epochs max_rows dataset regime model seed d =
    (path : Text) × IsFile dataset path
    × (d.command
        ≡ codes "python"
          ∷ codes "examples/heterosplit/task.py"
          ∷ codes "--dataset"
          ∷ dataset
          ∷ codes "--data"
          ∷ path
          ∷ codes "--regime"
          ∷ regime
          ∷ codes "--model"
          ∷ model
          ∷ codes "--seed"
          ∷ str seed
          ∷ codes "--epochs"
          ∷ str epochs
          ∷ codes "--max-rows"
          ∷ str max_rows
          ∷ codes "--study"
          ∷ study
          ∷ [])

-- A job of the list for every seed, of a dataset, regime and model; and for every dataset, regime, model
-- and seed.
abbrev pub AsksSeeds : Text → ℕ → ℕ → ℕ → List Definition → Text → Text → Text → Type 0
AsksSeeds study seeds epochs max_rows ds dataset regime model =
    (seed : ℕ)
    → seed < seeds
    → (d : Definition) × Present d ds × Asks study epochs max_rows dataset regime model seed d

abbrev pub AsksModels : Text → ℕ → ℕ → ℕ → List Definition → Text → Text → Type 0
AsksModels study seeds epochs max_rows ds dataset regime =
    All (AsksSeeds study seeds epochs max_rows ds dataset regime) (codes "MF" ∷ codes "SAGE" ∷ [])

abbrev pub AsksRow : Text → ℕ → ℕ → ℕ → List Definition → Text × List Text → Type 0
AsksRow study seeds epochs max_rows ds row =
    All (AsksModels study seeds epochs max_rows ds row.0) row.1

abbrev pub AsksAll : Text → ℕ → ℕ → ℕ → List (Text × List Text) → List Definition → Type 0
AsksAll study seeds epochs max_rows table ds = All (AsksRow study seeds epochs max_rows ds) table

data_of-IsFile : (dataset : Text) → IsFile dataset (data_of dataset)
data_of-IsFile dataset = elim (Bool-cases (text_eq dataset drug_comb)) [
  | inl same ↦ rw (same) ((λ e. refl), (λ ne. absurd (ne (text_eq_sound dataset drug_comb same))))
  | inr other ↦ rw (other) (
    (λ e.
        let same : text_eq dataset drug_comb ≡ true =
          ap (text_eq dataset) (sym e) ∙ text_eq_refl dataset in
        cc),
    (λ ne. refl),
  )
]

Present-for_each :
    {A B : Type 0} (f : A → List B) (x : A) (y : B) (xs : List A)
    → Present x xs
    → Present y (f x)
    → Present y (for_each f xs)
unfolding for_each get_elem?
Present-for_each f x y [] (i, e) h = cc
Present-for_each f x y (z ∷ xs) (zero, e) h =
    Present-left y (f z) (for_each f xs)
      (let same = some-injective z x e in (h.0, ap (λ t. get_elem? (f t) h.0) same ∙ h.1))
Present-for_each f x y (z ∷ xs) (suc i, e) h =
    Present-right y (f z) (for_each f xs) (Present-for_each f x y xs (i, e) h)

experiment_present :
    (seeds seed : ℕ) (table : List (Text × List Text)) (row : Text × List Text)
    (regime model : Text)
    → Present row table
    → Present regime row.1
    → Present model models
    → seed < seeds
    → Present
        (record { dataset = row.0; regime = regime; model = model; seed = seed })
        (experiments seeds table)
unfolding experiments
experiment_present seeds seed table row regime model h k m lt =
    let e : Experiment = record { dataset = row.0; regime = regime; model = model; seed = seed } in
    let number : get_elem? (range_from 0 seeds) seed ≡ some seed =
      get_elem?-range_from 0 seeds seed lt ∙ ap some (omega arith) in
    Present-for_each (by_regime seeds) row e table h (
      Present-for_each (by_model seeds row.0) regime e row.1 k (
        Present-for_each (by_seed seeds row.0 regime) model e models m (
          Present-map (λ s. record { dataset = row.0; regime = regime; model = model; seed = s })
            seed (range_from 0 seeds) (seed, number))))

pub definitions-AsksAll :
    (run_id study : Text) (seeds epochs max_rows : ℕ) (table : List (Text × List Text))
    → AsksAll study seeds epochs max_rows table
        (map (definition run_id epochs max_rows study) (experiments seeds table))
unfolding definition
definitions-AsksAll run_id study seeds epochs max_rows table =
    let made = definition run_id epochs max_rows study in
    let es = experiments seeds table in
    let ds = map made es in
    All-from (AsksRow study seeds epochs max_rows ds) table (λ row h.
      All-from (AsksModels study seeds epochs max_rows ds row.0) row.1 (λ regime k.
        All-from (AsksSeeds study seeds epochs max_rows ds row.0 regime) models (λ model m seed lt.
          let e : Experiment = record {
            dataset = row.0;
            regime = regime;
            model = model;
            seed = seed;
          } in
          (
            made e,
            Present-map made e es (experiment_present seeds seed table row regime model h k m lt),
            (data_of row.0, data_of-IsFile row.0, refl),
          ))))
