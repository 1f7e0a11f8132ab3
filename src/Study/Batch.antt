-- ===== src/Study/Batch.antt =====
-- The command line of examples/heterosplit/submit.py: one batch of all jobs of a study, no two of them
-- with one idempotency key.
use rungrid.Common.{
  length-map, range_from, ℕ, ◌*◌, ◌≡◌, ◌≢◌, refl, sym, ap, ◌∙◌, Bool, true, false, not, ◌&&◌,
  Option, none, some, List, [], ◌∷◌, map, length, Text, text_eq, text_eq_refl, All, All-weaken,
  arith,
}
use rungrid.Sdk.Client.{HttpRequest, batch, request}
use rungrid.Study.Protocols.{among, find, studies}
use rungrid.Study.Plans.{find-All}
use rungrid.Study.Submit.{
  Experiment, Definition, models, by_seed, by_model, by_regime, experiments, definition,
  definitions,
}
use rungrid.Study.Keys.{
  Plain, All-for_each, All-map, key_apart, regime_count, length-experiments, experiments-Plain,
}
use rungrid.Study.Jobs.{studies-Plain}
use rungrid.Study.Present.{AsksAll, definitions-AsksAll}
use rungrid.Study.Pairs.{
  All-always, Pairwise-All, Pairwise, Pairwise-for_each, Pairwise-map, Pairwise-range_from,
  projected_apart,
}

abbrev pub submit_all :
    Text → (List Definition → Text) → Text → Option (List Definition) → Option HttpRequest
submit_all url dumps fresh none = none
submit_all url dumps fresh (some ds) = some (request url (batch (dumps ds)) fresh)

-- `Client().batch(list(definitions(...)))`: `dumps` is `json.dumps`, and `fresh` the new `uuid4`.
unfoldable pub submit_study :
    Text → (List Definition → Text) → Text → Text → ℕ → ℕ → ℕ → Text → Option HttpRequest
unfolding definitions
submit_study url dumps fresh run_id seeds epochs max_rows study =
    submit_all url dumps fresh (definitions run_id seeds epochs max_rows study)

-- No name comes twice.
unfoldable distinct : List Text → Bool
unfolding among
distinct [] = true
distinct (n ∷ ns) = not (among n ns) && distinct ns

among-All_false : (n : Text) (ns : List Text) → among n ns ≡ false → All (λ m. n ≢ m) ns
unfolding among
among-All_false n [] h = tt
among-All_false n (m ∷ ns) h = (
  (λ e.
      let same : text_eq n m ≡ true = ap (text_eq n) (sym e) ∙ text_eq_refl n in
      ground (arith, same, h)),
  among-All_false n ns (ground (arith, h)),
)

distinct-Pairwise : (ns : List Text) → distinct ns ≡ true → Pairwise (λ m n. m ≢ n) ns
unfolding distinct
distinct-Pairwise [] h = tt
distinct-Pairwise (n ∷ ns) h =
    (among-All_false n ns (ground (arith, h)), distinct-Pairwise ns (ground (arith, h)))

-- The experiments of one dataset, regime and model, of one dataset and regime, and of one dataset.
by_seed-Pairwise :
    (seeds : ℕ) (dataset regime model : Text)
    → Pairwise (λ e e'. e ≢ e') (by_seed seeds dataset regime model)
by_seed-Pairwise seeds dataset regime model =
    Pairwise-map (λ j k. j ≢ k) (λ e e'. e ≢ e') _
      (λ j k n same. n (ap (λ (e : Experiment). e.seed) same)) (range_from 0 seeds)
      (Pairwise-range_from 0 seeds)

by_model-Pairwise :
    (seeds : ℕ) (dataset regime : Text) → Pairwise (λ e e'. e ≢ e') (by_model seeds dataset regime)
unfolding distinct
by_model-Pairwise seeds dataset regime =
    Pairwise-for_each (λ m n. m ≢ n) (λ e e'. e ≢ e') (by_seed seeds dataset regime)
      (λ m n apart.
        projected_apart (λ (e : Experiment). e.model) m n (by_seed seeds dataset regime m)
          (by_seed seeds dataset regime n) apart (All-map _ _ (λ s. refl) (range_from 0 seeds))
          (All-map _ _ (λ s. refl) (range_from 0 seeds)))
      models (All-always _ (by_seed-Pairwise seeds dataset regime) models)
      (distinct-Pairwise models refl)

by_model-regime :
    (seeds : ℕ) (dataset regime : Text)
    → All
        (λ (e : Experiment). (e.dataset ≡ dataset) × (e.regime ≡ regime))
        (by_model seeds dataset regime)
by_model-regime seeds dataset regime =
    All-for_each (λ m. Unit) _ (by_seed seeds dataset regime)
      (λ m u. All-map _ _ (λ s. (refl, refl)) (range_from 0 seeds)) models (omega arith)

by_regime-Pairwise :
    (seeds : ℕ) (row : Text × List Text)
    → distinct row.1 ≡ true
    → Pairwise (λ e e'. e ≢ e') (by_regime seeds row)
by_regime-Pairwise seeds row h =
    Pairwise-for_each (λ m n. m ≢ n) (λ e e'. e ≢ e') (by_model seeds row.0)
      (λ r r' apart.
        projected_apart (λ (e : Experiment). e.regime) r r' (by_model seeds row.0 r)
          (by_model seeds row.0 r') apart
          (All-weaken _ _ (λ e k. k.1) _ (by_model-regime seeds row.0 r))
          (All-weaken _ _ (λ e k. k.1) _ (by_model-regime seeds row.0 r')))
      row.1 (All-always _ (by_model-Pairwise seeds row.0) row.1) (distinct-Pairwise row.1 h)

by_regime-dataset :
    (seeds : ℕ) (row : Text × List Text)
    → All (λ (e : Experiment). e.dataset ≡ row.0) (by_regime seeds row)
by_regime-dataset seeds row =
    All-for_each (λ r. Unit) _ (by_model seeds row.0)
      (λ r u. All-weaken _ _ (λ e k. k.0) _ (by_model-regime seeds row.0 r)) row.1
      (All-always _ (λ r. tt) row.1)

abbrev DistinctRows : List (Text × List Text) → Type 0
DistinctRows table =
    (distinct (map (λ row. row.0) table) ≡ true) × All (λ row. distinct row.1 ≡ true) table

studies-DistinctRows :
    (study : Text) (table : List (Text × List Text))
    → find study studies ≡ some table
    → DistinctRows table
unfolding distinct among
studies-DistinctRows study table e =
    find-All (λ s t. DistinctRows t) study table studies
      (((refl, (refl, (refl, tt)))), ((refl, (refl, (refl, tt))), tt)) e

unmap-All :
    (P : Text → Type 0) (table : List (Text × List Text))
    → All P (map (λ row. row.0) table)
    → All (λ row. P row.0) table
unmap-All P [] h = tt
unmap-All P (row ∷ rows) h = (h.0, unmap-All P rows h.1)

unmap-Pairwise :
    (table : List (Text × List Text))
    → Pairwise (λ m n. m ≢ n) (map (λ row. row.0) table)
    → Pairwise (λ r r'. r.0 ≢ r'.0) table
unmap-Pairwise [] h = tt
unmap-Pairwise (row ∷ rows) h = (unmap-All (λ n. row.0 ≢ n) rows h.0, unmap-Pairwise rows h.1)

experiments-Pairwise :
    (seeds : ℕ) (table : List (Text × List Text))
    → DistinctRows table
    → Pairwise (λ e e'. e ≢ e') (experiments seeds table)
unfolding experiments
experiments-Pairwise seeds table (names, rows) =
    Pairwise-for_each (λ r r'. r.0 ≢ r'.0) (λ e e'. e ≢ e') (by_regime seeds)
      (λ r r' apart.
        projected_apart (λ (e : Experiment). e.dataset) r.0 r'.0 (by_regime seeds r)
          (by_regime seeds r') apart (by_regime-dataset seeds r) (by_regime-dataset seeds r'))
      table (All-weaken _ _ (λ row h. by_regime-Pairwise seeds row h) table rows)
      (unmap-Pairwise table (distinct-Pairwise (map (λ row. row.0) table) names))

-- For positive numbers and a known study, the command sends one request, a batch of jobs: as many as the
-- study has regimes of its datasets, times the two models and the seeds; one for every regime of
-- every dataset, MF and SAGE, and every seed, which runs the task of these on the dataset's file; and
-- no two of them have one idempotency key.
pub submit_study-Pairwise :
    (url : Text) (dumps : List Definition → Text) (fresh run_id study : Text)
    (seeds epochs max_rows : ℕ) (table : List (Text × List Text))
    → seeds ≢ 0
    → epochs ≢ 0
    → max_rows ≢ 0
    → find study studies ≡ some table
    → (ds : List Definition) × (submit_study url dumps fresh run_id seeds epochs max_rows study
        ≡ some (request url (batch (dumps ds)) fresh))
      × (length ds ≡ 2 * seeds * regime_count table)
      × AsksAll study seeds epochs max_rows table ds
      × Pairwise (λ d d'. d.idempotency_key ≢ d'.idempotency_key) ds
unfolding submit_study definitions definition
submit_study-Pairwise url dumps fresh run_id study seeds epochs max_rows table s n r e =
    let es = experiments seeds table in
    (
      map (definition run_id epochs max_rows study) es,
      rw (e) (ground arith),
      length-map _ es ∙ length-experiments seeds table,
      definitions-AsksAll run_id study seeds epochs max_rows table,
      Pairwise-map (λ x y. Plain x × Plain y × (x ≢ y)) _ (definition run_id epochs max_rows study)
          (λ x y k same. k.2 (key_apart study run_id run_id x y k.0 k.1 same).1) es
          (Pairwise-All Plain (λ x y. x ≢ y) es
            (experiments-Plain seeds table (studies-Plain study table e))
            (experiments-Pairwise seeds table (studies-DistinctRows study table e))),
    )
