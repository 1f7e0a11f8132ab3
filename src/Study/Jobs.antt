-- ===== src/Study/Jobs.antt =====
-- `definitions` of examples/heterosplit/submit.py: the jobs that a study submits.
use mathlib.Core.Path.{subst}
use rungrid.Common.{
  length-map, ℕ, ◌*◌, ◌≡◌, ◌≢◌, refl, sym, ap, ◌∙◌, inl, inr, Option, none, some, List, map, length,
  Text, All, arith, ◌==◌, Bool-cases, min,
}
use rungrid.Study.Protocols.{find, studies}
use rungrid.Study.Plans.{find-All}
use rungrid.Study.Submit.{
  Experiment, Definition, experiments, name_of, definition, definitions_of, definitions,
}
use rungrid.Study.Keys.{
  Plain, PlainRow, key_apart, experiments-Plain, regime_count, length-experiments, All-zip,
}

pub studies-Plain :
    (study : Text) (table : List (Text × List Text))
    → find study studies ≡ some table
    → All PlainRow table
studies-Plain study table e = find-All (λ s t. All PlainRow t) study table studies (omega arith) e

-- For positive numbers and a known study, there is a job for each of the regimes of each dataset,
-- the two models and the seeds.
pub definitions_count :
    (run_id study : Text) (seeds epochs max_rows : ℕ) (table : List (Text × List Text))
    → seeds ≢ 0
    → epochs ≢ 0
    → max_rows ≢ 0
    → find study studies ≡ some table
    → (ds : List Definition) × (definitions run_id seeds epochs max_rows study ≡ some ds)
      × (length ds ≡ 2 * seeds * regime_count table)
unfolding definitions
definitions_count run_id study seeds epochs max_rows table s n r e = (
  map (definition run_id epochs max_rows study) (experiments seeds table),
  rw (e) (ground arith),
  length-map _ (experiments seeds table) ∙ length-experiments seeds table,
)

definitions_are :
    (run_id study : Text) (seeds epochs max_rows : ℕ) (ds : List Definition)
    → definitions run_id seeds epochs max_rows study ≡ some ds
    → (es : List Experiment) × All Plain es
      × (ds ≡ map (definition run_id epochs max_rows study) es)
unfolding definitions
definitions_are run_id study seeds epochs max_rows ds e =
    elim (Bool-cases (min (min seeds epochs) max_rows == 0)) [
      | inl bad ↦ let wrong : none ≡ some ds = rw (bad) at e in cc
      | inr good ↦ found (find study studies) refl (rw (good) at e)
    ]
  where
    found :
        (t : Option (List (Text × List Text)))
        → find study studies ≡ t
        → definitions_of run_id seeds epochs max_rows study t ≡ some ds
        → (es : List Experiment) × All Plain es
          × (ds ≡ map (definition run_id epochs max_rows study) es)
    found none q f = cc
    found (some table) q f =
        (experiments seeds table, experiments-Plain seeds table (studies-Plain study table q), cc)

-- Two jobs of one study, of one run or of two, have one idempotency key only if they are of the same
-- run and have the same name.
pub definitions_apart :
    (run_id run_id' study : Text) (seeds seeds' epochs epochs' max_rows max_rows' : ℕ)
    (ds ds' : List Definition)
    → definitions run_id seeds epochs max_rows study ≡ some ds
    → definitions run_id' seeds' epochs' max_rows' study ≡ some ds'
    → All
        (λ d.
          All
            (λ d'. d.idempotency_key ≡ d'.idempotency_key → (run_id ≡ run_id') × (d.name ≡ d'.name))
            ds')
        ds
unfolding definition
definitions_apart run_id run_id' study seeds seeds' epochs epochs' max_rows max_rows' ds ds' e e' =
    let (es, plain, are) = definitions_are run_id study seeds epochs max_rows ds e in
    let (es', plain', are') = definitions_are run_id' study seeds' epochs' max_rows' ds' e' in
    let apart : Definition → Definition → Type 0 =
      λ d d'. d.idempotency_key ≡ d'.idempotency_key → (run_id ≡ run_id') × (d.name ≡ d'.name) in
    subst (λ l. All (λ d. All (apart d) ds') l) (sym are)
      (subst (λ l. All (λ d. All (apart d) l) (map (definition run_id epochs max_rows study) es))
        (sym are')
        (All-zip (λ d. All (apart d) (map (definition run_id' epochs' max_rows' study) es'))
          (definition run_id epochs max_rows study) Plain
          (λ x p.
            All-zip (apart (definition run_id epochs max_rows study x))
              (definition run_id' epochs' max_rows' study) Plain
              (λ y q same.
                let both = key_apart study run_id run_id' x y p q same in
                (both.0, ap name_of both.1))
              es' plain')
          es plain))
