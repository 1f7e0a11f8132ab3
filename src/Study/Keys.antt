-- ===== src/Study/Keys.antt =====
-- `definitions` of examples/heterosplit/submit.py: how many jobs there are, and what tells them
-- apart.
use rungrid.Common.{
  length-map, append_cancel, range_from, ℕ, zero, suc, ◌+◌, ◌*◌, ◌≡◌, refl, sym, ◌∙◌, List, [], ◌∷◌,
  ◌++◌, map, append_assoc, length, length-append, Text, codes, str, str-injective, Lacks, Lacks-str,
  cut_last, All, All-append, arith,
}
use rungrid.Study.Submit.{
  Experiment, for_each, models, by_seed, by_model, by_regime, experiments, name_of, key_of,
}

abbrev dash : ℕ
dash = b'-'

-- The seed is a numeral.
abbrev pub Plain : Experiment → Type 0
Plain e = Lacks dash e.dataset × Lacks dash e.regime × Lacks dash e.model

key_parts :
    (study run_id : Text) (e : Experiment)
    → key_of study run_id e
      ≡ (((((codes "heterosplit-" ++ (study ++ codes "-")) ++ run_id) ++ dash ∷ e.dataset)
            ++ dash ∷ e.regime)
          ++ dash ∷ e.model)
        ++ dash ∷ str e.seed
unfolding key_of name_of
key_parts study run_id e = simp append_assoc

pub key_apart :
    (study run_id run_id' : Text) (e e' : Experiment)
    → Plain e
    → Plain e'
    → key_of study run_id e ≡ key_of study run_id' e'
    → (run_id ≡ run_id') × (e ≡ e')
key_apart study run_id run_id' e e' h h' q =
    let all = sym (key_parts study run_id e) ∙ (q ∙ key_parts study run_id' e') in
    let seeds =
      cut_last dash _ _ _ _ (Lacks-str dash e.seed (omega arith))
        (Lacks-str dash e'.seed (omega arith)) all in
    let ms = cut_last dash _ _ _ _ h.2 h'.2 seeds.0 in
    let rs = cut_last dash _ _ _ _ h.1 h'.1 ms.0 in
    let ds = cut_last dash _ _ _ _ h.0 h'.0 rs.0 in
    let number = str-injective e.seed e'.seed seeds.1 in
    let dataset : e.dataset ≡ e'.dataset = ds.1 in
    let regime : e.regime ≡ e'.regime = rs.1 in
    let model : e.model ≡ e'.model = ms.1 in
    (
      append_cancel (codes "heterosplit-" ++ (study ++ codes "-")) run_id run_id' ds.0,
      λ i. record { dataset = dataset i; regime = regime i; model = model i; seed = number i },
    )

pub All-for_each {ℓ κ} :
    {A : Type ℓ} {B : Type ℓ} (P : A → Type κ) (Q : B → Type κ) (f : A → List B)
    → ((x : A) → P x → All Q (f x))
    → (xs : List A) → All P xs
    → All Q (for_each f xs)
unfolding for_each
All-for_each P Q f step [] h = tt
All-for_each P Q f step (x ∷ xs) h =
    All-append Q (f x) (for_each f xs) (step x h.0) (All-for_each P Q f step xs h.1)

pub All-map {ℓ κ} :
    {A : Type ℓ} {B : Type ℓ} (Q : B → Type κ) (f : A → B)
    → ((x : A) → Q (f x))
    → (xs : List A) → All Q (map f xs)
All-map Q f h [] = tt
All-map Q f h (x ∷ xs) = (h x, All-map Q f h xs)

abbrev pub PlainRow : Text × List Text → Type 0
PlainRow row = Lacks dash row.0 × All (Lacks dash) row.1

pub experiments-Plain :
    (seeds : ℕ) (table : List (Text × List Text))
    → All PlainRow table
    → All Plain (experiments seeds table)
unfolding experiments
experiments-Plain seeds = All-for_each PlainRow Plain (by_regime seeds) (λ row h.
    All-for_each (Lacks dash) Plain (by_model seeds row.0)
      (λ regime k.
        All-for_each (Lacks dash) Plain (by_seed seeds row.0 regime)
          (λ model m. All-map Plain _ (λ seed. (h.0, k, m)) (range_from 0 seeds)) models
          (omega arith))
      row.1 h.1)

pub All-zip {ℓ κ} :
    {A : Type ℓ} {B : Type ℓ} (P : B → Type κ) (f : A → B) (Q : A → Type κ)
    → ((x : A) → Q x → P (f x))
    → (xs : List A) → All Q xs
    → All P (map f xs)
All-zip P f Q h [] a = tt
All-zip P f Q h (x ∷ xs) a = (h x a.0, All-zip P f Q h xs a.1)

-- The number of regimes that a table has.
abbrev pub regime_count : List (Text × List Text) → ℕ
regime_count [] = 0
regime_count (row ∷ rows) = length row.1 + regime_count rows

pub length-range_from : (i n : ℕ) → length (range_from i n) ≡ n
unfolding range_from
length-range_from i zero = refl
length-range_from i (suc n) = omega (arith, length-range_from (suc i) n)

pub length-for_each {ℓ κ} :
    {A : Type ℓ} {B : Type κ} (f : A → List B) (k : ℕ)
    → ((x : A) → length (f x) ≡ k)
    → (xs : List A) → length (for_each f xs) ≡ k * length xs
unfolding for_each
length-for_each f k h [] = omega arith
length-for_each f k h (x ∷ xs) =
    grind (arith, length-append (f x) (for_each f xs), h x, length-for_each f k h xs)

length-by_model :
    (seeds : ℕ) (dataset regime : Text) → length (by_model seeds dataset regime) ≡ 2 * seeds
length-by_model seeds dataset regime = omega (
  arith,
  length-for_each (by_seed seeds dataset regime) seeds
      (λ model. length-map _ (range_from 0 seeds) ∙ length-range_from 0 seeds) models,
)

pub length-experiments :
    (seeds : ℕ) (table : List (Text × List Text))
    → length (experiments seeds table) ≡ 2 * seeds * regime_count table
unfolding experiments
length-experiments seeds [] = omega arith
length-experiments seeds (row ∷ rows) = grind (
  arith,
  length-append (by_regime seeds row) (experiments seeds rows),
  length-for_each (by_model seeds row.0) (2 * seeds) (length-by_model seeds row.0) row.1,
  length-experiments seeds rows,
)
