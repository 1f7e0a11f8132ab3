-- ===== src/Sdk/Counter.antt =====
-- examples/checkpoint_counter.py: twenty steps, each with a checkpoint, from the last one that the
-- worker restores.
use rungrid.Common.{
  ℕ, zero, suc, ◌+◌, ◌-◌, ◌≤◌, ◌≡◌, refl, ap, ◌∙◌, Option, none, some, List, [], ◌∷◌, ◌++◌,
  range_from, arith,
}

abbrev pub last_step : ℕ
last_step = 20

-- `json.loads(path.read_text()) if path else {"step": 0}`
abbrev pub first_step : Option ℕ → ℕ
first_step none = 0
first_step (some step) = step

-- `for step in range(state["step"], 20)`: the first number counts the steps that are left, and the
-- list holds the steps of the checkpoints.
unfoldable pub count_from : ℕ → ℕ → List ℕ
count_from zero step = []
count_from (suc n) step = suc step ∷ count_from n (suc step)

unfoldable pub count_steps : Option ℕ → List ℕ
unfolding count_from
count_steps restored = count_from (last_step - first_step restored) (first_step restored)

-- The steps that the result reports.
abbrev pub completed_steps : ℕ
completed_steps = last_step

count_from-range : (n step : ℕ) → count_from n step ≡ range_from (suc step) n
unfolding count_from range_from
count_from-range zero step = refl
count_from-range (suc n) step = ap (λ l. suc step ∷ l) (count_from-range n (suc step))

count_from-append :
    (m n step : ℕ) → count_from (m + n) step ≡ count_from m step ++ count_from n (step + m)
unfolding count_from
count_from-append zero n step =
    let left : zero + n ≡ n = omega arith in
    let here : step + zero ≡ step = omega arith in rw (left, here) refl
count_from-append (suc m) n step =
    let left : suc m + n ≡ suc (m + n) = omega arith in
    let here : step + suc m ≡ suc step + m = omega arith in
    rw (left, here) (ap (λ l. suc step ∷ l) (count_from-append m n (suc step)))

-- A counter that is killed and restored from its checkpoint of any step makes exactly the checkpoints
-- that are missing: together they are those of one whole run, each of the twenty steps once.
pub count_steps_resume :
    (step : ℕ)
    → step ≤ 20
    → (count_steps none ≡ count_from step 0 ++ count_steps (some step))
      × (count_steps none ≡ range_from 1 20)
unfolding count_steps
count_steps_resume step h =
    let whole : 20 ≡ step + (20 - step) = omega arith in
    let from : 0 + step ≡ step = omega arith in
    (
      ap (λ n. count_from n 0) whole
          ∙ (count_from-append step (20 - step) 0
              ∙ ap (λ s. count_from step 0 ++ count_from (20 - step) s) from),
      count_from-range 20 0,
    )
