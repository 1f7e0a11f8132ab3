-- ===== src/Benchmarks/Grid.antt =====
-- `main` of benchmarks/run.py: the cases of one call, after its arguments are checked. The number of the
-- case tells the parameters `Bench` of the cases apart.
use mathlib.Core.Path.{subst}
use rungrid.Common.{
  range_from, ℕ, suc, ◌*◌, ◌≤◌, ◌<◌, ◌≡◌, refl, ◌∙◌, Bool, true, false, ◌||◌, inl, inr, Bool-cases,
  Option, none, some, List, [], ◌∷◌, ◌++◌, map, ltb, if◌then◌else◌, Text, All, arith, ◌+◌, zero,
  sym, ap, length, length-map, get_elem?, get_elem?-left, get_elem?-right, get_elem?-inside,
  get_elem?-map, get_elem?-unmap, get_elem?-range_from,
}
use mathlib.Core.Option.{some-injective}
use rungrid.Study.Keys.{length-for_each, length-range_from}
use rungrid.Study.Submit.{for_each}
use rungrid.Benchmarks.Case.{
  Bench, Summary, CaseOutcome, stop_failed, batch_failed, up_failed, bad_run_id, unrecorded,
  bad_value, undescribed, query_failed, case_timed_out, failed_jobs, case_done, Ran, least,
  run_case,
}
use rungrid.Benchmarks.Outcome.{Concludes, run_case-Concludes}

pub data GridRun : Type 0 where
  usage_error restore_failed : GridRun
  -- The first case that raised.
  grid_failed : CaseOutcome → GridRun
  grid_done : List Summary → GridRun

-- The three loops: workload and number of workers of each case.
unfoldable pub cases : ℕ → List Text → List ℕ → List (Text × ℕ)
unfolding range_from for_each
cases repeat workloads workers =
    for_each (λ i. for_each (λ w. map (λ n. (w, n)) workers) workloads) (range_from 0 repeat)

module _ {A B : Type 0} (f : A → List B) (width : ℕ) (wide : (x : A) → length (f x) ≡ width) where
  length-blocks : (xs : List A) → length (for_each f xs) ≡ width * length xs
  length-blocks xs = length-for_each f width wide xs

  -- The blocks of a loop stand one behind the other.
  get_elem?-blocks :
      (xs : List A) (i k : ℕ) (x : A)
      → get_elem? xs i ≡ some x
      → k < width
      → get_elem? (for_each f xs) (width * i + k) ≡ get_elem? (f x) k
  unfolding for_each get_elem?
  get_elem?-blocks [] i k x e h = cc
  get_elem?-blocks (y ∷ xs) zero k x e h =
      let here : width * zero + k ≡ k = omega arith in
      ap (get_elem? (f y ++ for_each f xs)) here
      ∙ (get_elem?-left (f y) (for_each f xs) k (omega (arith, h, wide y))
          ∙ ap (λ z. get_elem? (f z) k) (some-injective y x e))
  get_elem?-blocks (y ∷ xs) (suc i) k x e h =
      let there : width * suc i + k ≡ length (f y) + (width * i + k) = grind (arith, wide y) in
      ap (get_elem? (f y ++ for_each f xs)) there
      ∙ (get_elem?-right (f y) (for_each f xs) (width * i + k) ∙ get_elem?-blocks xs i k x e h)

module _ (workloads : List Text) (workers : List ℕ) where
  abbrev of_workload : Text → List (Text × ℕ)
  of_workload w = map (λ n. (w, n)) workers

  abbrev of_repetition : ℕ → List (Text × ℕ)
  of_repetition i = for_each of_workload workloads

  length-of_workload : (w : Text) → length (of_workload w) ≡ length workers
  length-of_workload w = length-map (λ n. (w, n)) workers

  length-of_repetition : (i : ℕ) → length (of_repetition i) ≡ length workers * length workloads
  length-of_repetition i = length-blocks of_workload (length workers) length-of_workload workloads

  length-cases :
      (repeat : ℕ)
      → length (cases repeat workloads workers) ≡ repeat * (length workers * length workloads)
  unfolding cases
  length-cases repeat =
      let width = length workers * length workloads in
      let commuted : (n : ℕ) → width * n ≡ n * width = λ n. grind arith in
      length-blocks of_repetition width length-of_repetition (range_from 0 repeat)
      ∙ (ap (λ n. width * n) (length-range_from 0 repeat) ∙ commuted repeat)

  get_elem?-cases :
      (repeat i j k : ℕ) (w : Text) (n : ℕ)
      → i < repeat
      → get_elem? workloads j ≡ some w
      → get_elem? workers k ≡ some n
      → get_elem?
          (cases repeat workloads workers)
          (length workers * length workloads * i + (length workers * j + k))
        ≡ some (w, n)
  unfolding cases
  get_elem?-cases repeat i j k w n h e f =
      let inner = get_elem?-inside workers k n f in
      let middle = get_elem?-inside workloads j w e in
      let index : get_elem? (range_from 0 repeat) i ≡ some i =
        get_elem?-range_from 0 repeat i h ∙ ap some (omega arith) in
      let within : length workers * j + k < length workers * length workloads =
        grind (arith, inner, middle) in
      get_elem?-blocks of_repetition (length workers * length workloads) length-of_repetition
        (range_from 0 repeat) i (length workers * j + k) i index within
      ∙ (get_elem?-blocks of_workload (length workers) length-of_workload workloads j k w e inner
          ∙ get_elem?-map (λ m. (w, m)) workers k n f)

abbrev pub put_summary : Summary → Option GridRun → Option GridRun
put_summary s (some (grid_done ss)) = some (grid_done (s ∷ ss))
put_summary s (some usage_error) = some usage_error
put_summary s (some restore_failed) = some restore_failed
put_summary s (some (grid_failed o)) = some (grid_failed o)
put_summary s none = none

abbrev pub outcome_then : CaseOutcome → Option GridRun → Option GridRun
outcome_then (case_done s) rest = put_summary s rest
outcome_then o rest = some (grid_failed o)

abbrev pub case_then : Option Ran → Option GridRun → Option GridRun
case_then none rest = none
case_then (some r) rest = outcome_then r.outcome rest

-- `min(args.workers)`, of one argument or more.
abbrev pub fewest : List ℕ → ℕ
fewest [] = 0
fewest (n ∷ ns) = least n ns

-- The `finally` block: whether `compose("up", ...)` returns.
abbrev pub restart_workers : Bool → Option GridRun → Option GridRun
restart_workers false run = some restore_failed
restart_workers true run = run

module _ (bench : ℕ → Bench) (jobs timeout : ℕ) where
  unfoldable pub run_cases : ℕ → List (Text × ℕ) → Option GridRun
  unfolding run_case
  run_cases k [] = some (grid_done [])
  run_cases k (c ∷ cs) =
      case_then (run_case (bench k) c.0 jobs c.1 (1000 * timeout)) (run_cases (suc k) cs)

  unfoldable pub main : ℕ → List Text → List ℕ → Bool → Option GridRun
  unfolding run_cases cases
  main repeat workloads workers restored =
      if ltb jobs 1 || (ltb 100000 jobs || ltb (fewest workers) 1)
      then some usage_error
      else restart_workers restored (run_cases 0 (cases repeat workloads workers))

  -- A summary for each of the cases, in which all jobs have succeeded.
  abbrev pub Covers : List (Text × ℕ) → List Summary → Type 0
  Covers cs ss =
      (map (λ s. (s.workload, s.workers)) ss ≡ cs)
      × All (λ s. (s.jobs ≡ jobs) × (s.succeeded ≡ jobs)) ss

  abbrev pub Ends : List (Text × ℕ) → GridRun → Type 0
  Ends cs (grid_done ss) = Covers cs ss
  Ends cs _ = Unit

  failed-Ends :
      (cs : List (Text × ℕ)) (o : CaseOutcome)
      → (g : GridRun) × (some (grid_failed o) ≡ some g) × Ends cs g
  failed-Ends cs o = (grid_failed o, refl, tt)

  put_summary-Ends :
      (c : Text × ℕ) (cs : List (Text × ℕ)) (s : Summary) (g : GridRun)
      → (s.workload ≡ c.0) × (s.workers ≡ c.1) × (s.jobs ≡ jobs) × (s.succeeded ≡ jobs)
      → Ends cs g
      → (g' : GridRun) × (put_summary s (some g) ≡ some g') × Ends (c ∷ cs) g'
  put_summary-Ends c cs s (grid_done ss) (w, n, j, all) (same, h) =
      (grid_done (s ∷ ss), refl, ((λ i. (w i, n i) ∷ same i), ((j, all), h)))
  put_summary-Ends c cs s usage_error k e = (usage_error, refl, tt)
  put_summary-Ends c cs s restore_failed k e = (restore_failed, refl, tt)
  put_summary-Ends c cs s (grid_failed o) k e = (grid_failed o, refl, tt)

  case_then-Ends :
      (k : ℕ) (c : Text × ℕ) (cs : List (Text × ℕ)) (r : Ran) (g : GridRun)
      → Concludes (bench k) c.0 jobs c.1 (1000 * timeout) r.sent r.outcome
      → Ends cs g
      → (g' : GridRun) × (outcome_then r.outcome (some g) ≡ some g') × Ends (c ∷ cs) g'
  case_then-Ends k c cs r g h e = ended r.outcome h
    where
      ended :
          (o : CaseOutcome)
          → Concludes (bench k) c.0 jobs c.1 (1000 * timeout) r.sent o
          → (g' : GridRun) × (outcome_then o (some g) ≡ some g') × Ends (c ∷ cs) g'
      ended (case_done s) (sent, (n, j, w, m, all, attempts, rest)) =
          put_summary-Ends c cs s g (w, m, j, all) e
      ended stop_failed q = failed-Ends (c ∷ cs) stop_failed
      ended batch_failed q = failed-Ends (c ∷ cs) batch_failed
      ended up_failed q = failed-Ends (c ∷ cs) up_failed
      ended bad_run_id q = failed-Ends (c ∷ cs) bad_run_id
      ended bad_value q = failed-Ends (c ∷ cs) bad_value
      ended unrecorded q = failed-Ends (c ∷ cs) unrecorded
      ended undescribed q = failed-Ends (c ∷ cs) undescribed
      ended (query_failed n) q = failed-Ends (c ∷ cs) (query_failed n)
      ended (case_timed_out t) q = failed-Ends (c ∷ cs) (case_timed_out t)
      ended (failed_jobs s) q = failed-Ends (c ∷ cs) (failed_jobs s)

  run_cases-Ends :
      (k : ℕ) (cs : List (Text × ℕ)) → (g : GridRun) × (run_cases k cs ≡ some g) × Ends cs g
  unfolding run_cases
  run_cases-Ends k [] = (grid_done [], refl, (refl, tt))
  run_cases-Ends k (c ∷ cs) =
      let (g, e, h) = run_cases-Ends (suc k) cs in
      let (r, f, q) = run_case-Concludes (bench k) c.0 jobs c.1 (1000 * timeout) in
      let (g', same, all) = case_then-Ends k c cs r g q h in
      (g', (λ i. case_then (f i) (e i)) ∙ same, all)

  -- Each repetition has its summaries, by workload and by number of workers, and there are no others.
  abbrev pub Fills : ℕ → List Text → List ℕ → List Summary → Type 0
  Fills repeat workloads workers ss =
      (length ss ≡ repeat * (length workers * length workloads))
      × ((i j k : ℕ) (w : Text) (n : ℕ)
          → i < repeat
          → get_elem? workloads j ≡ some w
          → get_elem? workers k ≡ some n
          → (s : Summary) × (get_elem? ss
                (length workers * length workloads * i + (length workers * j + k))
              ≡ some s)
            × (s.workload ≡ w)
            × (s.workers ≡ n)
            × (s.jobs ≡ jobs)
            × (s.succeeded ≡ jobs))

  Covers-Fills :
      (repeat : ℕ) (workloads : List Text) (workers : List ℕ) (ss : List Summary)
      → Covers (cases repeat workloads workers) ss
      → Fills repeat workloads workers ss
  Covers-Fills repeat workloads workers ss (same, all) = (
    sym (length-map (λ s. (s.workload, s.workers)) ss)
        ∙ (ap length same ∙ length-cases workloads workers repeat),
    λ i j k w n h e f.
        let index = length workers * length workloads * i + (length workers * j + k) in
        let (s, at, is, all_won) =
          get_elem?-unmap (λ s. (s.workload, s.workers)) _ ss index (w, n) all
            (ap (λ cs. get_elem? cs index) same
              ∙ get_elem?-cases workloads workers repeat i j k w n h e f) in
        (s, at, ap (λ x. x.0) is, ap (λ x. x.1) is, all_won.0, all_won.1),
  )

  -- The benchmark always ends. When it returns, there were 1 to 100000 jobs a case and a worker or more,
  -- and there is one summary for every repetition, workload and number of workers, in this order: it is
  -- of this workload and this number of workers, and all its jobs have succeeded.
  pub main-Covers :
      (repeat : ℕ) (workloads : List Text) (workers : List ℕ) (restored : Bool)
      → (g : GridRun) × (main repeat workloads workers restored ≡ some g)
        × ((ss : List Summary)
            → g ≡ grid_done ss
            → (0 < jobs)
              × (jobs ≤ 100000)
              × (0 < fewest workers)
              × Fills repeat workloads workers ss)
  unfolding main
  main-Covers repeat workloads workers restored =
      elim (Bool-cases (ltb jobs 1 || (ltb 100000 jobs || ltb (fewest workers) 1))) [
        | inl refused ↦ (usage_error, rw (refused) refl, λ ss e. cc)
        | inr fine ↦ elim (Bool-cases restored) [
          | inl up ↦
              let (g, e, h) = run_cases-Ends 0 (cases repeat workloads workers) in
              (
                g,
                rw (fine, up) e,
                λ ss same. (
                  ground (arith, fine),
                  ground (arith, fine),
                  ground (arith, fine),
                  Covers-Fills repeat workloads workers ss
                      (subst (Ends (cases repeat workloads workers)) same h),
                ),
              )
          | inr down ↦ (restore_failed, rw (fine, down) refl, λ ss e. cc)
        ]
      ]
