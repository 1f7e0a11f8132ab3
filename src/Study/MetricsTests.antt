-- ===== src/Study/MetricsTests.antt =====
-- `_roc_auc` and `_average_precision` with insertion sorts of the indices for torch's `argsort`.
use mathlib.Core.List.{Perm}
use mathlib.Core.List.Perm
use rungrid.Common.{
  ℕ, ◌≤◌, ◌≡◌, refl, inl, inr, Bool, true, false, Bool-cases, List, [], ◌∷◌, map, length,
  range_from, leb, if◌then◌else◌, at, Ascending, All, All-weaken, arith,
}
use rungrid.Study.Metrics.{
  IsArgsort, quotient, scores_at, roc_auc, Descending, IsArgsortDown, average, average_precision,
}
use rungrid.Study.Counts.{wins, below, not_above}
use rungrid.Study.Sums.{SameSums}
use rungrid.Study.Quotients.{at_least}
use rungrid.Study.Precision.{occurrences, average_precision-Counts}
use rungrid.Study.Auc.{roc_auc-Wins}

-- Sorting by a test of two values.
module _ (test : ℕ → ℕ → Bool) where
  unfoldable pub put_index : (ℕ → ℕ) → ℕ → List ℕ → List ℕ
  put_index f i [] = i ∷ []
  put_index f i (j ∷ js) =
      let rest = put_index f i js in if test (f i) (f j) then i ∷ j ∷ js else j ∷ rest

  unfoldable pub sort_by : (ℕ → ℕ) → List ℕ → List ℕ
  unfolding put_index
  sort_by f [] = []
  sort_by f (i ∷ is) = put_index f i (sort_by f is)

  abbrev pub sorter : List ℕ → List ℕ
  sorter xs = sort_by (at xs) (range_from 0 (length xs))

  put_index-perm : (f : ℕ → ℕ) (i : ℕ) (js : List ℕ) → Perm (put_index f i js) (i ∷ js)
  unfolding put_index
  put_index-perm f i [] = Perm.rfl
  put_index-perm f i (j ∷ js) = elim (Bool-cases (test (f i) (f j))) [
    | inl first ↦ rw (first) Perm.rfl
    | inr later ↦ rw (later) (Perm.trans (Perm.cons j (put_index-perm f i js)) (Perm.swap i j js))
  ]

  sort_by-perm : (f : ℕ → ℕ) (is : List ℕ) → Perm (sort_by f is) is
  unfolding sort_by
  sort_by-perm f [] = Perm.rfl
  sort_by-perm f (i ∷ is) =
      Perm.trans (put_index-perm f i (sort_by f is)) (Perm.cons i (sort_by-perm f is))

  put_index-All :
      (P : ℕ → Type 0) (f : ℕ → ℕ) (i : ℕ) (js : List ℕ)
      → P (f i)
      → All P (map f js)
      → All P (map f (put_index f i js))
  unfolding put_index
  put_index-All P f i [] p h = (p, tt)
  put_index-All P f i (j ∷ js) p h = elim (Bool-cases (test (f i) (f j))) [
    | inl first ↦ rw (first) (p, h)
    | inr later ↦ rw (later) (h.0, put_index-All P f i js p h.1)
  ]

put_index-Ascending :
    (f : ℕ → ℕ) (i : ℕ) (js : List ℕ)
    → Ascending (map f js)
    → Ascending (map f (put_index leb f i js))
unfolding put_index
put_index-Ascending f i [] h = (tt, tt)
put_index-Ascending f i (j ∷ js) h = elim (Bool-cases (leb (f i) (f j))) [
  | inl le ↦
      let low : f i ≤ f j = ground (arith, le) in
      rw (le) ((low, All-weaken _ _ (λ x le_x. omega (arith, low, le_x)) (map f js) h.0), h)
  | inr gt ↦
      let high : f j ≤ f i = ground (arith, gt) in
      rw (gt) (put_index-All leb (λ x. f j ≤ x) f i js high h.0, put_index-Ascending f i js h.1)
]

sort_by-Ascending : (f : ℕ → ℕ) (is : List ℕ) → Ascending (map f (sort_by leb f is))
unfolding sort_by
sort_by-Ascending f [] = tt
sort_by-Ascending f (i ∷ is) = put_index-Ascending f i (sort_by leb f is) (sort_by-Ascending f is)

sorter-IsArgsort : IsArgsort (sorter leb)
sorter-IsArgsort = record {
  perm = λ xs. sort_by-perm leb (at xs) (range_from 0 (length xs));
  ascending = λ xs. sort_by-Ascending (at xs) (range_from 0 (length xs));
}

abbrev pub geb : ℕ → ℕ → Bool
geb a b = leb b a

put_index-Descending :
    (f : ℕ → ℕ) (i : ℕ) (js : List ℕ)
    → Descending (map f js)
    → Descending (map f (put_index geb f i js))
unfolding put_index
put_index-Descending f i [] h = (tt, tt)
put_index-Descending f i (j ∷ js) h = elim (Bool-cases (leb (f j) (f i))) [
  | inl le ↦
      let high : f j ≤ f i = ground (arith, le) in
      rw (le) ((high, All-weaken _ _ (λ x le_x. omega (arith, high, le_x)) (map f js) h.0), h)
  | inr gt ↦
      let low : f i ≤ f j = ground (arith, gt) in
      rw (gt) (put_index-All geb (λ x. x ≤ f j) f i js low h.0, put_index-Descending f i js h.1)
]

sort_by-Descending : (f : ℕ → ℕ) (is : List ℕ) → Descending (map f (sort_by geb f is))
unfolding sort_by
sort_by-Descending f [] = tt
sort_by-Descending f (i ∷ is) =
    put_index-Descending f i (sort_by geb f is) (sort_by-Descending f is)

sorter-IsArgsortDown : IsArgsortDown (sorter geb)
sorter-IsArgsortDown = record {
  perm = λ xs. sort_by-perm geb (at xs) (range_from 0 (length xs));
  descending = λ xs. sort_by-Descending (at xs) (range_from 0 (length xs));
}

abbrev scores : List ℕ
scores = 5 ∷ 2 ∷ 7 ∷ 1 ∷ 2 ∷ []

abbrev labels : List Bool
labels = true ∷ false ∷ true ∷ false ∷ true ∷ []

roc_auc_runs : roc_auc (sorter leb) scores labels ≡ quotient 5 6
unfolding roc_auc sort_by range_from at
roc_auc_runs = refl

roc_auc-Wins_example :
    (w : ℕ) × (roc_auc (sorter leb) scores labels ≡ quotient w 6)
    × (wins below (5 ∷ 7 ∷ 2 ∷ []) (2 ∷ 1 ∷ []) ≤ w)
    × (w ≤ wins not_above (5 ∷ 7 ∷ 2 ∷ []) (2 ∷ 1 ∷ []))
unfolding scores_at
roc_auc-Wins_example =
    roc_auc-Wins (sorter leb) sorter-IsArgsort scores labels (5 ∷ 7 ∷ 2 ∷ []) (2 ∷ 1 ∷ []) refl refl
      (λ e. cc) (λ e. cc)

abbrev apart : List ℕ
apart = 5 ∷ 3 ∷ 7 ∷ 1 ∷ 2 ∷ []

average_precision_runs :
    average_precision (sorter geb) apart labels ≡ average ((1, 1) ∷ (2, 2) ∷ (3, 4) ∷ []) 3
unfolding average_precision sort_by range_from at
average_precision_runs = refl

apart_once : (x : ℕ) → occurrences x apart ≤ 1
apart_once x = ground arith

average_precision-Counts_example :
    (qs : List (ℕ × ℕ)) × (average_precision (sorter geb) apart labels ≡ average qs 3)
    × SameSums qs (map (λ p. (at_least p (5 ∷ 7 ∷ 2 ∷ []), at_least p apart)) (5 ∷ 7 ∷ 2 ∷ []))
unfolding scores_at
average_precision-Counts_example =
    average_precision-Counts (sorter geb) sorter-IsArgsortDown apart labels (5 ∷ 7 ∷ 2 ∷ []) refl
      (λ e. cc) apart_once
