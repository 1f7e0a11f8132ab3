-- ===== src/Study/Labels.antt =====
-- The labels and scores at the indices of an order, for `_average_precision` of
-- examples/heterosplit/research.py.
use rungrid.Common.{
  get_elem?, ℕ, zero, suc, ◌+◌, ◌≤◌, ◌<◌, ◌≡◌, refl, ap, Bool, true, false, inl, inr, Option-cases,
  Option, none, some, List, [], ◌∷◌, map, length, range_from, leb, if◌then◌else◌, at, All, arith,
}
use rungrid.Study.Sums.{sum_of, map-range}
use rungrid.Study.Metrics.{labels_in, scores_at}

unfoldable pub label_at : List Bool → ℕ → Bool
label_at [] i = false
label_at (l ∷ ls) zero = l
label_at (l ∷ ls) (suc i) = label_at ls i

abbrev pub entry : List Bool → List ℕ → ℕ → Bool × ℕ
entry labels scores i = (label_at labels i, at scores i)

get_elem?-label :
    (labels : List Bool) (i : ℕ) → i < length labels → get_elem? labels i ≡ some (label_at labels i)
unfolding get_elem? label_at
get_elem?-label [] i h = absurd (omega arith)
get_elem?-label (l ∷ ls) zero h = refl
get_elem?-label (l ∷ ls) (suc i) h = get_elem?-label ls i (omega arith)

pub labels_in-map :
    (labels : List Bool) (order : List ℕ)
    → All (λ i. i < length labels) order
    → labels_in labels order ≡ some (map (label_at labels) order)
unfolding labels_in
labels_in-map labels [] h = refl
labels_in-map labels (i ∷ order) h =
    rw (get_elem?-label labels i h.0, labels_in-map labels order h.1) refl

pub map-entry :
    (labels : List Bool) (scores a : List ℕ)
    → map (λ e. e.0) (map (entry labels scores) a) ≡ map (label_at labels) a
map-entry labels scores [] = refl
map-entry labels scores (i ∷ a) = ap (λ l. label_at labels i ∷ l) (map-entry labels scores a)

pub zero_sum-All : (f : ℕ → ℕ) (xs : List ℕ) → sum_of f xs ≡ 0 → All (λ x. f x ≡ 0) xs
zero_sum-All f [] h = tt
zero_sum-All f (x ∷ xs) h = (omega (arith, h), zero_sum-All f xs (omega (arith, h)))

pub range_below :
    (s n m : ℕ) → s + n ≤ m → All (λ k. ◌≡◌ {A = ℕ} (if leb m k then 1 else 0) 0) (range_from s n)
unfolding range_from
range_below s zero m h = tt
range_below s (suc n) m h = (ground (arith, h), range_below (suc s) n m (omega (arith, h)))

pub scores_at-length :
    (scores : List ℕ) (labels : List Bool) (pos : List ℕ)
    → scores_at true scores labels ≡ some pos
    → length labels ≡ length scores
unfolding scores_at
scores_at-length [] [] pos h = refl
scores_at-length [] (l ∷ ls) pos h = cc
scores_at-length (x ∷ xs) [] pos h = cc
scores_at-length (x ∷ xs) (false ∷ ls) pos h = omega (arith, scores_at-length xs ls pos h)
scores_at-length (x ∷ xs) (true ∷ ls) pos h = elim (Option-cases (scores_at true xs ls)) [
  | inl e ↦ let bad : ◌≡◌ {A = Option (List ℕ)} none (some pos) = rw (e) at h in cc
  | inr (ps, e) ↦ omega (arith, scores_at-length xs ls ps e)
]

-- The positives' scores have the sums of the entries with a true label.
pub scores_at-sums :
    (scores : List ℕ) (labels : List Bool) (pos : List ℕ)
    → scores_at true scores labels ≡ some pos
    → (f : ℕ → ℕ)
    → sum_of
        (λ e. if e.0 then f e.1 else 0)
        (map (entry labels scores) (range_from 0 (length scores)))
      ≡ sum_of f pos
unfolding scores_at range_from at label_at
scores_at-sums [] [] pos h f = let none_left : [] ≡ pos = cc in ap (sum_of f) none_left
scores_at-sums [] (l ∷ ls) pos h f = cc
scores_at-sums (x ∷ xs) [] pos h f = cc
scores_at-sums (x ∷ xs) (false ∷ ls) pos h f =
    let later =
      ap (sum_of (λ e. if e.0 then f e.1 else 0))
        (map-range (entry (false ∷ ls) (x ∷ xs)) (length xs)) in
    omega (arith, later, scores_at-sums xs ls pos h f)
scores_at-sums (x ∷ xs) (true ∷ ls) pos h f =
    let later =
      ap (sum_of (λ e. if e.0 then f e.1 else 0))
        (map-range (entry (true ∷ ls) (x ∷ xs)) (length xs)) in
    elim (Option-cases (scores_at true xs ls)) [
      | inl e ↦ let bad : ◌≡◌ {A = Option (List ℕ)} none (some pos) = rw (e) at h in cc
      | inr (ps, e) ↦
          let all : some (x ∷ ps) ≡ some pos = rw (e) at h in
          let same : x ∷ ps ≡ pos = cc in
          let sums = ap (sum_of f) same in omega (arith, later, scores_at-sums xs ls ps e f, sums)
    ]
