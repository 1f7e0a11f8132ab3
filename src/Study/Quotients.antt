-- ===== src/Study/Quotients.antt =====
-- The quotients of `_average_precision` of examples/heterosplit/research.py in a ranking whose scores fall.
use rungrid.Common.{
  ℕ, suc, ◌+◌, ◌<◌, ◌≡◌, refl, ◌∙◌, true, false, List, [], ◌∷◌, map, leb, if◌then◌else◌, All,
  All-weaken, arith,
}
use rungrid.Study.Sums.{sum_of}
use rungrid.Study.Counts.{Ranking}
use rungrid.Study.Metrics.{precisions}

-- How many values are not below one.
abbrev pub at_least : ℕ → List ℕ → ℕ
at_least p = sum_of (λ x. if leb p x then 1 else 0)

-- The same among the scores, and among the positives' scores, of a ranking.
abbrev pub all_from : ℕ → Ranking → ℕ
all_from p = sum_of (λ e. if leb p e.1 then 1 else 0)

abbrev pub positives_from : ℕ → Ranking → ℕ
positives_from p = sum_of (λ e. if e.0 then (if leb p e.1 then 1 else 0) else 0)

unfoldable pub positive_scores : Ranking → List ℕ
positive_scores [] = []
positive_scores ((true, x) ∷ r) = x ∷ positive_scores r
positive_scores ((false, x) ∷ r) = positive_scores r

abbrev pub Falls : Ranking → Type 0
Falls [] = Unit
Falls (e ∷ r) = All (λ d. d.1 < e.1) r × Falls r

map_ext-All {ℓ} :
    {B : Type ℓ} (f g : ℕ → B) (xs : List ℕ) → All (λ x. f x ≡ g x) xs → map f xs ≡ map g xs
map_ext-All f g [] h = refl
map_ext-All f g (x ∷ xs) h = λ i. h.0 i ∷ map_ext-All f g xs h.1 i

positive_scores-All :
    (P : ℕ → Type 0) (r : Ranking) → All (λ d. P d.1) r → All P (positive_scores r)
unfolding positive_scores
positive_scores-All P [] h = tt
positive_scores-All P ((true, x) ∷ r) h = (h.0, positive_scores-All P r h.1)
positive_scores-All P ((false, x) ∷ r) h = positive_scores-All P r h.1

none_from : (x : ℕ) (r : Ranking) → All (λ d. d.1 < x) r → all_from x r ≡ 0
none_from x [] h = refl
none_from x (d ∷ r) h = let lt = h.0 in ground (arith, none_from x r h.1, lt)

no_positive_from : (x : ℕ) (r : Ranking) → All (λ d. d.1 < x) r → positives_from x r ≡ 0
no_positive_from x [] h = refl
no_positive_from x ((true, y) ∷ r) h = let lt = h.0 in ground (arith, no_positive_from x r h.1, lt)
no_positive_from x ((false, y) ∷ r) h = omega (arith, no_positive_from x r h.1)

-- The quotients of a ranking whose scores fall, behind `tp` positives among `i` entries.
abbrev pub counted : ℕ → ℕ → Ranking → ℕ → ℕ × ℕ
counted tp i r p = (tp + positives_from p r, i + all_from p r)

counted-true :
    (tp i x : ℕ) (r : Ranking) (p : ℕ)
    → p < x
    → counted (suc tp) (suc i) r p ≡ counted tp i ((true, x) ∷ r) p
counted-true tp i x r p lt =
    let le : leb p x ≡ true = ground (arith, lt) in
    let more_tp : suc tp + positives_from p r ≡ tp + positives_from p ((true, x) ∷ r) =
      rw (le) (omega arith) in
    let more_i : suc i + all_from p r ≡ i + all_from p ((true, x) ∷ r) = rw (le) (omega arith) in
    λ j. (more_tp j, more_i j)

counted-false :
    (tp i x : ℕ) (r : Ranking) (p : ℕ)
    → p < x
    → counted tp (suc i) r p ≡ counted tp i ((false, x) ∷ r) p
counted-false tp i x r p lt =
    let le : leb p x ≡ true = ground (arith, lt) in
    let same_tp : tp + positives_from p r ≡ tp + positives_from p ((false, x) ∷ r) = omega arith in
    let more_i : suc i + all_from p r ≡ i + all_from p ((false, x) ∷ r) = rw (le) (omega arith) in
    λ j. (same_tp j, more_i j)

pub precisions-counted :
    (tp i : ℕ) (r : Ranking)
    → Falls r
    → precisions tp i (map (λ e. e.0) r) ≡ map (counted tp i r) (positive_scores r)
unfolding precisions positive_scores
precisions-counted tp i [] h = refl
precisions-counted tp i ((true, x) ∷ r) h =
    let none_tp = no_positive_from x r h.0 in
    let none_i = none_from x r h.0 in
    let self : leb x x ≡ true = ground arith in
    let head_tp : suc tp ≡ tp + positives_from x ((true, x) ∷ r) =
      rw (self) (omega (arith, none_tp)) in
    let head_i : suc i ≡ i + all_from x ((true, x) ∷ r) = rw (self) (omega (arith, none_i)) in
    let rest =
      precisions-counted (suc tp) (suc i) r h.1
      ∙ map_ext-All _ _ (positive_scores r)
          (positive_scores-All _ r (All-weaken _ _ (λ d. counted-true tp i x r d.1) r h.0)) in
    λ j. (head_tp j, head_i j) ∷ rest j
precisions-counted tp i ((false, x) ∷ r) h =
    precisions-counted tp (suc i) r h.1
    ∙ map_ext-All _ _ (positive_scores r)
        (positive_scores-All _ r (All-weaken _ _ (λ d. counted-false tp i x r d.1) r h.0))

pub sum_of-positive_scores :
    (f : ℕ → ℕ) (r : Ranking)
    → sum_of f (positive_scores r) ≡ sum_of (λ e. if e.0 then f e.1 else 0) r
unfolding positive_scores
sum_of-positive_scores f [] = refl
sum_of-positive_scores f ((true, x) ∷ r) = omega (arith, sum_of-positive_scores f r)
sum_of-positive_scores f ((false, x) ∷ r) = omega (arith, sum_of-positive_scores f r)
