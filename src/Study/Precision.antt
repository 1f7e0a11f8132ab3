-- ===== src/Study/Precision.antt =====
-- What `_average_precision` of examples/heterosplit/research.py measures: for each positive, how many of the
-- scores that are not below its own are positives'.
use rungrid.Common.{
  ℕ, ◌+◌, ◌≤◌, ◌<◌, ◌≡◌, ◌≢◌, refl, sym, ap, ◌∙◌, Bool, true, false, some, List, [], ◌∷◌, map,
  length, range_from, leb, ◌==◌, if◌then◌else◌, at, All, All-weaken, arith,
}
use rungrid.Study.Sums.{
  sum_of, SameSums, sum_of-Perm, sum_of_ext, sum_of_zero, sum_of_one, sum_of-map, map-at,
}
use rungrid.Study.Counts.{Ranking}
use rungrid.Study.Metrics.{
  IsArgsortDown, Descending, average, positives_of, precisions, average_precision, scores_at,
}
use rungrid.Study.Labels.{
  label_at, entry, labels_in-map, map-entry, zero_sum-All, range_below, scores_at-length,
  scores_at-sums,
}
use rungrid.Study.Quotients.{
  at_least, all_from, positives_from, positive_scores, Falls, counted, precisions-counted,
  sum_of-positive_scores,
}

-- How often a score occurs.
abbrev pub occurrences : ℕ → List ℕ → ℕ
occurrences x = sum_of (λ y. if y == x then 1 else 0)

Falls-entries :
    (labels : List Bool) (scores a : List ℕ)
    → Descending (map (at scores) a)
    → ((x : ℕ) → occurrences x (map (at scores) a) ≤ 1)
    → Falls (map (entry labels scores) a)
Falls-entries labels scores [] h once = tt
Falls-entries labels scores (i ∷ a) h once =
    let self : (at scores i == at scores i) ≡ true = ground arith in
    let head_once = rw (self) at (once (at scores i)) in
    (
      later a h.0 (omega (arith, head_once)),
      Falls-entries labels scores a h.1 (λ x. omega (arith, once x)),
    )
  where
    later :
        (l : List ℕ)
        → All (λ y. y ≤ at scores i) (map (at scores) l)
        → occurrences (at scores i) (map (at scores) l) ≡ 0
        → All (λ d. d.1 < at scores i) (map (entry labels scores) l)
    later [] g none_left = tt
    later (j ∷ l) g none_left =
        let le = g.0 in (ground (arith, le, none_left), later l g.1 (omega (arith, none_left)))

length_positive : (xs : List ℕ) → xs ≢ [] → (length xs == 0) ≡ false
length_positive [] h = absurd (h refl)
length_positive (x ∷ xs) h = ground arith

module _ (argsort : List ℕ → List ℕ) (doc : IsArgsortDown argsort) (scores : List ℕ)
    (labels : List Bool) (pos : List ℕ) (fits : scores_at true scores labels ≡ some pos) where
  abbrev order : List ℕ
  order = argsort scores

  abbrev ranking : Ranking
  ranking = map (entry labels scores) order

  order-SameSums : SameSums order (range_from 0 (length scores))
  order-SameSums = sum_of-Perm order (range_from 0 (length scores)) (doc.perm scores)

  in_range : All (λ i. i < length labels) order
  in_range =
      let n = length labels in
      let same : length labels ≡ length scores = scores_at-length scores labels pos fits in
      let none_over =
        order-SameSums (λ i. if leb n i then 1 else 0)
        ∙ sum_of_zero _ _ (range_below 0 (length scores) n (omega (arith, same))) in
      All-weaken _ _ (λ i e. ground (arith, e)) order
        (zero_sum-All (λ i. if leb n i then 1 else 0) order none_over)

  values_same : SameSums (map (at scores) order) scores
  values_same f =
      sum_of-map f (at scores) order
      ∙ (order-SameSums (λ i. f (at scores i))
          ∙ (sym (sum_of-map f (at scores) (range_from 0 (length scores)))
              ∙ ap (sum_of f) (map-at scores)))

  of_positives : (f : ℕ → ℕ) → sum_of (λ e. if e.0 then f e.1 else 0) ranking ≡ sum_of f pos
  of_positives f =
      let g : Bool × ℕ → ℕ = λ e. if e.0 then f e.1 else 0 in
      sum_of-map g (entry labels scores) order
      ∙ (order-SameSums (λ i. g (entry labels scores i))
          ∙ (sym (sum_of-map g (entry labels scores) (range_from 0 (length scores)))
              ∙ scores_at-sums scores labels pos fits f))

  of_all : (f : ℕ → ℕ) → sum_of (λ e. f e.1) ranking ≡ sum_of f scores
  of_all f =
      sum_of-map (λ e. f e.1) (entry labels scores) order
      ∙ (sym (sum_of-map f (at scores) order) ∙ values_same f)

  abbrev quotients : List (ℕ × ℕ)
  quotients = map (counted 0 0 ranking) (positive_scores ranking)

  counted-at_least : (p : ℕ) → counted 0 0 ranking p ≡ (at_least p pos, at_least p scores)
  counted-at_least p =
      let over = of_positives (λ x. if leb p x then 1 else 0) in
      let under = of_all (λ x. if leb p x then 1 else 0) in
      let first : 0 + positives_from p ranking ≡ at_least p pos = omega (arith, over) in
      let second : 0 + all_from p ranking ≡ at_least p scores = omega (arith, under) in
      λ j. (first j, second j)

  quotients-SameSums : SameSums quotients (map (λ p. (at_least p pos, at_least p scores)) pos)
  quotients-SameSums f =
      let g : ℕ → ℕ = λ p. f (at_least p pos, at_least p scores) in
      sum_of-map f (counted 0 0 ranking) (positive_scores ranking)
      ∙ (sum_of_ext (λ p. f (counted 0 0 ranking p)) g (λ p. ap f (counted-at_least p))
            (positive_scores ranking)
          ∙ (sum_of-positive_scores g ranking
              ∙ (of_positives g
                  ∙ sym (sum_of-map f (λ p. (at_least p pos, at_least p scores)) pos))))

  -- For scores of which none occurs twice, with a positive among them, `_average_precision` is the average
  -- of one quotient for each positive: the number of positives whose scores are not below its own, over
  -- the number of all such scores. The quotients come in some order: every sum over them is the same.
  pub average_precision-Counts :
      pos ≢ []
      → ((x : ℕ) → occurrences x scores ≤ 1)
      → (qs : List (ℕ × ℕ)) × (average_precision argsort scores labels ≡ average qs (length pos))
        × SameSums qs (map (λ p. (at_least p pos, at_least p scores)) pos)
  unfolding average_precision
  average_precision-Counts some_pos once =
      let falls =
        Falls-entries labels scores order (doc.descending scores)
          (λ x. omega (arith, once x, values_same (λ y. if y == x then 1 else 0))) in
      let found = labels_in-map labels order in_range in
      let lab = map-entry labels scores order in
      let qs = ap (precisions 0 0) (sym lab) ∙ precisions-counted 0 0 ranking falls in
      let count : positives_of (map (label_at labels) order) ≡ length pos =
        ap positives_of (sym lab)
        ∙ (sum_of-map (λ l. if l then 1 else 0) (λ e. e.0) ranking
            ∙ (of_positives (λ x. 1) ∙ sum_of_one pos)) in
      let positive : (length pos == 0) ≡ false = length_positive pos some_pos in
      (quotients, rw (found) (rw (count, positive, qs) refl), quotients-SameSums)
