-- ===== src/Study/Auc.antt =====
-- What `_roc_auc` of examples/heterosplit/research.py measures: the pairs that the scores order right.
use rungrid.Common.{
  ℕ, ◌+◌, ◌-◌, ◌*◌, ◌/◌, ◌≤◌, ◌≡◌, ◌≢◌, refl, sym, ap, ◌∙◌, Bool, true, false, some, List, [], ◌∷◌,
  ◌++◌, map, length, length-append, take, range_from, if◌then◌else◌, arith,
}
use rungrid.Study.Sums.{sum_of, SameSums, sum_of-map}
use rungrid.Study.Counts.{
  positions, positives_in, positions-pairs, negatives_before, Climbs-pairs, pairs_same, below,
  not_above, labelled, wins,
}
use rungrid.Study.Metrics.{IsArgsort, quotient, scores_at, sum, ranks, auc_of, roc_auc}
use rungrid.Study.Ranks.{
  entry, entries_labelled, positives-labelled, pairs-labelled, Climbs-entries, argsort-SameSums,
  sum-ranks,
}

module _ (argsort : List ℕ → List ℕ) (doc : IsArgsort argsort) where
  ranking-SameSums :
      (pos neg : List ℕ)
      → SameSums (map (entry (length pos) (pos ++ neg)) (argsort (pos ++ neg))) (labelled pos neg)
  ranking-SameSums pos neg f =
      let e = entry (length pos) (pos ++ neg) in
      let xs = pos ++ neg in
      sum_of-map f e (argsort xs)
      ∙ (argsort-SameSums argsort doc xs (λ i. f (e i))
          ∙ (sym (sum_of-map f e (range_from 0 (length xs)))
              ∙ ap (sum_of f) (entries_labelled pos neg)))

  -- The numerator counts the negatives before the positives.
  numerator :
      (pos neg : List ℕ)
      → let r = map (entry (length pos) (pos ++ neg)) (argsort (pos ++ neg)) in
        sum (take (length pos) (ranks argsort (pos ++ neg))) - (length pos * (length pos + 1)) / 2
        ≡ negatives_before 0 r
  numerator pos neg =
      let n = length pos in
      let r = map (entry n (pos ++ neg)) (argsort (pos ++ neg)) in
      let total = sum-ranks argsort doc (pos ++ neg) n (omega (arith, length-append pos neg)) in
      let count : positives_in r ≡ n =
        ranking-SameSums pos neg (λ e. if e.0 then 1 else 0) ∙ positives-labelled pos neg in
      let twice = positions-pairs r in
      let square : 2 * positions 0 r + n ≡ n * n + 2 * negatives_before 0 r = rw (count) at twice in
      let wide : n * (n + 1) ≡ n * n + n = grind arith in omega (arith, total, square, wide)

  auc_of-Wins :
      (pos neg : List ℕ)
      → pos ≢ []
      → neg ≢ []
      → (w : ℕ) × (auc_of argsort pos neg ≡ quotient w (length pos * length neg))
        × (wins below pos neg ≤ w)
        × (w ≤ wins not_above pos neg)
  auc_of-Wins [] neg h k = absurd (h refl)
  auc_of-Wins (p ∷ pos) [] h k = absurd (k refl)
  auc_of-Wins (p ∷ pos) (q ∷ neg) h k =
      let r =
        map (entry (length (p ∷ pos)) ((p ∷ pos) ++ q ∷ neg)) (argsort ((p ∷ pos) ++ q ∷ neg)) in
      let same = ranking-SameSums (p ∷ pos) (q ∷ neg) in
      let order =
        Climbs-entries ((p ∷ pos) ++ q ∷ neg) (length (p ∷ pos)) (argsort ((p ∷ pos) ++ q ∷ neg))
          (doc.ascending ((p ∷ pos) ++ q ∷ neg)) in
      let (low, high) = Climbs-pairs r order in
      let lost =
        pairs_same below r (labelled (p ∷ pos) (q ∷ neg)) same
        ∙ pairs-labelled below (p ∷ pos) (q ∷ neg) in
      let kept =
        pairs_same not_above r (labelled (p ∷ pos) (q ∷ neg)) same
        ∙ pairs-labelled not_above (p ∷ pos) (q ∷ neg) in
      (
        negatives_before 0 r,
        ap (λ w. quotient w (length (p ∷ pos) * length (q ∷ neg))) (numerator (p ∷ pos) (q ∷ neg)),
        omega (arith, low, lost),
        omega (arith, high, kept),
      )

  -- For scores and labels that hold a positive and a negative, `_roc_auc` is a quotient by the number of
  -- pairs of a positive and a negative. It counts every pair in which the positive has the higher score,
  -- and no pair in which it has the lower; equal scores count as torch happens to order them.
  pub roc_auc-Wins :
      (scores : List ℕ) (labels : List Bool) (pos neg : List ℕ)
      → scores_at true scores labels ≡ some pos
      → scores_at false scores labels ≡ some neg
      → pos ≢ []
      → neg ≢ []
      → (w : ℕ) × (roc_auc argsort scores labels ≡ quotient w (length pos * length neg))
        × (wins below pos neg ≤ w)
        × (w ≤ wins not_above pos neg)
  unfolding roc_auc
  roc_auc-Wins scores labels pos neg is_pos is_neg h k =
      let (w, e, low, high) = auc_of-Wins pos neg h k in (w, rw (is_pos, is_neg) e, low, high)
