-- ===== src/Study/Ranks.antt =====
-- The ranks that two calls of `argsort` give, as positions in a ranking: for `_roc_auc` of
-- examples/heterosplit/research.py.
use rungrid.Common.{
  ℕ, zero, suc, ◌+◌, ◌-◌, ◌≤◌, ◌≡◌, refl, sym, ap, ◌∙◌, Bool, true, false, inl, inr, Bool-cases,
  List, [], ◌∷◌, ◌++◌, map, length, take, range_from, ltb, if◌then◌else◌, at, Ascending, All, arith,
}
use rungrid.Study.Sums.{
  sum_of, SameSums, sum_of-Perm, sum_of_ext, sum_of-append, sum_of_one, sum_of-map, map_ext,
  map-range, sum_of-range, length-range_from, map-at, Ascending-range,
}
use rungrid.Study.Counts.{positions, positives_in, Climbs, beaten, pairs, labelled, wins}
use rungrid.Study.Metrics.{IsArgsort, sum, ranks}

-- The label and the score at an index, where the first `n` scores are the positives'.
abbrev pub entry : ℕ → List ℕ → ℕ → Bool × ℕ
entry n xs i = (ltb i n, at xs i)

negatives_labelled :
    (neg : List ℕ) → map (entry 0 neg) (range_from 0 (length neg)) ≡ map (λ q. (false, q)) neg
unfolding range_from at
negatives_labelled [] = refl
negatives_labelled (q ∷ neg) =
    ap (λ l. (false, q) ∷ l)
      (map-range (entry 0 (q ∷ neg)) (length neg)
        ∙ (map_ext _ (entry 0 neg) later (range_from 0 (length neg)) ∙ negatives_labelled neg))
  where
    later : (k : ℕ) → entry 0 (q ∷ neg) (suc k) ≡ entry 0 neg k
    later k = let label : ltb (suc k) 0 ≡ ltb k 0 = ground arith in λ i. (label i, at neg k)

pub entries_labelled :
    (pos neg : List ℕ)
    → map (entry (length pos) (pos ++ neg)) (range_from 0 (length (pos ++ neg))) ≡ labelled pos neg
unfolding range_from at
entries_labelled [] neg = negatives_labelled neg
entries_labelled (p ∷ pos) neg =
    let first : ltb 0 (suc (length pos)) ≡ true = ground arith in
    let rest =
      map-range (entry (suc (length pos)) (p ∷ (pos ++ neg))) (length (pos ++ neg))
      ∙ (map_ext _ (entry (length pos) (pos ++ neg)) later (range_from 0 (length (pos ++ neg)))
          ∙ entries_labelled pos neg) in
    λ i. (first i, p) ∷ rest i
  where
    later :
        (k : ℕ)
        → entry (suc (length pos)) (p ∷ (pos ++ neg)) (suc k) ≡ entry (length pos) (pos ++ neg) k
    later k =
        let label : ltb (suc k) (suc (length pos)) ≡ ltb k (length pos) = ground arith in
        λ i. (label i, at (pos ++ neg) k)

take_nil : (m : ℕ) → ◌≡◌ {A = List ℕ} (take m []) []
take_nil zero = refl
take_nil (suc m) = refl

zero_plus : (j : ℕ) → 0 + j ≡ j
zero_plus j = omega arith

plus_zero : (j : ℕ) → j ≡ j + 0
plus_zero j = omega arith

-- The ranks of the first `n` indices are the positions at which they stand in the order.
take-sum :
    (a b : List ℕ) (n s k : ℕ)
    → map (at a) b ≡ range_from s k
    → sum (take (n - s) b) ≡ sum_of (λ j. if ltb (at a j) n then j else 0) b
unfolding range_from
take-sum a [] n s k h = ap sum (take_nil (n - s))
take-sum a (j ∷ b) n s zero h = cc
take-sum a (j ∷ b) n s (suc k) h =
    let first : at a j ≡ s = cc in
    let rest : map (at a) b ≡ range_from (suc s) k = cc in
    let more = take-sum a b n (suc s) k rest in
    elim (Bool-cases (ltb s n)) [
      | inl lt ↦
          let one : n - s ≡ suc (n - suc s) = ground (arith, lt) in
          rw (one, first, lt) (omega (arith, more))
      | inr ge ↦
          let done : n - s ≡ 0 = ground (arith, ge) in
          let still : n - suc s ≡ 0 = omega (arith, done) in
          let zero_rest = rw (still) at more in rw (done, first, ge) (omega (arith, zero_rest))
    ]

sum-take-suc : (n : ℕ) (b : List ℕ) → n ≤ length b → sum (take n (map suc b)) ≡ sum (take n b) + n
sum-take-suc zero b h = refl
sum-take-suc (suc n) [] h = absurd (omega arith)
sum-take-suc (suc n) (j ∷ b) h = omega (arith, sum-take-suc n b (omega arith))

positions-at :
    (xs : List ℕ) (n c : ℕ) (a : List ℕ)
    → sum_of (λ j. if ltb (at a j) n then j + c else 0) (range_from 0 (length a))
      ≡ positions c (map (entry n xs) a)
unfolding range_from positions at
positions-at xs n c [] = refl
positions-at xs n c (i ∷ a) =
    let later =
      sum_of-range (λ j. if ltb (at (i ∷ a) j) n then j + c else 0) (length a)
      ∙ (sum_of_ext _ (λ j. if ltb (at a j) n then j + suc c else 0) further
            (range_from 0 (length a))
          ∙ positions-at xs n (suc c) a) in
    let start : (if ltb i n then 0 + c else 0) ≡ (if ltb i n then c else 0) =
      ap (λ k. if ltb i n then k else 0) (zero_plus c) in
    omega (arith, later, start)
  where
    further :
        (j : ℕ)
        → (if ltb (at a j) n then suc j + c else 0) ≡ (if ltb (at a j) n then j + suc c else 0)
    further j =
        let same : suc j + c ≡ j + suc c = omega arith in
        ap (λ k. if ltb (at a j) n then k else 0) same

pub Climbs-entries :
    (xs : List ℕ) (n : ℕ) (a : List ℕ) → Ascending (map (at xs) a) → Climbs (map (entry n xs) a)
Climbs-entries xs n [] h = tt
Climbs-entries xs n (i ∷ a) h = (later a h.0, Climbs-entries xs n a h.1)
  where
    later :
        (l : List ℕ)
        → All (λ y. at xs i ≤ y) (map (at xs) l)
        → All (λ d. at xs i ≤ d.1) (map (entry n xs) l)
    later [] h = tt
    later (j ∷ l) h = (h.0, later l h.1)

sum_of_nothing {ℓ} : {A : Type ℓ} (xs : List A) → sum_of (λ x. 0) xs ≡ 0
sum_of_nothing [] = refl
sum_of_nothing (x ∷ xs) = omega (arith, sum_of_nothing xs)

sum_of-labelled :
    (f : Bool × ℕ → ℕ) (pos neg : List ℕ)
    → sum_of f (labelled pos neg) ≡ sum_of (λ p. f (true, p)) pos + sum_of (λ q. f (false, q)) neg
sum_of-labelled f pos neg =
    let positives : List (Bool × ℕ) = map (λ p. (true, p)) pos in
    let negatives : List (Bool × ℕ) = map (λ q. (false, q)) neg in
    let of_pos = sum_of-map f (λ p. (true, p)) pos in
    let of_neg = sum_of-map f (λ q. (false, q)) neg in
    sum_of-append f positives negatives ∙ (λ i. of_pos i + of_neg i)

pub positives-labelled : (pos neg : List ℕ) → positives_in (labelled pos neg) ≡ length pos
positives-labelled pos neg =
    let parts = sum_of-labelled (λ e. if e.0 then 1 else 0) pos neg in
    omega (arith, parts, sum_of_one pos, sum_of_nothing neg)

pub pairs-labelled :
    (c : ℕ → ℕ → ℕ) (pos neg : List ℕ) → pairs c (labelled pos neg) ≡ wins c pos neg
pairs-labelled c pos neg =
    let outer = sum_of-labelled (λ e. if e.0 then beaten c e.1 (labelled pos neg) else 0) pos neg in
    let inner =
      sum_of_ext (λ p. beaten c p (labelled pos neg)) (λ p. sum_of (λ q. c q p) neg) beats pos in
    omega (arith, outer, inner, sum_of_nothing neg)
  where
    beats : (p : ℕ) → beaten c p (labelled pos neg) ≡ sum_of (λ q. c q p) neg
    beats p =
        let parts = sum_of-labelled (λ d. if d.0 then 0 else c d.1 p) pos neg in
        omega (arith, parts, sum_of_nothing pos)

module _ (argsort : List ℕ → List ℕ) (doc : IsArgsort argsort) where
  pub argsort-SameSums : (xs : List ℕ) → SameSums (argsort xs) (range_from 0 (length xs))
  argsort-SameSums xs = sum_of-Perm (argsort xs) (range_from 0 (length xs)) (doc.perm xs)

  length-argsort : (xs : List ℕ) → length (argsort xs) ≡ length xs
  length-argsort xs =
      sym (sum_of_one (argsort xs))
      ∙ (argsort-SameSums xs (λ i. 1)
          ∙ (sum_of_one (range_from 0 (length xs)) ∙ length-range_from 0 (length xs)))

  -- `argsort` of an order of indices inverts it.
  argsort-inverts :
      (xs : List ℕ) → map (at (argsort xs)) (argsort (argsort xs)) ≡ range_from 0 (length xs)
  argsort-inverts xs =
      let a = argsort xs in
      Ascending-range (length xs) 0 (map (at a) (argsort a)) (doc.ascending a) (λ f.
        sum_of-map f (at a) (argsort a)
        ∙ (argsort-SameSums a (λ j. f (at a j))
            ∙ (sym (sum_of-map f (at a) (range_from 0 (length a)))
                ∙ (ap (sum_of f) (map-at a) ∙ argsort-SameSums xs f))))

  -- The ranks of the first `n` scores are positions in the ranking of all.
  pub sum-ranks :
      (xs : List ℕ) (n : ℕ)
      → n ≤ length xs
      → sum (take n (ranks argsort xs)) ≡ positions 0 (map (entry n xs) (argsort xs)) + n
  sum-ranks xs n le =
      let a = argsort xs in
      let long : n ≤ length (argsort a) = omega (arith, le, length-argsort xs, length-argsort a) in
      let all_of : n - 0 ≡ n = omega arith in
      let inverse =
        ap (λ m. sum (take m (argsort a))) (sym all_of)
        ∙ take-sum a (argsort a) n 0 (length xs) (argsort-inverts xs) in
      let moved = argsort-SameSums a (λ j. if ltb (at a j) n then j else 0) in
      let started =
        sum_of_ext (λ j. if ltb (at a j) n then j else 0) (λ j. if ltb (at a j) n then j + 0 else 0)
          (λ j. ap (λ k. if ltb (at a j) n then k else 0) (plus_zero j))
          (range_from 0 (length a)) in
      sum-take-suc n (argsort a) long
      ∙ ap (λ k. k + n) (inverse ∙ (moved ∙ (started ∙ positions-at xs n 0 a)))
