-- ===== src/Study/Counts.antt =====
-- The pairs of a positive and a negative in a ranking, for the metrics of
-- examples/heterosplit/research.py. An entry of a ranking is a label, true for a positive, and a score.
use rungrid.Common.{
  ℕ, suc, ◌+◌, ◌*◌, ◌≤◌, ◌≡◌, refl, ap, ◌∙◌, Bool, true, false, List, [], ◌∷◌, ◌++◌, map, ltb, leb,
  if◌then◌else◌, All, arith,
}
use rungrid.Study.Sums.{sum_of, SameSums, sum_of_ext, sum_of_add}

abbrev pub Ranking : Type 0
Ranking = List (Bool × ℕ)

-- The positions of the positives, from `c` on.
unfoldable pub positions : ℕ → Ranking → ℕ
positions c [] = 0
positions c (e ∷ r) = (if e.0 then c else 0) + positions (suc c) r

abbrev pub positives_in : Ranking → ℕ
positives_in = sum_of (λ e. if e.0 then 1 else 0)

-- The positives before each positive, and the negatives before each.
unfoldable positives_before : ℕ → Ranking → ℕ
positives_before t [] = 0
positives_before t ((true, x) ∷ r) = t + positives_before (suc t) r
positives_before t ((false, x) ∷ r) = positives_before t r

unfoldable pub negatives_before : ℕ → Ranking → ℕ
negatives_before u [] = 0
negatives_before u ((true, x) ∷ r) = u + negatives_before u r
negatives_before u ((false, x) ∷ r) = negatives_before (suc u) r

positions-parts :
    (t u : ℕ) (r : Ranking) → positions (t + u) r ≡ positives_before t r + negatives_before u r
unfolding positions positives_before negatives_before
positions-parts t u [] = refl
positions-parts t u ((true, x) ∷ r) =
    let next : suc (t + u) ≡ suc t + u = omega arith in
    let moved = ap (λ c. positions c r) next in omega (arith, moved, positions-parts (suc t) u r)
positions-parts t u ((false, x) ∷ r) =
    let next : suc (t + u) ≡ t + suc u = omega arith in
    let moved = ap (λ c. positions c r) next in omega (arith, moved, positions-parts t (suc u) r)

positives_triangle :
    (t : ℕ) (r : Ranking)
    → 2 * positives_before t r + positives_in r
      ≡ 2 * (positives_in r * t) + positives_in r * positives_in r
unfolding positives_before
positives_triangle t [] = omega arith
positives_triangle t ((true, x) ∷ r) = grind (arith, positives_triangle (suc t) r)
positives_triangle t ((false, x) ∷ r) = grind (arith, positives_triangle t r)

-- The positions of `n` positives are as many as the pairs of two positives, and those of a negative
-- before a positive.
pub positions-pairs :
    (r : Ranking)
    → 2 * positions 0 r + positives_in r
      ≡ positives_in r * positives_in r + 2 * negatives_before 0 r
positions-pairs r = grind (arith, positions-parts 0 0 r, positives_triangle 0 r)

negatives_more :
    (u : ℕ) (r : Ranking) → negatives_before u r ≡ u * positives_in r + negatives_before 0 r
unfolding negatives_before
negatives_more u [] = omega arith
negatives_more u ((true, x) ∷ r) = grind (arith, negatives_more u r)
negatives_more u ((false, x) ∷ r) = grind (arith, negatives_more (suc u) r, negatives_more 1 r)

-- The scores ascend.
abbrev pub Climbs : Ranking → Type 0
Climbs [] = Unit
Climbs (e ∷ r) = All (λ d. e.1 ≤ d.1) r × Climbs r

-- The negatives with scores that count for a positive's.
abbrev pub beaten : (ℕ → ℕ → ℕ) → ℕ → Ranking → ℕ
beaten c p = sum_of (λ d. if d.0 then 0 else c d.1 p)

abbrev pub pairs : (ℕ → ℕ → ℕ) → Ranking → ℕ
pairs c r = sum_of (λ e. if e.0 then beaten c e.1 r else 0) r

-- One for a lower score, or for one that is not higher.
abbrev pub below : ℕ → ℕ → ℕ
below q p = if ltb q p then 1 else 0

abbrev pub not_above : ℕ → ℕ → ℕ
not_above q p = if leb q p then 1 else 0

beaten-le :
    (c d : ℕ → ℕ → ℕ) (p : ℕ) (r : Ranking)
    → All (λ e. c e.1 p ≤ d e.1 p) r
    → beaten c p r ≤ beaten d p r
beaten-le c d p [] h = omega arith
beaten-le c d p ((true, x) ∷ r) h = let rest = beaten-le c d p r h.1 in omega (arith, rest)
beaten-le c d p ((false, x) ∷ r) h = let rest = beaten-le c d p r h.1 in omega (arith, h.0, rest)

-- The first entry's part in the pairs.
pairs-true :
    (c : ℕ → ℕ → ℕ) (x : ℕ) (r : Ranking) → pairs c ((true, x) ∷ r) ≡ beaten c x r + pairs c r
pairs-true c x r =
    let same = sum_of_ext _ (λ e. if e.0 then beaten c e.1 r else 0) passed r in omega (arith, same)
  where
    passed :
        (e : Bool × ℕ)
        → (if e.0 then beaten c e.1 ((true, x) ∷ r) else 0) ≡ (if e.0 then beaten c e.1 r else 0)
    passed (true, y) = omega arith
    passed (false, y) = refl

pairs-false :
    (c : ℕ → ℕ → ℕ) (x : ℕ) (r : Ranking)
    → pairs c ((false, x) ∷ r) ≡ sum_of (λ e. if e.0 then c x e.1 else 0) r + pairs c r
pairs-false c x r =
    let same =
      sum_of_ext _ (λ e. (if e.0 then c x e.1 else 0) + (if e.0 then beaten c e.1 r else 0)) counted
        r in
    omega (
      arith,
      same,
      sum_of_add (λ e. if e.0 then c x e.1 else 0) (λ e. if e.0 then beaten c e.1 r else 0) r,
    )
  where
    counted :
        (e : Bool × ℕ)
        → (if e.0 then beaten c e.1 ((false, x) ∷ r) else 0)
          ≡ (if e.0 then c x e.1 else 0) + (if e.0 then beaten c e.1 r else 0)
    counted (true, y) = refl
    counted (false, y) = refl

none_below : (x : ℕ) (r : Ranking) → All (λ d. x ≤ d.1) r → beaten below x r ≡ 0
none_below x [] h = refl
none_below x ((true, y) ∷ r) h = omega (arith, none_below x r h.1)
none_below x ((false, y) ∷ r) h = let le = h.0 in ground (arith, none_below x r h.1, le)

at_most_all :
    (x : ℕ) (r : Ranking) → sum_of (λ e. if e.0 then below x e.1 else 0) r ≤ positives_in r
at_most_all x [] = omega arith
at_most_all x ((true, y) ∷ r) = ground (arith, at_most_all x r)
at_most_all x ((false, y) ∷ r) = omega (arith, at_most_all x r)

all_above :
    (x : ℕ) (r : Ranking)
    → All (λ d. x ≤ d.1) r
    → sum_of (λ e. if e.0 then not_above x e.1 else 0) r ≡ positives_in r
all_above x [] h = refl
all_above x ((true, y) ∷ r) h = let le = h.0 in ground (arith, all_above x r h.1, le)
all_above x ((false, y) ∷ r) h = omega (arith, all_above x r h.1)

-- In a ranking whose scores ascend, the negatives before the positives are at least those with a lower
-- score, and at most those whose score is not higher.
pub Climbs-pairs :
    (r : Ranking)
    → Climbs r
    → (pairs below r ≤ negatives_before 0 r) × (negatives_before 0 r ≤ pairs not_above r)
unfolding negatives_before
Climbs-pairs [] h = (omega arith, omega arith)
Climbs-pairs ((true, x) ∷ r) h =
    let (low, high) = Climbs-pairs r h.1 in
    (
      omega (arith, low, pairs-true below x r, none_below x r h.0),
      omega (arith, high, pairs-true not_above x r),
    )
Climbs-pairs ((false, x) ∷ r) h =
    let (low, high) = Climbs-pairs r h.1 in
    let more = negatives_more 1 r in
    (
      omega (arith, low, pairs-false below x r, at_most_all x r, more),
      omega (arith, high, pairs-false not_above x r, all_above x r h.0, more),
    )

-- The pairs do not depend on the order.
pub pairs_same : (c : ℕ → ℕ → ℕ) (r s : Ranking) → SameSums r s → pairs c r ≡ pairs c s
pairs_same c r s h = h (λ e. if e.0 then beaten c e.1 r else 0) ∙ sum_of_ext _ _ inner s
  where
    inner :
        (e : Bool × ℕ) → (if e.0 then beaten c e.1 r else 0) ≡ (if e.0 then beaten c e.1 s else 0)
    inner (true, y) = h (λ d. if d.0 then 0 else c d.1 y)
    inner (false, y) = refl

-- The positives and the negatives with their labels.
abbrev pub labelled : List ℕ → List ℕ → Ranking
labelled pos neg = map (λ p. (true, p)) pos ++ map (λ q. (false, q)) neg

-- The pairs of a positive and a negative that count.
abbrev pub wins : (ℕ → ℕ → ℕ) → List ℕ → List ℕ → ℕ
wins c pos neg = sum_of (λ p. sum_of (λ q. c q p) neg) pos
