-- ===== src/Benchmarks/Percentile.antt =====
-- `percentile` of benchmarks/run.py, for percents. The values are numbers in some unit, and the
-- result is in hundredths of it: the rounding of floats is left out.
use mathlib.Core.Path.{subst}
use rungrid.Benchmarks.Sorted.{
  sorted, get_elem?-at, sorted-Ascending, at-le, length-insert, sorted-parts, sorted-All, All-at,
  Ascending-ends,
}
use rungrid.Common.{
  at, Ascending, ap, sym, ◌∙◌, ◌≢◌, get_elem?, ℕ, zero, suc, ◌+◌, ◌-◌, ◌*◌, ◌/◌, ◌%◌, ◌≤◌, ◌<◌, ◌≡◌,
  refl, inl, inr, Bool-cases, Option, none, some, List, [], ◌∷◌, length, leb, min, All, arith,
  All-weaken, Present, All-Present,
}

pub data Percentile : Type 0 where
  -- `None`, and an `IndexError`.
  no_values out_of_range : Percentile
  hundredths : ℕ → Percentile

abbrev pub interpolated : ℕ → Option ℕ → Option ℕ → Percentile
interpolated r none high = out_of_range
interpolated r (some low) none = out_of_range
interpolated r (some low) (some high) = hundredths (100 * low + (high - low) * r)

-- `values[lo] + (values[min(lo + 1, len(values) - 1)] - values[lo]) * (i - lo)`, where `i` is
-- `k` hundredths.
unfoldable pub interpolate : List ℕ → ℕ → Percentile
unfolding get_elem?
interpolate values k =
    interpolated (k % 100) (get_elem? values (k / 100))
      (get_elem? values (min (k / 100 + 1) (length values - 1)))

abbrev pub percentile_of : ℕ → List ℕ → Percentile
percentile_of p [] = no_values
percentile_of p (x ∷ xs) = interpolate (x ∷ xs) ((length (x ∷ xs) - 1) * p)

unfoldable pub percentile : List ℕ → ℕ → Percentile
unfolding sorted interpolate
percentile values p = percentile_of p (sorted values)

between : List ℕ → ℕ → ℕ
between values k =
    100 * at values (k / 100)
    + (at values (min (k / 100 + 1) (length values - 1)) - at values (k / 100)) * (k % 100)

interpolate-between :
    (x : ℕ) (xs : List ℕ) (k : ℕ)
    → k ≤ 100 * length xs
    → interpolate (x ∷ xs) k ≡ hundredths (between (x ∷ xs) k)
unfolding interpolate between
interpolate-between x xs k h =
    rw
      (
        get_elem?-at (x ∷ xs) (k / 100) (omega (arith, h)),
        get_elem?-at (x ∷ xs) (min (k / 100 + 1) (length (x ∷ xs) - 1)) (omega (arith, h)),
      )
      refl

-- One hundredth further along an ascending list.
between-step :
    (xs : List ℕ) (k : ℕ)
    → Ascending xs
    → k < 100 * (length xs - 1)
    → between xs k ≤ between xs (k + 1)
unfolding between
between-step xs k s h = elim (Bool-cases (leb 99 (k % 100))) [
  | inl last ↦
      let nines : k % 100 ≡ 99 = ground (arith, last) in
      let next : (k + 1) / 100 ≡ k / 100 + 1 = omega (arith, nines) in
      let zeros : (k + 1) % 100 ≡ 0 = omega (arith, nines) in
      let inside : min (k / 100 + 1) (length xs - 1) ≡ k / 100 + 1 = omega (arith, h) in
      let up = at-le xs (k / 100) (k / 100 + 1) s (omega arith) (omega (arith, h)) in
      rw (next, zeros, nines, inside) (omega (arith, up))
  | inr more ↦
      let same : (k + 1) / 100 ≡ k / 100 = ground (arith, more) in
      let further : (k + 1) % 100 ≡ k % 100 + 1 = ground (arith, more) in
      rw (same, further) (grind arith)
]

between-le :
    (xs : List ℕ) (k n : ℕ)
    → Ascending xs
    → k + n ≤ 100 * (length xs - 1)
    → between xs k ≤ between xs (k + n)
between-le xs k zero s h = let here : k + zero ≡ k = omega arith in rw (here) (omega arith)
between-le xs k (suc n) s h =
    let before = between-le xs k n s (omega (arith, h)) in
    let step = between-step xs (k + n) s (omega (arith, h)) in
    let next : k + suc n ≡ k + n + 1 = omega arith in rw (next) (omega (arith, before, step))

between-first : (x : ℕ) (xs : List ℕ) → between (x ∷ xs) (length xs * 0) ≡ 100 * x
unfolding between at
between-first x xs = let zeros : length xs * 0 ≡ 0 = omega arith in rw (zeros) (omega arith)

between-last :
    (x : ℕ) (xs : List ℕ) → between (x ∷ xs) (length xs * 100) ≡ 100 * at (x ∷ xs) (length xs)
unfolding between
between-last x xs =
    let whole : (length xs * 100) / 100 ≡ length xs = omega arith in
    let rest : (length xs * 100) % 100 ≡ 0 = omega arith in rw (whole, rest) (omega arith)

between_mono :
    (x : ℕ) (xs : List ℕ) (p q : ℕ)
    → Ascending (x ∷ xs)
    → p ≤ q
    → q ≤ 100
    → between (x ∷ xs) (length xs * p) ≤ between (x ∷ xs) (length xs * q)
between_mono x xs p q s h k =
    let further : length xs * p + length xs * (q - p) ≡ length xs * q = grind (arith, h) in
    subst (λ j. between (x ∷ xs) (length xs * p) ≤ between (x ∷ xs) j) further
      (between-le (x ∷ xs) (length xs * p) (length xs * (q - p)) s (grind (arith, h, k)))

-- What is known of two percentiles `low` and `high` of the values, and of those for 0 and for 100.
pub record Orders (values : List ℕ) (p q : ℕ) : Type 0 where
  pub bottom : ℕ
  pub low : ℕ
  pub high : ℕ
  pub top : ℕ
  pub is_bottom : percentile values 0 ≡ hundredths bottom
  pub is_low : percentile values p ≡ hundredths low
  pub is_high : percentile values q ≡ hundredths high
  pub is_top : percentile values 100 ≡ hundredths top
  pub ascending : (bottom ≤ low) × (low ≤ high) × (high ≤ top)
  -- The ends are values.
  pub least : (v : ℕ) × Present v values × (bottom ≡ 100 * v)
  pub greatest : (v : ℕ) × Present v values × (top ≡ 100 * v)
  pub around : All (λ v. (bottom ≤ 100 * v) × (100 * v ≤ top)) values

ordered :
    (values : List ℕ) (p q x : ℕ) (xs : List ℕ)
    → p ≤ q
    → q ≤ 100
    → sorted values ≡ x ∷ xs
    → Orders values p q
unfolding percentile between
ordered values p q x xs h k e =
    let n = length xs in
    let ascending : Ascending (x ∷ xs) = subst Ascending e (sorted-Ascending values) in
    let inside : All (λ v. Present v values) (x ∷ xs) =
      subst (All (λ v. Present v values)) e
        (sorted-All (λ v. Present v values) values (All-Present values)) in
    let pred : length (x ∷ xs) - 1 ≡ n = omega arith in
    let value : (r : ℕ) → r ≤ 100 → percentile values r ≡ hundredths (between (x ∷ xs) (n * r)) =
      λ r m.
        ap (percentile_of r) e
        ∙ (ap (λ j. interpolate (x ∷ xs) (j * r)) pred
            ∙ interpolate-between x xs (n * r) (grind (arith, m))) in
    record {
      bottom = 100 * x;
      low = between (x ∷ xs) (n * p);
      high = between (x ∷ xs) (n * q);
      top = 100 * at (x ∷ xs) n;
      is_bottom = value 0 (omega arith) ∙ ap hundredths (between-first x xs);
      is_low = value p (omega (arith, h, k));
      is_high = value q k;
      is_top = value 100 (omega arith) ∙ ap hundredths (between-last x xs);
      ascending = (
        subst (λ b. b ≤ between (x ∷ xs) (n * p)) (between-first x xs)
            (between_mono x xs 0 p ascending (omega arith) (omega (arith, h, k))),
        between_mono x xs p q ascending h k,
        subst (λ b. between (x ∷ xs) (n * q) ≤ b) (between-last x xs)
            (between_mono x xs q 100 ascending k (omega arith)),
      );
      least = (x, inside.0, refl);
      greatest =
          (at (x ∷ xs) n, All-at (λ v. Present v values) (x ∷ xs) n (omega arith) inside, refl);
      around = sorted-parts _ values (
          subst (All (λ v. (100 * x ≤ 100 * v) × (100 * v ≤ 100 * at (x ∷ xs) n))) (sym e) (
            All-weaken _ _ (λ v o. (omega (arith, o.0), omega (arith, o.1))) (x ∷ xs)
              (Ascending-ends x xs ascending)));
    }

-- Percentiles of one value or more are never out of range; they ascend with the percent, and lie
-- between the least and the greatest of the values, which are those for 0 and 100 percent.
pub percentile-Orders :
    (values : List ℕ) (p q : ℕ) → p ≤ q → q ≤ 100 → values ≢ [] → Orders values p q
unfolding sorted
percentile-Orders values p q h k some_value = sorts values some_value (sorted values) refl
  where
    sorts : (vs : List ℕ) → vs ≢ [] → (s : List ℕ) → sorted vs ≡ s → Orders vs p q
    sorts [] ne s e = absurd (ne refl)
    sorts (v ∷ vs) ne [] e =
        let empty : suc (length (sorted vs)) ≡ 0 =
          sym (length-insert v (sorted vs)) ∙ ap length e in
        absurd (omega (arith, empty))
    sorts (v ∷ vs) ne (x ∷ xs) e = ordered (v ∷ vs) p q x xs h k e
