-- ===== src/Study/Sums.antt =====
-- Sums over lists, for the metrics of examples/heterosplit/research.py, and the ascending permutation
-- of a range.
use mathlib.Core.List.{Perm, foldr}
use mathlib.Core.List.Perm
use native.Mathlib.Nat.{ℕ_set}
use rungrid.Common.{
  ℕ, zero, suc, ◌+◌, ◌≤◌, ◌≡◌, refl, sym, ap, ◌∙◌, inl, inr, Bool-cases, List, [], ◌∷◌, ◌++◌, map,
  length, ltb, range_from, if◌then◌else◌, at, Ascending, All, arith,
}

abbrev pub sum_of {ℓ} : {A : Type ℓ} → (A → ℕ) → List A → ℕ
sum_of f [] = 0
sum_of f (x ∷ xs) = f x + sum_of f xs

-- The same sums, which permutations of a list have.
abbrev pub SameSums {ℓ} : {A : Type ℓ} → List A → List A → Type ℓ
SameSums {A} xs ys = (f : A → ℕ) → sum_of f xs ≡ sum_of f ys

module _ {ℓ} {A : Type ℓ} where
  sum_of-foldr : (f : A → ℕ) (xs : List A) → sum_of f xs ≡ foldr (λ x s. f x + s) 0 xs
  sum_of-foldr f [] = refl
  sum_of-foldr f (x ∷ xs) = ap (λ s. f x + s) (sum_of-foldr f xs)

  pub sum_of-Perm : (xs ys : List A) → Perm xs ys → SameSums xs ys
  sum_of-Perm xs ys p f =
      sum_of-foldr f xs
      ∙ (Perm.foldr-eq ℕ_set (λ x s. f x + s) (λ a b x. omega arith) p 0 ∙ sym (sum_of-foldr f ys))

  pub sum_of_ext : (f g : A → ℕ) → ((x : A) → f x ≡ g x) → (xs : List A) → sum_of f xs ≡ sum_of g xs
  sum_of_ext f g e [] = refl
  sum_of_ext f g e (x ∷ xs) = omega (arith, e x, sum_of_ext f g e xs)

  pub sum_of-append : (f : A → ℕ) (xs ys : List A) → sum_of f (xs ++ ys) ≡ sum_of f xs + sum_of f ys
  sum_of-append f [] ys = omega arith
  sum_of-append f (x ∷ xs) ys = omega (arith, sum_of-append f xs ys)

  pub sum_of_add :
      (f g : A → ℕ) (xs : List A) → sum_of (λ x. f x + g x) xs ≡ sum_of f xs + sum_of g xs
  sum_of_add f g [] = refl
  sum_of_add f g (x ∷ xs) = omega (arith, sum_of_add f g xs)

  pub sum_of_zero : (f : A → ℕ) (xs : List A) → All (λ x. f x ≡ 0) xs → sum_of f xs ≡ 0
  sum_of_zero f [] h = refl
  sum_of_zero f (x ∷ xs) h = omega (arith, h.0, sum_of_zero f xs h.1)

  pub sum_of_one : (xs : List A) → sum_of (λ x. 1) xs ≡ length xs
  sum_of_one [] = refl
  sum_of_one (x ∷ xs) = omega (arith, sum_of_one xs)

pub sum_of-map {ℓ κ} :
    {A : Type ℓ} {B : Type κ} (f : B → ℕ) (g : A → B) (xs : List A)
    → sum_of f (map g xs) ≡ sum_of (λ x. f (g x)) xs
sum_of-map f g [] = refl
sum_of-map f g (x ∷ xs) = omega (arith, sum_of-map f g xs)

pub map_ext {ℓ κ} :
    {A : Type ℓ} {B : Type κ} (f g : A → B)
    → ((x : A) → f x ≡ g x)
    → (xs : List A) → map f xs ≡ map g xs
map_ext f g e [] = refl
map_ext f g e (x ∷ xs) = λ i. e x i ∷ map_ext f g e xs i

-- A range that begins one later.
pub range_shift : (s n : ℕ) → range_from (suc s) n ≡ map suc (range_from s n)
unfolding range_from
range_shift s zero = refl
range_shift s (suc n) = ap (λ l. suc s ∷ l) (range_shift (suc s) n)

pub map-map {ℓ} :
    {A : Type ℓ} (f : ℕ → A) (xs : List ℕ) → map f (map suc xs) ≡ map (λ k. f (suc k)) xs
map-map f [] = refl
map-map f (x ∷ xs) = ap (λ l. f (suc x) ∷ l) (map-map f xs)

pub map-range {ℓ} :
    {A : Type ℓ} (f : ℕ → A) (n : ℕ)
    → map f (range_from 1 n) ≡ map (λ k. f (suc k)) (range_from 0 n)
map-range f n = ap (map f) (range_shift 0 n) ∙ map-map f (range_from 0 n)

pub sum_of-range :
    (f : ℕ → ℕ) (n : ℕ) → sum_of f (range_from 1 n) ≡ sum_of (λ k. f (suc k)) (range_from 0 n)
sum_of-range f n = ap (sum_of f) (range_shift 0 n) ∙ sum_of-map f suc (range_from 0 n)

pub length-range_from : (s n : ℕ) → length (range_from s n) ≡ n
unfolding range_from
length-range_from s zero = refl
length-range_from s (suc n) = omega (arith, length-range_from (suc s) n)

-- The values at all indices are the list.
pub map-at : (xs : List ℕ) → map (at xs) (range_from 0 (length xs)) ≡ xs
unfolding range_from at
map-at [] = refl
map-at (x ∷ xs) = ap (λ l. x ∷ l) (map-range (at (x ∷ xs)) (length xs) ∙ map-at xs)

range_least :
    (s t n : ℕ) → s ≤ t → All (λ k. ◌≡◌ {A = ℕ} (if ltb k s then 1 else 0) 0) (range_from t n)
unfolding range_from
range_least s t zero h = tt
range_least s t (suc n) h = (ground arith, range_least s (suc t) n (omega arith))

above_none :
    (s x : ℕ) (xs : List ℕ)
    → s ≤ x
    → All (λ y. x ≤ y) xs
    → All (λ k. ◌≡◌ {A = ℕ} (if ltb k s then 1 else 0) 0) xs
above_none s x [] h a = tt
above_none s x (y ∷ ys) h a = let le = a.0 in (ground (arith, le), above_none s x ys h a.1)

-- An ascending list with the sums of a range is the range.
pub Ascending-range :
    (n s : ℕ) (xs : List ℕ) → Ascending xs → SameSums xs (range_from s n) → xs ≡ range_from s n
unfolding range_from
Ascending-range zero s [] a h = refl
Ascending-range zero s (x ∷ xs) a h = absurd (omega (arith, h (λ k. 1)))
Ascending-range (suc n) s [] a h = absurd (omega (arith, h (λ k. 1)))
Ascending-range (suc n) s (x ∷ xs) a h =
    let none_below = sum_of_zero _ _ (range_least s (suc s) n (omega arith)) in
    let low : s ≤ x = ground (arith, h (λ k. if ltb k s then 1 else 0), none_below) in
    let high : x ≤ s = elim (Bool-cases (ltb s x)) [
      | inl gt ↦
          let zero_sum = sum_of_zero _ _ (above_none (suc s) x xs (ground (arith, gt)) a.0) in
          absurd (ground (arith, h (λ k. if ltb k (suc s) then 1 else 0), zero_sum, gt))
      | inr le ↦ ground (arith, le)
    ] in
    let same : x ≡ s = omega (arith, low, high) in
    let rest : xs ≡ range_from (suc s) n =
      Ascending-range n (suc s) xs a.1 (λ f. let e = ap f same in omega (arith, h f, e)) in
    λ i. same i ∷ rest i
