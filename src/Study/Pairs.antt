-- ===== src/Study/Pairs.antt =====
-- Lists in which every two items are apart, as the nested loops of examples/heterosplit/submit.py make
-- them.
use rungrid.Common.{
  range_from, ℕ, zero, suc, ◌≤◌, ◌≡◌, ◌≢◌, sym, ap, ◌∙◌, List, [], ◌∷◌, ◌++◌, map, All, All-append,
  All-weaken, arith,
}
use rungrid.Study.Submit.{for_each}
use rungrid.Study.Keys.{All-zip}

-- Every two items of a list, the earlier one first.
abbrev pub Pairwise : {A : Type 0} → (A → A → Type 0) → List A → Type 0
Pairwise P [] = Unit
Pairwise P (x ∷ xs) = All (P x) xs × Pairwise P xs

pub All-both :
    {A : Type 0} (P Q : A → Type 0) (xs : List A) → All P xs → All Q xs → All (λ x. P x × Q x) xs
All-both P Q [] h k = tt
All-both P Q (x ∷ xs) h k = ((h.0, k.0), All-both P Q xs h.1 k.1)

pub All-always : {A : Type 0} (P : A → Type 0) → ((x : A) → P x) → (xs : List A) → All P xs
All-always P h [] = tt
All-always P h (x ∷ xs) = (h x, All-always P h xs)

pub Pairwise-append :
    {A : Type 0} (P : A → A → Type 0) (xs ys : List A)
    → Pairwise P xs
    → Pairwise P ys
    → All (λ x. All (P x) ys) xs
    → Pairwise P (xs ++ ys)
Pairwise-append P [] ys h k a = k
Pairwise-append P (x ∷ xs) ys h k a =
    (All-append (P x) xs ys h.0 a.0, Pairwise-append P xs ys h.1 k a.1)

module _ {A B : Type 0} (Q : A → A → Type 0) (P : B → B → Type 0) (f : A → List B)
    (apart : (x x' : A) → Q x x' → All (λ y. All (P y) (f x')) (f x)) where
  spread : (x : A) (xs : List A) → All (Q x) xs → All (λ y. All (P y) (for_each f xs)) (f x)
  unfolding for_each
  spread x [] h = All-always (λ y. All (P y) []) (λ y. tt) (f x)
  spread x (x' ∷ xs) h =
      All-weaken (λ y. All (P y) (f x') × All (P y) (for_each f xs))
        (λ y. All (P y) (f x' ++ for_each f xs))
        (λ y k. All-append (P y) (f x') (for_each f xs) k.0 k.1) (f x)
        (All-both _ _ (f x) (apart x x' h.0) (spread x xs h.1))

  pub Pairwise-for_each :
      (xs : List A) → All (λ x. Pairwise P (f x)) xs → Pairwise Q xs → Pairwise P (for_each f xs)
  unfolding for_each
  Pairwise-for_each [] each h = tt
  Pairwise-for_each (x ∷ xs) each h =
      Pairwise-append P (f x) (for_each f xs) each.0 (Pairwise-for_each xs each.1 h.1)
        (spread x xs h.0)

pub Pairwise-map :
    {A B : Type 0} (Q : A → A → Type 0) (P : B → B → Type 0) (f : A → B)
    → ((x x' : A) → Q x x' → P (f x) (f x'))
    → (xs : List A) → Pairwise Q xs
    → Pairwise P (map f xs)
Pairwise-map Q P f h [] k = tt
Pairwise-map Q P f h (x ∷ xs) k =
    (All-zip (P (f x)) f (Q x) (λ x' q. h x x' q) xs k.0, Pairwise-map Q P f h xs k.1)

range_from-above : (i j n : ℕ) → j ≤ i → All (λ k. j ≤ k) (range_from i n)
unfolding range_from
range_from-above i j zero h = tt
range_from-above i j (suc n) h = (h, range_from-above (suc i) j n (omega (arith, h)))

pub Pairwise-range_from : (i n : ℕ) → Pairwise (λ j k. j ≢ k) (range_from i n)
unfolding range_from
Pairwise-range_from i zero = tt
Pairwise-range_from i (suc n) = (
  All-weaken (λ k. suc i ≤ k) (λ k. i ≢ k) (λ k h. omega (arith, h)) (range_from (suc i) n)
      (range_from-above (suc i) (suc i) n (omega arith)),
  Pairwise-range_from (suc i) n,
)

-- Lists whose items have different values of a projection.
pub projected_apart :
    {B C : Type 0} (p : B → C) (c c' : C) (xs ys : List B)
    → c ≢ c'
    → All (λ y. p y ≡ c) xs
    → All (λ y. p y ≡ c') ys
    → All (λ x. All (λ y. x ≢ y) ys) xs
projected_apart p c c' xs ys n h k =
    All-weaken (λ x. p x ≡ c) (λ x. All (λ y. x ≢ y) ys)
      (λ x e.
        All-weaken (λ y. p y ≡ c') (λ y. x ≢ y) (λ y e' same. n (sym e ∙ (ap p same ∙ e'))) ys k)
      xs h

-- What all items satisfy, two of them do.
pub Pairwise-All :
    {A : Type 0} (H : A → Type 0) (Q : A → A → Type 0) (xs : List A)
    → All H xs
    → Pairwise Q xs
    → Pairwise (λ x y. H x × H y × Q x y) xs
Pairwise-All H Q [] a h = tt
Pairwise-All H Q (x ∷ xs) a h = (
  All-weaken (λ y. H y × Q x y) (λ y. H x × H y × Q x y) (λ y k. (a.0, k.0, k.1)) xs
      (All-both _ _ xs a.1 h.0),
  Pairwise-All H Q xs a.1 h.1,
)
