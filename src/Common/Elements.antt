-- ===== src/Common/Elements.antt =====
-- The items of a list, each at some index.
use Prim.Native.Nat.{ℕ, zero, suc, ◌+◌, ◌<◌}
use mathlib.Core.Path.{◌≡◌, refl, ap, ◌∙◌}
use mathlib.Core.Option.{some, some-injective}
use mathlib.Core.List.{List, [], ◌∷◌, ◌++◌, map}
use native.Mathlib.Omega.{arith}
use rungrid.Common.Lists.{length, get_elem?, All, All-weaken, range_from}

-- The item stands at an index of the list.
abbrev pub Present {ℓ} : {A : Type ℓ} → A → List A → Type ℓ
Present x xs = (i : ℕ) × (get_elem? xs i ≡ some x)

module _ {ℓ} {A : Type ℓ} where
  pub Present-here : (x : A) (xs : List A) → Present x (x ∷ xs)
  unfolding get_elem?
  Present-here x xs = (zero, refl)

  pub Present-there : (x y : A) (xs : List A) → Present x xs → Present x (y ∷ xs)
  unfolding get_elem?
  Present-there x y xs (i, e) = (suc i, e)

  pub All-Present : (xs : List A) → All (λ x. Present x xs) xs
  All-Present [] = tt
  All-Present (x ∷ xs) =
      (Present-here x xs, All-weaken _ _ (λ y h. Present-there y x xs h) xs (All-Present xs))

  -- What holds of every item that is there.
  pub All-from {κ} : (Q : A → Type κ) (xs : List A) → ((x : A) → Present x xs → Q x) → All Q xs
  All-from Q xs h = All-weaken (λ x. Present x xs) Q h xs (All-Present xs)

  pub Present-left : (x : A) (xs ys : List A) → Present x xs → Present x (xs ++ ys)
  unfolding get_elem?
  Present-left x [] ys (i, e) = cc
  Present-left x (y ∷ xs) ys (zero, e) = (zero, e)
  Present-left x (y ∷ xs) ys (suc i, e) = Present-there x y (xs ++ ys) (Present-left x xs ys (i, e))

  pub Present-right : (x : A) (xs ys : List A) → Present x ys → Present x (xs ++ ys)
  Present-right x [] ys h = h
  Present-right x (y ∷ xs) ys h = Present-there x y (xs ++ ys) (Present-right x xs ys h)

  pub get_elem?-left :
      (xs ys : List A) (k : ℕ) → k < length xs → get_elem? (xs ++ ys) k ≡ get_elem? xs k
  unfolding get_elem?
  get_elem?-left [] ys k h = absurd (omega (arith, h))
  get_elem?-left (x ∷ xs) ys zero h = refl
  get_elem?-left (x ∷ xs) ys (suc k) h = get_elem?-left xs ys k (omega (arith, h))

  pub get_elem?-right :
      (xs ys : List A) (k : ℕ) → get_elem? (xs ++ ys) (length xs + k) ≡ get_elem? ys k
  unfolding get_elem?
  get_elem?-right [] ys k = let same : 0 + k ≡ k = omega arith in ap (get_elem? ys) same
  get_elem?-right (x ∷ xs) ys k =
      let same : suc (length xs) + k ≡ suc (length xs + k) = omega arith in
      ap (get_elem? (x ∷ xs ++ ys)) same ∙ get_elem?-right xs ys k

  pub get_elem?-inside : (xs : List A) (k : ℕ) (x : A) → get_elem? xs k ≡ some x → k < length xs
  unfolding get_elem?
  get_elem?-inside [] k x e = cc
  get_elem?-inside (y ∷ xs) zero x e = omega arith
  get_elem?-inside (y ∷ xs) (suc k) x e = omega (arith, get_elem?-inside xs k x e)

module _ {ℓ κ} {A : Type ℓ} {B : Type κ} (f : A → B) where
  pub get_elem?-map :
      (xs : List A) (k : ℕ) (x : A) → get_elem? xs k ≡ some x → get_elem? (map f xs) k ≡ some (f x)
  unfolding get_elem?
  get_elem?-map [] k x e = cc
  get_elem?-map (y ∷ xs) zero x e = ap (λ z. some (f z)) (some-injective y x e)
  get_elem?-map (y ∷ xs) (suc k) x e = get_elem?-map xs k x e

  pub Present-map : (x : A) (xs : List A) → Present x xs → Present (f x) (map f xs)
  Present-map x xs (i, e) = (i, get_elem?-map xs i x e)

  pub get_elem?-unmap :
      (P : A → Type 0) (xs : List A) (k : ℕ) (y : B)
      → All P xs
      → get_elem? (map f xs) k ≡ some y
      → (x : A) × (get_elem? xs k ≡ some x) × (f x ≡ y) × P x
  unfolding get_elem?
  get_elem?-unmap P [] k y h e = cc
  get_elem?-unmap P (x ∷ xs) zero y h e = (x, refl, some-injective (f x) y e, h.0)
  get_elem?-unmap P (x ∷ xs) (suc k) y h e = get_elem?-unmap P xs k y h.1 e

pub get_elem?-range_from : (a n k : ℕ) → k < n → get_elem? (range_from a n) k ≡ some (a + k)
unfolding get_elem? range_from
get_elem?-range_from a zero k h = absurd (omega (arith, h))
get_elem?-range_from a (suc n) zero h = ap some (omega arith)
get_elem?-range_from a (suc n) (suc k) h =
    let same : suc a + k ≡ a + suc k = omega arith in
    get_elem?-range_from (suc a) n k (omega (arith, h)) ∙ ap some same
