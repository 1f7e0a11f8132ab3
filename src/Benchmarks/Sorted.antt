-- ===== src/Benchmarks/Sorted.antt =====
-- `sorted` and the values of a list at their indices, for `percentile` of benchmarks/run.py.
use rungrid.Common.{
  get_elem?, at, Ascending, ℕ, zero, suc, ◌≤◌, ◌<◌, ◌≡◌, refl, inl, inr, Bool-cases, some, List, [],
  ◌∷◌, length, leb, if◌then◌else◌, All, arith, All-weaken,
}

abbrev pub put_before : ℕ → ℕ → List ℕ → List ℕ → List ℕ
put_before x y ys rest = if leb x y then x ∷ y ∷ ys else y ∷ rest

unfoldable pub insert : ℕ → List ℕ → List ℕ
insert x [] = x ∷ []
insert x (y ∷ ys) = put_before x y ys (insert x ys)

-- `sorted(values)`
unfoldable pub sorted : List ℕ → List ℕ
unfolding insert
sorted [] = []
sorted (x ∷ xs) = insert x (sorted xs)

pub get_elem?-at : (xs : List ℕ) (i : ℕ) → i < length xs → get_elem? xs i ≡ some (at xs i)
unfolding get_elem? at
get_elem?-at [] i h = absurd (omega arith)
get_elem?-at (x ∷ xs) zero h = refl
get_elem?-at (x ∷ xs) (suc i) h = get_elem?-at xs i (omega arith)

insert-All : (P : ℕ → Type 0) (x : ℕ) (ys : List ℕ) → P x → All P ys → All P (insert x ys)
unfolding insert
insert-All P x [] p h = (p, tt)
insert-All P x (y ∷ ys) p h = elim (Bool-cases (leb x y)) [
  | inl le ↦ rw (le) (p, h)
  | inr gt ↦ rw (gt) (h.0, insert-All P x ys p h.1)
]

insert-Ascending : (x : ℕ) (ys : List ℕ) → Ascending ys → Ascending (insert x ys)
unfolding insert
insert-Ascending x [] h = (tt, tt)
insert-Ascending x (y ∷ ys) h = elim (Bool-cases (leb x y)) [
  | inl le ↦
      let below : x ≤ y = ground (arith, le) in
      rw (le) ((below, All-weaken _ _ (λ z q. omega (arith, q, below)) ys h.0), h)
  | inr gt ↦
      let above : y ≤ x = ground (arith, gt) in
      rw (gt) (insert-All (λ z. y ≤ z) x ys above h.0, insert-Ascending x ys h.1)
]

pub sorted-Ascending : (xs : List ℕ) → Ascending (sorted xs)
unfolding sorted
sorted-Ascending [] = tt
sorted-Ascending (x ∷ xs) = insert-Ascending x (sorted xs) (sorted-Ascending xs)

pub All-at : (P : ℕ → Type 0) (xs : List ℕ) (i : ℕ) → i < length xs → All P xs → P (at xs i)
unfolding at
All-at P [] i h a = absurd (omega arith)
All-at P (x ∷ xs) zero h a = a.0
All-at P (x ∷ xs) (suc i) h a = All-at P xs i (omega arith) a.1

pub at-le : (xs : List ℕ) (i j : ℕ) → Ascending xs → i ≤ j → j < length xs → at xs i ≤ at xs j
unfolding at
at-le [] i j s h k = absurd (omega arith)
at-le (x ∷ xs) zero zero s h k = omega arith
at-le (x ∷ xs) zero (suc j) s h k = All-at (λ y. x ≤ y) xs j (omega arith) s.0
at-le (x ∷ xs) (suc i) zero s h k = absurd (omega arith)
at-le (x ∷ xs) (suc i) (suc j) s h k = at-le xs i j s.1 (omega arith) (omega arith)

insert-parts : (P : ℕ → Type 0) (x : ℕ) (ys : List ℕ) → All P (insert x ys) → P x × All P ys
unfolding insert
insert-parts P x [] h = (h.0, tt)
insert-parts P x (y ∷ ys) h = elim (Bool-cases (leb x y)) [
  | inl le ↦ let a : All P (x ∷ y ∷ ys) = rw (le) at h in (a.0, a.1)
  | inr gt ↦
      let a : All P (y ∷ insert x ys) = rw (gt) at h in
      let rest = insert-parts P x ys a.1 in (rest.0, (a.0, rest.1))
]

pub sorted-parts : (P : ℕ → Type 0) (xs : List ℕ) → All P (sorted xs) → All P xs
unfolding sorted
sorted-parts P [] h = tt
sorted-parts P (x ∷ xs) h =
    let parts = insert-parts P x (sorted xs) h in (parts.0, sorted-parts P xs parts.1)

-- Sorting brings in no other value.
pub sorted-All : (P : ℕ → Type 0) (xs : List ℕ) → All P xs → All P (sorted xs)
unfolding sorted
sorted-All P [] h = tt
sorted-All P (x ∷ xs) h = insert-All P x (sorted xs) h.0 (sorted-All P xs h.1)

pub length-insert : (x : ℕ) (ys : List ℕ) → length (insert x ys) ≡ suc (length ys)
unfolding insert
length-insert x [] = refl
length-insert x (y ∷ ys) = elim (Bool-cases (leb x y)) [
  | inl le ↦ rw (le) refl
  | inr gt ↦ rw (gt) (omega (arith, length-insert x ys))
]

-- Between the first and the last of an ascending list.
pub Ascending-ends :
    (x : ℕ) (xs : List ℕ)
    → Ascending (x ∷ xs)
    → All (λ v. (x ≤ v) × (v ≤ at (x ∷ xs) (length xs))) (x ∷ xs)
unfolding at
Ascending-ends x [] s = ((omega arith, omega arith), tt)
Ascending-ends x (y ∷ ys) s =
    let first : x ≤ y = s.0.0 in
    let rest = Ascending-ends y ys s.1 in
    (
      (omega arith, at-le (x ∷ y ∷ ys) 0 (suc (length ys)) s (omega arith) (omega arith)),
      All-weaken _ _ (λ v h. (omega (arith, h.0, first), h.1)) (y ∷ ys) rest,
    )
