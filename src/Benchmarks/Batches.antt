-- ===== src/Benchmarks/Batches.antt =====
-- `run_case` of benchmarks/run.py: the batches in which it submits its jobs.
use rungrid.Common.{
  append_cancel, range_from, ℕ, zero, suc, ◌+◌, ◌-◌, ◌≤◌, ◌<◌, ◌≡◌, refl, ap, ◌∙◌, inl, inr,
  Bool-cases, List, [], ◌∷◌, ◌++◌, append-nil, length, leb, if◌then◌else◌, arith, min, Text, codes,
  str, str-injective, All,
}

-- The numbers of the jobs in the batch at an offset.
abbrev pub batch_at : ℕ → ℕ → List ℕ
batch_at count offset = range_from offset (min count (offset + 1000) - offset)

-- `for offset in range(0, count, 1000)`, on fuel.
unfoldable pub batches_from : ℕ → ℕ → ℕ → List (List ℕ)
unfolding range_from
batches_from zero count offset = []
batches_from (suc fuel) count offset =
    let rest = batches_from fuel count (offset + 1000) in
    if leb count offset then [] else batch_at count offset ∷ rest

unfoldable pub submitted : ℕ → List (List ℕ)
unfolding batches_from
submitted count = batches_from count count 0

unfoldable pub job_key : Text → ℕ → Text
unfolding str
job_key run_id i = codes "bench-" ++ (run_id ++ (codes "-" ++ str i))

-- `submitted.extend(...)`
abbrev pub flatten : List (List ℕ) → List ℕ
flatten [] = []
flatten (b ∷ bs) = b ++ flatten bs

range-append : (a n k : ℕ) → range_from a n ++ range_from (a + n) k ≡ range_from a (n + k)
unfolding range_from
range-append a zero k =
    let start : a + zero ≡ a = omega arith in
    let total : zero + k ≡ k = omega arith in rw (total, start) refl
range-append a (suc n) k =
    let start : a + suc n ≡ suc a + n = omega arith in
    let total : suc n + k ≡ suc (n + k) = omega arith in
    rw (total, start) (ap (λ l. a ∷ l) (range-append (suc a) n k))

length-range : (a n : ℕ) → length (range_from a n) ≡ n
unfolding range_from
length-range a zero = refl
length-range a (suc n) = omega (arith, length-range (suc a) n)

range_same : (a m n : ℕ) → m ≡ n → range_from a m ≡ range_from a n
range_same a m n e = ap (range_from a) e

-- A batch, and the numbers behind it.
batch_at-append :
    (count offset : ℕ)
    → offset < count
    → batch_at count offset ++ range_from (offset + 1000) (count - (offset + 1000))
      ≡ range_from offset (count - offset)
unfolding range_from
batch_at-append count offset h = elim (Bool-cases (leb count (offset + 1000))) [
  | inl last ↦
      let none_left : count - (offset + 1000) ≡ 0 = ground arith in
      rw (none_left) (
        append-nil (batch_at count offset)
        ∙ range_same offset (min count (offset + 1000) - offset) (count - offset) (ground arith))
  | inr more ↦
      let all : min count (offset + 1000) - offset ≡ 1000 = ground arith in
      rw (all) (
        range-append offset 1000 (count - (offset + 1000))
        ∙ range_same offset (1000 + (count - (offset + 1000))) (count - offset) (ground arith))
]

flatten-batches_from :
    (fuel count offset : ℕ)
    → count ≤ offset + fuel
    → (flatten (batches_from fuel count offset) ≡ range_from offset (count - offset))
      × All (λ b. (0 < length b) × (length b ≤ 1000)) (batches_from fuel count offset)
unfolding batches_from
flatten-batches_from zero count offset h = (range_same offset 0 (count - offset) (omega arith), tt)
flatten-batches_from (suc fuel) count offset h = elim (Bool-cases (leb count offset)) [
  | inl done ↦ rw (done) (range_same offset 0 (count - offset) (ground arith), tt)
  | inr more ↦
      let rest = flatten-batches_from fuel count (offset + 1000) (omega arith) in
      let n = min count (offset + 1000) - offset in
      rw (more) (
        ap (λ l. batch_at count offset ++ l) rest.0 ∙ batch_at-append count offset (ground arith),
        ((ground (arith, length-range offset n), ground (arith, length-range offset n)), rest.1),
      )
]

-- The batches submit the jobs with the numbers below the count, each once and in order; every batch
-- holds at least one job and at most 1000; and jobs of one run with different numbers have different
-- idempotency keys.
pub submitted-flatten :
    (count : ℕ) (run_id : Text)
    → (flatten (submitted count) ≡ range_from 0 count)
      × All (λ b. (0 < length b) × (length b ≤ 1000)) (submitted count)
      × ((i j : ℕ) → job_key run_id i ≡ job_key run_id j → i ≡ j)
unfolding submitted job_key
submitted-flatten count run_id =
    let h = flatten-batches_from count count 0 (omega arith) in
    (
      h.0 ∙ range_same 0 (count - 0) count (omega arith),
      h.1,
      λ i j e. str-injective i j (
          append_cancel (codes "-") _ _
            (append_cancel run_id _ _ (append_cancel (codes "bench-") _ _ e))),
    )
