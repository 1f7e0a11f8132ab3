-- ===== src/Benchmarks/Wait.antt =====
-- `wait` of benchmarks/recovery.py. The clock is in milliseconds.
use mathlib.Core.Path.{subst}
use mathlib.Core.Option.{some-injective}
use rungrid.Common.{
  ap, ℕ, zero, suc, ◌+◌, ◌-◌, ◌*◌, ◌/◌, ◌≤◌, ◌<◌, ◌≡◌, refl, ◌⊎◌, inl, inr, Bool-cases, Option,
  none, some, ltb, if◌then◌else◌, arith,
}

-- What one call of `fn` does: a true result, a false one, the error that `wait` goes on after, or
-- another one.
pub data Poll (R : Type 0) : Type 0 where
  ready : R → Poll R
  falsy os_error other_error : Poll R

pub data Waited (R : Type 0) : Type 0 where
  result : R → Waited R
  deadline_exceeded raised : Waited R

-- `fn` in its environment: what a call gives and how long it takes, by the number of calls before.
pub record Polled (R : Type 0) : Type 0 where
  pub poll : ℕ → Poll R
  pub takes : ℕ → ℕ

-- How a wait ended, after how many calls, and when.
pub record Ended (R : Type 0) : Type 0 where
  pub outcome : Waited R
  pub calls : ℕ
  pub time : ℕ

abbrev pub nap : ℕ
nap = 50

module _ {R : Type 0} (fn : Polled R) where
  abbrev pub ended : Waited R → ℕ → ℕ → Option (Ended R)
  ended o n now = some (record { outcome = o; calls = n; time = now })

  -- What follows a call: `rest` is the loop after the sleep.
  abbrev pub after_poll : ℕ → ℕ → Option (Ended R) → Poll R → Option (Ended R)
  after_poll n now rest (ready r) = ended (result r) (suc n) now
  after_poll n now rest falsy = rest
  after_poll n now rest os_error = rest
  after_poll n now rest other_error = ended raised (suc n) now

  -- The loop, on fuel: `none` means that the fuel ran out.
  unfoldable pub poll_until : ℕ → ℕ → ℕ → ℕ → Option (Ended R)
  poll_until zero end n now = none
  poll_until (suc fuel) end n now =
      let after = now + fn.takes n in
      let turn = after_poll n after (poll_until fuel end (suc n) (after + nap)) (fn.poll n) in
      if ltb now end then turn else ended deadline_exceeded n now

  unfoldable pub wait : ℕ → ℕ → Option (Ended R)
  unfolding poll_until
  wait timeout now = poll_until (suc (suc (timeout / nap))) (now + timeout) 0 now

  -- The calls from `n` on that came before the last one gave nothing, and the wait ended for a reason.
  abbrev pub Fruitless : ℕ → Type 0
  Fruitless i = (fn.poll i ≡ falsy) ⊎ (fn.poll i ≡ os_error)

  abbrev pub Reason : ℕ → ℕ → Ended R → Waited R → Type 0
  Reason end n w (result r) =
      (i : ℕ) × (w.calls ≡ suc i) × (fn.poll i ≡ ready r) × ((j : ℕ) → n ≤ j → j < i → Fruitless j)
  Reason end n w deadline_exceeded = (end ≤ w.time) × ((j : ℕ) → n ≤ j → j < w.calls → Fruitless j)
  Reason end n w raised =
      (i : ℕ) × (w.calls ≡ suc i)
      × (fn.poll i ≡ other_error)
      × ((j : ℕ) → n ≤ j → j < i → Fruitless j)

  earlier :
      (n i : ℕ)
      → Fruitless n
      → ((j : ℕ) → suc n ≤ j → j < i → Fruitless j)
      → (j : ℕ) → n ≤ j
      → j < i
      → Fruitless j
  earlier n i here rest j h k = elim (Bool-cases (ltb n j)) [
    | inl later ↦ rest j (ground arith) k
    | inr first ↦ let same : n ≡ j = ground arith in subst Fruitless same here
  ]

  earlier-Reason :
      (end n : ℕ) (w : Ended R) (o : Waited R)
      → Fruitless n
      → Reason end (suc n) w o
      → Reason end n w o
  earlier-Reason end n w (result r) here (i, e, p, rest) = (i, e, p, earlier n i here rest)
  earlier-Reason end n w deadline_exceeded here (late, rest) = (late, earlier n w.calls here rest)
  earlier-Reason end n w raised here (i, e, p, rest) = (i, e, p, earlier n i here rest)

  poll_until_settles :
      (fuel end n now : ℕ)
      → end ≤ now + nap * (fuel - 1)
      → 0 < fuel
      → (w : Ended R) × (poll_until fuel end n now ≡ some w)
        × Reason end n w w.outcome
        × (w.calls < n + fuel)
  unfolding poll_until
  poll_until_settles zero end n now h k = absurd (omega arith)
  poll_until_settles (suc fuel) end n now h k = elim (Bool-cases (ltb now end)) [
    | inr late ↦ (
      record { outcome = deadline_exceeded; calls = n; time = now },
      rw (late) refl,
      (ground arith, λ j a b. absurd (omega arith)),
      omega arith,
    )
    | inl early ↦
        let after = now + fn.takes n in
        let left : 0 < fuel = ground arith in
        let next : (w : Ended R) × (poll_until fuel end (suc n) (after + nap) ≡ some w)
            × Reason end (suc n) w w.outcome
            × (w.calls < suc n + fuel) =
          poll_until_settles fuel end (suc n) (after + nap) (ground arith) (ground arith) in
        rw (early) (turn left after next (fn.poll n) refl)
  ]
    where
      turn :
          0 < fuel
          → (after : ℕ)
          → ((w : Ended R) × (poll_until fuel end (suc n) (after + nap) ≡ some w)
              × Reason end (suc n) w w.outcome
              × (w.calls < suc n + fuel))
          → (p : Poll R) → fn.poll n ≡ p
          → (w : Ended R) × (after_poll n after (poll_until fuel end (suc n) (after + nap)) p
              ≡ some w)
            × Reason end n w w.outcome
            × (w.calls < n + suc fuel)
      turn left after next (ready r) e =
          (_, refl, (n, refl, e, λ j a b. absurd (omega arith)), omega arith)
      turn left after next other_error e =
          (_, refl, (n, refl, e, λ j a b. absurd (omega arith)), omega arith)
      turn left after (w, q, r, m) falsy e =
          (w, q, earlier-Reason end n w w.outcome (inl e) r, omega arith)
      turn left after (w, q, r, m) os_error e =
          (w, q, earlier-Reason end n w w.outcome (inr e) r, omega arith)

  -- `wait` always ends, within one call for each 50 ms of its timeout and one more: with the first true
  -- result of `fn`, with the first error other than an `OSError`, or past its deadline; before that,
  -- every call gave a false result or an `OSError`.
  pub wait_settles :
      (timeout now : ℕ)
      → (w : Ended R) × (wait timeout now ≡ some w)
        × Reason (now + timeout) 0 w w.outcome
        × (w.calls ≤ timeout / nap + 1)
  unfolding wait
  wait_settles timeout now =
      let (w, e, r, m) =
        poll_until_settles (suc (suc (timeout / nap))) (now + timeout) 0 now (omega arith)
          (omega arith) in
      (w, e, r, omega arith)

  -- A wait does not end before it begins.
  poll_until_later :
      (fuel end n now : ℕ) (w : Ended R) → poll_until fuel end n now ≡ some w → now ≤ w.time
  unfolding poll_until
  poll_until_later zero end n now w e = cc
  poll_until_later (suc fuel) end n now w e = elim (Bool-cases (ltb now end)) [
    | inr late ↦
        let same : record { outcome = deadline_exceeded; calls = n; time = now } ≡ w =
          some-injective _ _ (rw (late) at e) in
        omega (arith, ap (λ x. x.time) same)
    | inl early ↦
        turn (poll_until_later fuel end (suc n) (now + fn.takes n + nap) w) (fn.poll n)
          (rw (early) at e)
  ]
    where
      turn :
          (poll_until fuel end (suc n) (now + fn.takes n + nap) ≡ some w
            → now + fn.takes n + nap ≤ w.time)
          → (p : Poll R)
          → after_poll n (now + fn.takes n) (poll_until fuel end (suc n) (now + fn.takes n + nap)) p
            ≡ some w
          → now ≤ w.time
      turn later (ready r) g =
          let same : record { outcome = result r; calls = suc n; time = now + fn.takes n } ≡ w =
            some-injective _ _ g in
          omega (arith, ap (λ x. x.time) same)
      turn later other_error g =
          let same : record { outcome = raised; calls = suc n; time = now + fn.takes n } ≡ w =
            some-injective _ _ g in
          omega (arith, ap (λ x. x.time) same)
      turn later falsy g = omega (arith, later g)
      turn later os_error g = omega (arith, later g)

  pub wait_later : (timeout now : ℕ) (w : Ended R) → wait timeout now ≡ some w → now ≤ w.time
  unfolding wait
  wait_later timeout now w e =
      poll_until_later (suc (suc (timeout / nap))) (now + timeout) 0 now w e
