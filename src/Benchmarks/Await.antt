-- ===== src/Benchmarks/Await.antt =====
-- `run_case` of benchmarks/run.py: how it waits for its jobs. The clock is in milliseconds from the
-- start of the workers on.
use rungrid.Common.{
  ℕ, zero, suc, ◌+◌, ◌-◌, ◌*◌, ◌/◌, ◌≤◌, ◌<◌, ◌≡◌, refl, ap, ◌∙◌, Bool, true, false, not, inl, inr,
  Bool-cases, Option, none, some, List, [], ◌∷◌, length, ltb, ◌==◌, if◌then◌else◌, Text, arith,
}
use rungrid.Wire.{is_terminal}
use rungrid.Study.Protocols.{among}

-- The columns of `database_samples` that the loop and the summary read, as texts. A job has one row for each of
-- its attempts.
pub record Sample : Type 0 where
  pub id : Text
  pub state : Text
  pub attempt_number : Text
  pub latency : Text
  pub leased_at : Text

-- A set of ids, in the order in which they are first left out of the rest.
unfoldable pub add_id : Text → List Text → List Text
unfolding among
add_id i ids = if among i ids then ids else i ∷ ids

-- `{r["id"] for r in rows if test(r["state"])}`
unfoldable pub ids_where : (Text → Bool) → List Sample → List Text
unfolding add_id
ids_where test [] = []
ids_where test (r ∷ rs) =
    let rest = ids_where test rs in if test r.state then add_id r.id rest else rest

-- Whether the queries succeed, what they return and how long they take, by the number of queries before.
pub record Database : Type 0 where
  pub reads : ℕ → Bool
  pub rows : ℕ → List Sample
  pub takes : ℕ → ℕ

pub data Awaited : Type 0 where
  -- The last rows, and the time that has elapsed.
  elapsed : List Sample → ℕ → Awaited
  timed_out : ℕ → Awaited
  -- The number of the query that failed.
  unread : ℕ → Awaited

abbrev pub pause_ms : ℕ
pause_ms = 500

module _ (db : Database) (count timeout : ℕ) where
  abbrev pub all_terminal : ℕ → Bool
  all_terminal n = length (ids_where is_terminal (db.rows n)) == count

  -- The loop, on fuel: `none` means that the fuel ran out.
  unfoldable pub await_from : ℕ → ℕ → ℕ → Option Awaited
  unfolding ids_where
  await_from zero n now = none
  await_from (suc fuel) n now =
      let after = now + db.takes n in
      let rest = await_from fuel (suc n) (after + pause_ms) in
      if not (db.reads n)
      then some (unread n)
      else if all_terminal n
      then some (elapsed (db.rows n) after)
      else if ltb timeout after
      then some (timed_out after)
      else rest

  unfoldable pub await_jobs : Option Awaited
  unfolding await_from
  await_jobs = await_from (suc (suc (timeout / pause_ms))) 0 0

  -- Why the loop ends.
  abbrev pub Settled : Awaited → Type 0
  Settled (elapsed rows now) =
      (n : ℕ) × (rows ≡ db.rows n) × (length (ids_where is_terminal rows) ≡ count)
  Settled (timed_out now) = timeout < now
  Settled (unread n) = db.reads n ≡ false

  await_from_settles :
      (fuel n now : ℕ)
      → timeout < now + pause_ms * (fuel - 1)
      → 0 < fuel
      → (a : Awaited) × (await_from fuel n now ≡ some a) × Settled a
  unfolding await_from
  await_from_settles zero n now h k = absurd (omega arith)
  await_from_settles (suc fuel) n now h k = elim (Bool-cases (db.reads n)) [
    | inr fails ↦ (unread n, rw (fails) refl, fails)
    | inl reads ↦ elim (Bool-cases (all_terminal n)) [
      | inl all ↦ (
        elapsed (db.rows n) (now + db.takes n),
        rw (reads, all) refl,
        (n, refl, ground (arith, all)),
      )
      | inr not_all ↦
          let after = now + db.takes n in
          elim (Bool-cases (ltb timeout after)) [
            | inl late ↦ (timed_out after, rw (reads, not_all, late) refl, ground (arith, late))
            | inr early ↦
                let (a, e, s) =
                  await_from_settles fuel (suc n) (after + pause_ms) (omega (arith, h))
                    (ground (arith, early, h)) in
                (a, rw (reads, not_all, early) e, s)
          ]
    ]
  ]

  -- From the `n`-th poll on, if the `k`-th finds all jobs terminal in time.
  await_from_lives :
      (k limit : ℕ)
      → ((n : ℕ) → db.reads n ≡ true)
      → ((n : ℕ) → db.takes n ≤ limit)
      → all_terminal k ≡ true
      → k * (limit + pause_ms) + limit ≤ timeout
      → (fuel n now left : ℕ) → n + left ≡ k
      → left < fuel
      → now + left * (limit + pause_ms) ≤ k * (limit + pause_ms)
      → (rows : List Sample) × (time : ℕ) × (await_from fuel n now ≡ some (elapsed rows time))
        × (time ≤ k * (limit + pause_ms) + limit)
  unfolding await_from
  await_from_lives k limit reads quick ends fits zero n now left e f h = absurd (omega arith)
  await_from_lives k limit reads quick ends fits (suc fuel) n now zero e f h =
      let here : n ≡ k = omega (arith, e) in
      let all : all_terminal n ≡ true = ap all_terminal here ∙ ends in
      (db.rows n, now + db.takes n, rw (reads n, all) refl, grind (arith, quick n, h))
  await_from_lives k limit reads quick ends fits (suc fuel) n now (suc left) e f h =
      elim (Bool-cases (all_terminal n)) [
        | inl all ↦ (db.rows n, now + db.takes n, rw (reads n, all) refl, grind (arith, quick n, h))
        | inr not_all ↦
            let after = now + db.takes n in
            let step : after + pause_ms + left * (limit + pause_ms) ≤ k * (limit + pause_ms) =
              grind (arith, quick n, h) in
            let early : ltb timeout after ≡ false = grind (arith, step, fits) in
            let (rows, time, q, bound) =
              await_from_lives k limit reads quick ends fits fuel (suc n) (after + pause_ms) left
                (omega (arith, e)) (omega (arith, f)) step in
            (rows, time, rw (reads n, not_all, early) q, bound)
      ]

  -- The loop always ends: with the rows of a poll that finds as many jobs in terminal states as were
  -- submitted, past its timeout, or in a query that fails.
  pub await_jobs_settles : (a : Awaited) × (await_jobs ≡ some a) × Settled a
  unfolding await_jobs
  await_jobs_settles =
      await_from_settles (suc (suc (timeout / pause_ms))) 0 0 (omega arith) (omega arith)

  -- If every query succeeds, none takes longer than `limit`, and the poll number `k` finds all jobs terminal early enough,
  -- the loop returns the rows, and not later than after that poll.
  pub await_jobs_lives :
      (k limit : ℕ)
      → ((n : ℕ) → db.reads n ≡ true)
      → ((n : ℕ) → db.takes n ≤ limit)
      → all_terminal k ≡ true
      → k * (limit + pause_ms) + limit ≤ timeout
      → (rows : List Sample) × (time : ℕ) × (await_jobs ≡ some (elapsed rows time))
        × (time ≤ k * (limit + pause_ms) + limit)
  unfolding await_jobs
  await_jobs_lives k limit reads quick ends fits =
      await_from_lives k limit reads quick ends fits (suc (suc (timeout / pause_ms))) 0 0 k
        (omega arith) (grind (arith, fits)) (omega arith)
