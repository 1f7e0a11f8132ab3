-- ===== src/Benchmarks/Measures.antt =====
-- What `case` of benchmarks/recovery.py measures, and which worker it kills.
use mathlib.Core.Path.{subst}
use mathlib.Core.Option.{some-injective}
use rungrid.Common.{
  ℕ, ◌+◌, ◌≤◌, ◌≡◌, refl, sym, ap, ◌∙◌, true, inl, inr, Bool-cases, Option, none, some, List, [],
  ◌∷◌, ◌++◌, append_assoc, Text, codes, text_eq, text_eq_sound, Lacks, cut_first, All, arith,
  starts_with, starts_with_sound,
}
use rungrid.Worker.Start.{fresh_id}
use rungrid.Study.Aggregate.{last_of}
use rungrid.Benchmarks.Wait.{
  Polled, Waited, Ended, result, deadline_exceeded, raised, wait, wait_later,
}
use rungrid.Benchmarks.Recovery.{
  Fault, worker_kill, Cluster, Measured, Case, case_error, measured, not_succeeded, find_target,
  time_of, waited_time, wait_until, finish, complete, recovered, kill_target, when_running,
  recovery_case,
}

wait_until_later : (fn : Polled (Unit {0})) (now t : ℕ) → wait_until fn now ≡ measured t → now ≤ t
unfolding wait_until
wait_until_later fn now t e = ended (wait fn 90000 now) refl e
  where
    timed : (o : Waited (Unit {0})) (s : ℕ) → time_of o s ≡ measured t → s ≡ t
    timed (result r) s g = cc
    timed deadline_exceeded s g = cc
    timed raised s g = cc

    ended :
        (o : Option (Ended (Unit {0})))
        → wait fn 90000 now ≡ o
        → waited_time o ≡ measured t
        → now ≤ t
    ended none q g = cc
    ended (some w) q g = omega (arith, wait_later fn 90000 now w q, timed w.outcome w.time g)

-- A result: the job has succeeded, and was completed after the recovery began to show.
abbrev pub IsRecovered : Option Text → Measured → Type 0
IsRecovered killed m =
    (m.killed ≡ killed) × (m.state ≡ codes "SUCCEEDED") × (m.first_ms ≤ m.completion_ms)

module _ (w : Cluster) where
  finish-is :
      (m m' : Measured) → finish w m ≡ measured m' → (m ≡ m') × (m.state ≡ codes "SUCCEEDED")
  finish-is m m' e = elim (Bool-cases (text_eq m.state (codes "SUCCEEDED"))) [
    | inl won ↦
        let good : ◌≡◌ {A = Case Measured} (measured m) (measured m') = rw (won) at e in
        (cc, text_eq_sound m.state (codes "SUCCEEDED") won)
    | inr lost ↦
        let bad : ◌≡◌ {A = Case Measured} (case_error not_succeeded) (measured m') =
          rw (lost) at e in
        cc
  ]

  fault-IsRecovered :
      (fault : Fault) (killed : Option Text) (start first : ℕ) (m : Measured)
      → start ≤ first
      → complete w fault killed start first (wait_until w.completed first) ≡ measured m
      → IsRecovered killed m
  fault-IsRecovered fault killed start first m h e = completes (wait_until w.completed first) refl e
    where
      completes :
          (c : Case ℕ)
          → wait_until w.completed first ≡ c
          → complete w fault killed start first c ≡ measured m
          → IsRecovered killed m
      completes (case_error x) q g = cc
      completes (measured end) q g =
          let (same, succeeded) = finish-is _ m g in
          let later = wait_until_later w.completed first end q in
          (
            sym (ap (λ x. x.killed) same),
            sym (ap (λ x. x.state) same) ∙ succeeded,
            omega (arith, later, ap (λ x. x.first_ms) same, ap (λ x. x.completion_ms) same),
          )

  recovered-after :
      (fault : Fault) (killed : Option Text) (start begun : ℕ) (fn : Polled (Unit {0}))
      (m : Measured)
      → start ≤ begun
      → recovered w fault killed start (wait_until fn begun) ≡ measured m
      → IsRecovered killed m
  recovered-after fault killed start begun fn m h e = shows (wait_until fn begun) refl e
    where
      shows :
          (c : Case ℕ)
          → wait_until fn begun ≡ c
          → recovered w fault killed start c ≡ measured m
          → IsRecovered killed m
      shows (case_error x) q g = cc
      shows (measured first) q g =
          fault-IsRecovered fault killed start first m
            (omega (arith, wait_until_later fn begun first q)) g

  find_target-is :
      (worker target : Text) (cs : List Text)
      → All (λ c. Lacks b'-' (w.hostname c)) cs
      → find_target w.hostname worker cs ≡ some target
      → Lacks b'-' (w.hostname target)
        × (starts_with worker (w.hostname target ++ codes "-") ≡ true)
  unfolding find_target
  find_target-is worker target [] h e = cc
  find_target-is worker target (c ∷ cs) h e =
      elim (Bool-cases (starts_with worker (w.hostname c ++ codes "-"))) [
        | inl hit ↦
            let same : c ≡ target = some-injective c target (rw (hit) at e) in
            subst
              (λ t.
                Lacks b'-' (w.hostname t) × (starts_with worker (w.hostname t ++ codes "-") ≡ true))
              same (h.0, hit)
        | inr miss ↦ find_target-is worker target cs h.1 (rw (miss) at e)
      ]

  -- A worker's id begins with its own container's host name and a dash, and with no other's.
  find_target-host :
      (host uuid target : Text) (cs : List Text)
      → Lacks b'-' host
      → All (λ c. Lacks b'-' (w.hostname c)) cs
      → find_target w.hostname (fresh_id host uuid) cs ≡ some target
      → w.hostname target ≡ host
  find_target-host host uuid target cs own h e =
      let (lacks, begins) = find_target-is (fresh_id host uuid) target cs h e in
      let (rest, q) =
        starts_with_sound (fresh_id host uuid) (w.hostname target ++ codes "-") begins in
      sym
        (cut_first b'-' host (w.hostname target) uuid rest own lacks
          (q ∙ append_assoc (w.hostname target) (codes "-") rest)).0

  -- When the kill case returns, the killed container is the one whose host name the last attempt's
  -- worker has in its id, if host names hold no dash; the job has succeeded; and the replacement's
  -- lease did not come after the completion.
  pub recovery_case-kills :
      (now : ℕ) (host uuid : Text) (m : Measured)
      → last_of w.workers ≡ some (fresh_id host uuid)
      → Lacks b'-' host
      → All (λ c. Lacks b'-' (w.hostname c)) w.containers
      → recovery_case w worker_kill now ≡ measured m
      → (target : Text) × (w.hostname target ≡ host) × IsRecovered (some target) m
  unfolding recovery_case
  recovery_case-kills now host uuid m last own hosts e = runs (wait_until w.running now) e
    where
      kills :
          (now : ℕ) (o : Option Text)
          → find_target w.hostname (fresh_id host uuid) w.containers ≡ o
          → kill_target w now o ≡ measured m
          → (target : Text) × (w.hostname target ≡ host) × IsRecovered (some target) m
      kills now none q g = cc
      kills now (some target) q g = (
        target,
        find_target-host host uuid target w.containers own hosts q,
        recovered-after worker_kill (some target) (now + w.fault_takes) (now + w.fault_takes)
            w.replaced m (omega arith) g,
      )

      runs :
          (c : Case ℕ)
          → when_running w worker_kill c ≡ measured m
          → (target : Text) × (w.hostname target ≡ host) × IsRecovered (some target) m
      runs (case_error x) g = cc
      runs (measured at_once) g =
          kills at_once (find_target w.hostname (fresh_id host uuid) w.containers) refl
            (rw (last) at g)
