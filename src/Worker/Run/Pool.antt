-- ===== src/Worker/Run/Pool.antt =====
-- The pool never holds more attempts than the worker has CPUs.
use mathlib.Core.Path.{subst}
use rungrid.Common.{
  ℕ, ◌+◌, ◌-◌, ◌≤◌, ◌<◌, ◌≡◌, refl, inl, inr, Bool, true, false, ◌&&◌, Option, none, some, List, [],
  ◌∷◌, arith, length, length-append, leb, ltb, Bool-cases, if◌then◌else◌,
}
use rungrid.Wire.{Method, lease_job, heartbeat, Status, Lease}
use rungrid.Worker.Run.{
  Round, Asked, Supervisor, Offer, idle, granted, offer_error, error_of, sweep, ask, take_offer,
  lease_round, after_beat, run_round, run_rounds, registering, run,
}

abbrev is_beat : Method → Bool
is_beat heartbeat = true
is_beat _ = false

-- When the newest accepted heartbeat came back; the newest call comes first.
abbrev pub last_beat : List Asked → Option ℕ
last_beat [] = none
last_beat (a ∷ asks) = if is_beat a.method && a.accepted then some a.over else last_beat asks

-- At most 3 s after a heartbeat, and before the first one at most 3 s on the clock.
abbrev pub Recent : ℕ → Option ℕ → Type 0
Recent t none = t ≤ 3000
Recent t (some b) = t ≤ b + 3000

-- A lease is asked for only with a free place and a fresh heartbeat.
abbrev pub Fair : ℕ → List Asked → Type 0
Fair cpu [] = Unit
Fair cpu (a ∷ asks) =
    (a.method ≡ lease_job → (a.busy < cpu) × Recent a.begun (last_beat asks)) × Fair cpu asks

abbrev beat_time : Option ℕ → ℕ
beat_time none = 0
beat_time (some b) = b

pub record IsBounded (cpu : ℕ) (s : Supervisor) : Type 0 where
  pub places : length s.futures ≤ cpu
  pub fair : Fair cpu s.asked
  pub beaten : s.last_heartbeat ≡ beat_time (last_beat s.asked)

recent : (t : ℕ) (b : Option ℕ) → t - beat_time b ≤ 3000 → Recent t b
recent t none h = omega (arith, h)
recent t (some b) h = omega (arith, h)

length-sweep-le :
    (finished : Lease → Bool) (ls : List Lease) → length (sweep finished ls) ≤ length ls
unfolding sweep
length-sweep-le finished [] = omega arith
length-sweep-le finished (l ∷ ls) = ground (arith, length-sweep-le finished ls)

-- The one place where the pool grows.
take_offer-IsBounded :
    (cpu : ℕ) (o : Offer) (s : Supervisor)
    → length s.futures < cpu
    → Fair cpu s.asked
    → s.last_heartbeat ≡ beat_time (last_beat s.asked)
    → IsBounded cpu (take_offer o s)
take_offer-IsBounded cpu idle s h f b = record { places = omega (arith, h); fair = f; beaten = b }
take_offer-IsBounded cpu (granted l) s h f b = record {
  places = omega (arith, h, length-append s.futures (l ∷ []));
  fair = f;
  beaten = b;
}
take_offer-IsBounded cpu (offer_error code) s h f b = record {
  places = omega (arith, h);
  fair = f;
  beaten = b;
}

lease_round-IsBounded :
    (cpu : ℕ) (r : Round) (s : Supervisor)
    → s.now - s.last_heartbeat ≤ 3000
    → IsBounded cpu s
    → IsBounded cpu (lease_round cpu r s)
unfolding lease_round
lease_round-IsBounded cpu r s fresh h = elim (Bool-cases (leb cpu (length s.futures))) [
  | inl full ↦ rw (full) (record { places = h.places; fair = h.fair; beaten = h.beaten })
  | inr free ↦ rw (free) (
      take_offer-IsBounded cpu r.offer (ask lease_job r.lease_takes (error_of r.offer) s)
        (ground (arith, free))
        (
          (λ e. (
            ground (arith, free),
            recent s.now (last_beat s.asked) (subst (λ b. s.now - b ≤ 3000) h.beaten fresh),
          )),
          h.fair,
        )
        h.beaten)
]

after_beat-IsBounded :
    (cpu : ℕ) (r : Round) (b : Option Status) (s : Supervisor)
    → IsBounded cpu s
    → IsBounded cpu (after_beat cpu r b (ask heartbeat r.beat_takes b s))
after_beat-IsBounded cpu r none s h =
    lease_round-IsBounded cpu r
      (record (ask heartbeat r.beat_takes none s) { last_heartbeat = s.now + r.beat_takes })
      (omega arith) (record { places = h.places; fair = ((λ e. cc), h.fair); beaten = refl })
after_beat-IsBounded cpu r (some code) s h = record {
  places = h.places;
  fair = ((λ e. cc), h.fair);
  beaten = h.beaten;
}

swept-IsBounded :
    (cpu : ℕ) (finished : Lease → Bool) (s : Supervisor)
    → IsBounded cpu s
    → IsBounded cpu (record s { futures = sweep finished s.futures })
swept-IsBounded cpu finished s h = record {
  places = omega (arith, length-sweep-le finished s.futures, h.places);
  fair = h.fair;
  beaten = h.beaten;
}

run_round-IsBounded :
    (cpu : ℕ) (r : Round) (s : Supervisor) → IsBounded cpu s → IsBounded cpu (run_round cpu r s)
unfolding run_round
run_round-IsBounded cpu r s h =
    let s' = record s { futures = sweep r.finished s.futures } in
    let h' = swept-IsBounded cpu r.finished s h in
    elim (Bool-cases (ltb 3000 (s.now - s.last_heartbeat))) [
      | inl old ↦ rw (old) (after_beat-IsBounded cpu r r.beat s' h')
      | inr fresh ↦ rw (fresh) (lease_round-IsBounded cpu r s' (ground (arith, fresh)) h')
    ]

run_rounds-IsBounded :
    (cpu : ℕ) (rs : List Round) (s : Supervisor)
    → IsBounded cpu s
    → IsBounded cpu (run_rounds cpu rs s)
unfolding run_rounds
run_rounds-IsBounded cpu [] s h = h
run_rounds-IsBounded cpu (r ∷ rs) s h =
    run_rounds-IsBounded cpu rs (run_round cpu r s) (run_round-IsBounded cpu r s h)

registering-IsBounded :
    (cpu now : ℕ) (refused : Option Status) → IsBounded cpu (registering now refused)
registering-IsBounded cpu now refused = record {
  places = omega arith;
  fair = ((λ e. cc), tt);
  beaten = refl;
}

-- Through every run of the worker, the pool never holds more attempts than the worker has CPUs.
-- `LeaseJob` is called only with fewer attempts than CPUs, and at most 3 s after the newest accepted
-- heartbeat of the worker came back, or, while there was none, before the clock shows more than 3 s.
pub run-IsBounded :
    (cpu now : ℕ) (refused : Option Status) (rounds : List Round) (released : Option Status)
    → IsBounded cpu (run cpu now refused rounds released)
unfolding run
run-IsBounded cpu now (some code) rounds released = registering-IsBounded cpu now (some code)
run-IsBounded cpu now none rounds released =
    let h =
      run_rounds-IsBounded cpu rounds (registering now none) (registering-IsBounded cpu now none) in
    record { places = h.places; fair = ((λ e. cc), h.fair); beaten = h.beaten }
