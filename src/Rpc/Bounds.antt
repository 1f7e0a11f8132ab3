-- ===== src/Rpc/Bounds.antt =====
-- How long a call of the control plane lasts, how often it sends, and how it backs off.
use native.Mathlib.Nat.{pow-suc}
use rungrid.Common.{
  ℕ, suc, ◌+◌, ◌-◌, ◌*◌, ◌/◌, ◌^◌, ◌≤◌, min, ◌≡◌, refl, Option, none, some, List, [], ◌∷◌, arith,
  ap, length, Text, All,
}
use rungrid.Wire.{Method, Request, Lease}
use rungrid.Rpc.Loop.{Link, Rpc, Round, Run, round_timeout, call, build_request}
use rungrid.Rpc.Rule.{Returns, Returns-map, Rule, call-Returns}

pub round_timeout_bounds :
    (wait end now : ℕ)
    → (10 ≤ round_timeout wait end now) × (round_timeout wait end now ≤ 5010 + 1000 * wait)
unfolding round_timeout
round_timeout_bounds wait end now = omega arith

round_timeout-le :
    (wait end now w : ℕ) → now ≤ end + w → now + round_timeout wait end now ≤ end + w + 10
unfolding round_timeout
round_timeout-le wait end now w h = omega arith

-- Each round sends the one request, and waits for it for a bounded time.
abbrev pub IsRound : Request → Round → Type 0
IsRound req r = (r.request ≡ req) × (10 ≤ r.timeout) × (r.timeout ≤ 5010 + 1000 * req.wait_seconds)

IsRound-now :
    (req : Request) (end now : ℕ) (s : Option ℕ)
    → IsRound req
        (record { request = req; timeout = round_timeout req.wait_seconds end now; slept = s })
IsRound-now req end now s =
    let (low, high) = round_timeout_bounds req.wait_seconds end now in (refl, low, high)

-- The sleep after round `i`.
unfoldable pub backoff : ℕ → ℕ
backoff i = min (100 * 2 ^ i) 1000

backoff-suc : (i : ℕ) → min (backoff i * 2) 1000 ≡ backoff (suc i)
unfolding backoff
backoff-suc i = omega (arith, pow-suc 2 i)

-- From round `i` on, every round but the last is followed by the sleep of its place.
abbrev pub BacksOff : ℕ → List Round → Type 0
BacksOff i [] = ⊥
BacksOff i (r ∷ []) = r.slept ≡ none
BacksOff i (r ∷ s ∷ rs) = (r.slept ≡ some (backoff i)) × BacksOff (suc i) (s ∷ rs)

BacksOff-cons :
    (i d : ℕ) (req : Request) (limit : ℕ) (rs : List Round)
    → d ≡ backoff i
    → BacksOff (suc i) rs
    → BacksOff i (record { request = req; timeout = limit; slept = some d } ∷ rs)
BacksOff-cons i d req limit [] q h = absurd h
BacksOff-cons i d req limit (s ∷ rs) q h = (ap some q, h)

-- `wait_for_ready` calls end by their timeout, and a sleep is at most `late` too long.
abbrev pub Punctual : Link → ℕ → Type 0
Punctual link late =
    ((i limit : ℕ) → link.takes i limit ≤ limit) × ((i : ℕ) → link.oversleeps i ≤ late)

module _ (link : Link) (m : Method) (req : Request) (started end : ℕ) where
  abbrev Sends : ℕ → ℕ → ℕ → Run → Type 0
  Sends i delay now run =
      All (IsRound req) run.rounds × (length run.rounds ≤ suc ((end - now) / 100))

  Sends-Rule : Rule link m req started end Sends
  Sends-Rule = record {
    on_answer = λ i delay now r d e. ((IsRound-now req end now none, tt), omega arith);
    on_refusal = λ i delay now code d e stop. ((IsRound-now req end now none, tt), omega arith);
    on_retry = λ i delay now code run d e again time ih.
        ((IsRound-now req end now (some delay), ih.0), omega arith);
  }

  abbrev Backs : ℕ → ℕ → ℕ → Run → Type 0
  Backs i delay now run = delay ≡ backoff i → BacksOff i run.rounds

  Backs-Rule : Rule link m req started end Backs
  Backs-Rule = record {
    on_answer = λ i delay now r d e q. refl;
    on_refusal = λ i delay now code d e stop q. refl;
    on_retry = λ i delay now code run d e again time ih q.
        BacksOff-cons i delay req (round_timeout req.wait_seconds end now) run.rounds q
          (ih (rw q (backoff-suc i)));
  }

  abbrev Ends : ℕ → ℕ → ℕ → ℕ → Run → Type 0
  Ends late i delay now run = now ≤ end + late → run.finished ≤ end + late + 10

  Ends-Rule : (late : ℕ) → Punctual link late → Rule link m req started end (Ends late)
  Ends-Rule late p = record {
    on_answer = λ i delay now r d e h. omega (
      arith,
      p.0 i (round_timeout req.wait_seconds end now),
      round_timeout-le req.wait_seconds end now late h,
    );
    on_refusal = λ i delay now code d e stop h. omega (
      arith,
      p.0 i (round_timeout req.wait_seconds end now),
      round_timeout-le req.wait_seconds end now late h,
    );
    on_retry = λ i delay now code run d e again time ih h. ih (omega (arith, p.1 i));
  }

module _ (link : Link) (rpc : Rpc) (m : Method) (lease : Option Lease)
    (timeout wait started : ℕ) where
  module _ (request_id : Option Text) (payload fresh : Text) where
    -- A call returns or raises after at most one round for each 100 ms of its timeout, and one
    -- more. Every round sends the same request, with the one request id, and waits for it for at
    -- least 10 ms and at most 5010 ms more than the seconds that the request asks the server to wait.
    pub call_sends :
        Returns (call link rpc m lease timeout wait request_id payload fresh started) λ run.
          All (IsRound (build_request rpc lease wait request_id payload fresh)) run.rounds
          × (length run.rounds ≤ suc (timeout / 100))
    call_sends =
        let req = build_request rpc lease wait request_id payload fresh in
        Returns-map (λ run h. (h.0, omega (arith, h.1)))
          (call-Returns link rpc m lease timeout wait started request_id payload fresh _
            (Sends-Rule link m req started (started + timeout)))

    -- A call returns or raises, and after round `i`, counted from 0, it sleeps for 100 ms doubled `i`
    -- times, but for 1000 ms at most; after its last round it does not sleep.
    pub call-BacksOff :
        Returns
          (call link rpc m lease timeout wait request_id payload fresh started)
          λ run. BacksOff 0 run.rounds
    unfolding backoff
    call-BacksOff =
        let req = build_request rpc lease wait request_id payload fresh in
        Returns-map (λ run h. h refl)
          (call-Returns link rpc m lease timeout wait started request_id payload fresh _
            (Backs-Rule link m req started (started + timeout)))

    -- If the transport keeps its timeouts and no sleep is more than `late` too long, a call ends at
    -- most 10 ms and `late` after its timeout.
    pub call_ends :
        (late : ℕ)
        → Punctual link late
        → Returns
            (call link rpc m lease timeout wait request_id payload fresh started)
            λ run. run.finished ≤ started + timeout + late + 10
    call_ends late p =
        let req = build_request rpc lease wait request_id payload fresh in
        Returns-map (λ run h. h (omega arith))
          (call-Returns link rpc m lease timeout wait started request_id payload fresh _
            (Ends-Rule link m req started (started + timeout) late p))
