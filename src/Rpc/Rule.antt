-- ===== src/Rpc/Rule.antt =====
-- The induction rule for the loop of `RPC.call`: it ends within its fuel, and what holds of the last
-- round and is kept by each round before it holds of the whole run.
use rungrid.Common.{
  ℕ, zero, suc, ◌+◌, ◌*◌, ◌/◌, ◌≤◌, ◌<◌, min, ◌≡◌, refl, ◌⊎◌, inl, inr, true, false, not, ◌||◌,
  Option, some, Text, arith, leb, Bool-cases,
}
use rungrid.Wire.{Method, Lease, Status, Request, Reply, Response, answered, rpc_error}
use rungrid.Rpc.Loop.{
  Link, Rpc, Round, Run, refused, retriable, round_timeout, stamp, sent, push, final_run, retry,
  call, build_request, first_delay, max_delay,
}

-- The call ended, and how it ended has the property.
pub record Returns {ℓ} {A : Type ℓ} (o : Option A) (P : A → Type 0) : Type ℓ where
  pub value : A
  pub ended : o ≡ some value
  pub holds : P value

returns {ℓ} : {A : Type ℓ} {P : A → Type 0} (a : A) → P a → Returns (some a) P
returns a h = record { value = a; ended = refl; holds = h }

pub Returns-map {ℓ} :
    {A : Type ℓ} {o : Option A} {P Q : A → Type 0}
    → ((a : A) → P a → Q a)
    → Returns o P
    → Returns o Q
Returns-map f h = record { value = h.value; ended = h.ended; holds = f h.value h.holds }

module _ (link : Link) (m : Method) (req : Request) (started end : ℕ) where
  abbrev pub limit_at : ℕ → ℕ
  limit_at now = round_timeout req.wait_seconds end now

  abbrev pub after_at : ℕ → ℕ → ℕ
  after_at i now = now + link.takes i (limit_at now)

  abbrev pub next_at : ℕ → ℕ → ℕ → ℕ
  next_at i delay now = after_at i now + delay + link.oversleeps i

  -- The delays that occur.
  abbrev pub IsDelay : ℕ → Type 0
  IsDelay delay = (first_delay ≤ delay) × (delay ≤ max_delay)

  -- What a proof about the loop gives for each of its three ways on.
  pub record Rule (P : ℕ → ℕ → ℕ → Run → Type 0) : Type 0 where
    pub on_answer :
        (i delay now : ℕ) (r : Response)
        → IsDelay delay
        → link.answer i m req (limit_at now) ≡ answered r
        → P i delay now (final_run req (limit_at now) (after_at i now) (stamp started r))
    pub on_refusal :
        (i delay now : ℕ) (code : Status)
        → IsDelay delay
        → link.answer i m req (limit_at now) ≡ rpc_error code
        → (retriable code ≡ false) ⊎ (end ≤ after_at i now + delay)
        → P i delay now (final_run req (limit_at now) (after_at i now) (refused code))
    pub on_retry :
        (i delay now : ℕ) (code : Status) (run : Run)
        → IsDelay delay
        → link.answer i m req (limit_at now) ≡ rpc_error code
        → retriable code ≡ true
        → after_at i now + delay < end
        → P (suc i) (min (delay * 2) max_delay) (next_at i delay now) run
        → P i delay now
            (push (record { request = req; timeout = limit_at now; slept = some delay }) run)

  Returns-sent :
      {P Q : Run → Type 0} {o : Option Run} (r : Round)
      → ((run : Run) → Q run → P (push r run))
      → Returns o Q
      → Returns (sent r o) P
  Returns-sent {P = P} r keep h =
      rw (h.ended) (returns {P = P} (push r h.value) (keep h.value h.holds))

  -- What is left of the time is enough fuel, since each delay is 100 ms or more.
  pub retry-Returns :
      (P : ℕ → ℕ → ℕ → Run → Type 0)
      → Rule P
      → (fuel i delay now : ℕ) → IsDelay delay
      → end < now + 100 * fuel
      → 0 < fuel
      → Returns (retry link m req started end fuel i delay now) (P i delay now)
  unfolding retry
  retry-Returns P rule zero i delay now d h p = absurd (omega arith)
  retry-Returns P rule (suc fuel) i delay now d h p =
      go (link.answer i m req (limit_at now)) refl (λ more.
        retry-Returns P rule fuel (suc i) (min (delay * 2) max_delay) (next_at i delay now)
          (omega arith) (omega arith) (omega arith))
    where
      go :
          (a : Reply)
          → link.answer i m req (limit_at now) ≡ a
          → (after_at i now + delay < end
              → Returns
                  (retry link m req started end fuel
                    (suc i)
                    (min (delay * 2) max_delay)
                    (next_at i delay now))
                  (P (suc i) (min (delay * 2) max_delay) (next_at i delay now)))
          → Returns (retry link m req started end (suc fuel) i delay now) (P i delay now)
      go (answered r) e ih = rw (e, retry) (returns _ (rule.on_answer i delay now r d e))
      go (rpc_error code) e ih =
          rw (e, retry)
            (elim (Bool-cases (not (retriable code) || leb end (after_at i now + delay))) [
              | inl stop ↦
                  rw (stop) (returns _ (rule.on_refusal i delay now code d e (ground arith)))
              | inr more ↦ rw (more) (
                  Returns-sent _
                    (λ run q.
                      rule.on_retry i delay now code run d e (ground arith) (ground arith) q)
                    (ih (ground arith)))
            ])

-- The same for a whole call.
pub call-Returns :
    (link : Link) (rpc : Rpc) (m : Method) (lease : Option Lease) (timeout wait started : ℕ)
    → (request_id : Option Text) (payload fresh : Text) → (P : ℕ → ℕ → ℕ → Run → Type 0)
    → Rule link m
        (build_request rpc lease wait request_id payload fresh)
        started
        (started + timeout)
        P
    → Returns
        (call link rpc m lease timeout wait request_id payload fresh started)
        (P 0 first_delay started)
unfolding call
call-Returns link rpc m lease timeout wait started request_id payload fresh P rule =
    retry-Returns link m (build_request rpc lease wait request_id payload fresh) started
      (started + timeout) P rule (suc (timeout / 100)) 0 first_delay started (omega arith)
      (omega arith) (omega arith)
