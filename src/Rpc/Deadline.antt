-- ===== src/Rpc/Deadline.antt =====
-- How a call of the control plane ends, and what the deadline that it adds to an answer is worth.
use rungrid.Common.{
  ℕ, ◌+◌, ◌-◌, ◌≤◌, ◌<◌, ◌≡◌, ◌≢◌, refl, ap, ◌⊎◌, inl, inr, Bool-cases, true, false, Option, none,
  some, Text, arith,
}
use rungrid.Wire.{
  unavailable, deadline_exceeded, Method, Status, Request, Lease, Response, answered, rpc_error,
}
use rungrid.Rpc.Loop.{
  Link, Rpc, Run, Outcome, Answer, returned, refused, retriable, stamps, stamp, call, build_request,
}
use rungrid.Rpc.Rule.{Returns, Rule, call-Returns}

-- The outcome is that of some answer, or an error of the transport that is not tried again or
-- comes when at most a second is left.
abbrev pub Concludes : Link → Method → Request → ℕ → ℕ → Run → Type 0
Concludes link m req started end run =
    ((i : ℕ) × (limit : ℕ) × (r : Response) × (link.answer i m req limit ≡ answered r)
      × (run.outcome ≡ stamp started r))
    ⊎ ((i : ℕ) × (limit : ℕ) × (code : Status) × (link.answer i m req limit ≡ rpc_error code)
        × (run.outcome ≡ refused code)
        × (((code ≢ unavailable) × (code ≢ deadline_exceeded)) ⊎ (end ≤ run.finished + 1000)))

-- The server's clock is `offset` ahead of the worker's, and it stamps an answer only after the
-- request was first sent.
abbrev pub StampsLater : Link → Method → ℕ → ℕ → Type 0
StampsLater link m offset started =
    (i : ℕ) (req : Request) (limit : ℕ) (r : Response) (server : ℕ)
    → link.answer i m req limit ≡ answered r
    → r.server_time ≡ some server
    → started + offset ≤ server

-- Before the local deadline of an answer, its lease has more than half a second left on the
-- server's clock.
abbrev pub Outlives : ℕ → Outcome → Type 0
Outlives offset o =
    (a : Answer) (d e t : ℕ)
    → o ≡ returned a
    → a.local_deadline ≡ some d
    → a.response.lease_expires_at ≡ some e
    → t < d
    → t + offset + 500 < e

deadline-lt :
    (started e s d : ℕ) (offset t : ℕ)
    → started + offset ≤ s
    → t < started + e - (s + 500)
    → t + offset + 500 < e
deadline-lt started e s d offset t h l = omega arith

stamps-Outlives :
    (started offset : ℕ) (r : Response) (x s : Option ℕ)
    → r.lease_expires_at ≡ x
    → ((server : ℕ) → s ≡ some server → started + offset ≤ server)
    → Outlives offset (stamps started r x s)
unfolding stamps
stamps-Outlives started offset r none s rx late a d e t q l x lt = ground arith
stamps-Outlives started offset r (some expires) none rx late a d e t q l x lt = cc
stamps-Outlives started offset r (some expires) (some server) rx late a d e t q l x lt =
    ground (arith, late server refl, deadline-lt started expires server d offset t)

stamp-Outlives :
    (started offset : ℕ) (r : Response)
    → ((server : ℕ) → r.server_time ≡ some server → started + offset ≤ server)
    → Outlives offset (stamp started r)
unfolding stamp
stamp-Outlives started offset r =
    stamps-Outlives started offset r r.lease_expires_at r.server_time refl

module _ (link : Link) (m : Method) (req : Request) (started end : ℕ) where
  final_code :
      (code : Status) → retriable code ≡ false → (code ≢ unavailable) × (code ≢ deadline_exceeded)
  final_code code h = (
    (λ e. let hit : retriable code ≡ true = ap retriable e in ground arith),
    (λ e. let hit : retriable code ≡ true = ap retriable e in ground arith),
  )

  Concludes-Rule :
      Rule link m req started end (λ i delay now run. Concludes link m req started end run)
  Concludes-Rule = record {
    on_answer = λ i delay now r d e. inl (i, _, r, e, refl);
    on_refusal = λ i delay now code d e stop. inr (
      i,
      _,
      code,
      e,
      refl,
      elim (Bool-cases (retriable code)) [
        | inl again ↦ inr (ground arith)
        | inr final ↦ inl (final_code code final)
      ],
    );
    on_retry = λ i delay now code run d e again time ih. ih;
  }

  Outlives-Rule :
      (offset : ℕ)
      → StampsLater link m offset started
      → Rule link m req started end (λ i delay now run. Outlives offset run.outcome)
  Outlives-Rule offset late = record {
    on_answer = λ i delay now r d e.
        stamp-Outlives started offset r (λ server q. late i req _ r server e q);
    on_refusal = λ i delay now code d e stop a d' e' t q. cc;
    on_retry = λ i delay now code run d e again time ih. ih;
  }

module _ (link : Link) (rpc : Rpc) (m : Method) (lease : Option Lease)
    (timeout wait started : ℕ) where
  module _ (request_id : Option Text) (payload fresh : Text) where
    -- A call ends with the outcome of an answer of the server, or with an error of the transport;
    -- `UNAVAILABLE` and `DEADLINE_EXCEEDED` leave the call only if at most 1000 ms of its timeout are
    -- left.
    pub call-Concludes :
        Returns (call link rpc m lease timeout wait request_id payload fresh started) λ run.
          Concludes link m
            (build_request rpc lease wait request_id payload fresh)
            started
            (started + timeout)
            run
    call-Concludes = call-Returns link rpc m lease timeout wait started request_id payload fresh _ (
        Concludes-Rule link m (build_request rpc lease wait request_id payload fresh) started
          (started + timeout))

    -- If the server stamps its answers after the request was first sent, then at every local time
    -- before the deadline that a call adds to an answer, the lease has more than 500 ms left on the
    -- server's clock, however often the request was repeated.
    pub call-Outlives :
        (offset : ℕ)
        → StampsLater link m offset started
        → Returns
            (call link rpc m lease timeout wait request_id payload fresh started)
            λ run. Outlives offset run.outcome
    call-Outlives offset late =
        call-Returns link rpc m lease timeout wait started request_id payload fresh _ (
          Outlives-Rule link m (build_request rpc lease wait request_id payload fresh) started
            (started + timeout) offset late)
