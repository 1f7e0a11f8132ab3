-- ===== src/Rpc/Loop.antt =====
-- `RPC.call`. The channel and the clock are the parameter `Link`: round `i` of the loop is answered
-- by `answer`, lasts `takes` and is followed by a sleep that may last `oversleeps` too long.
use rungrid.Common.{
  ℕ, zero, suc, ◌+◌, ◌-◌, ◌*◌, ◌/◌, min, max, Bool, true, false, not, ◌||◌, Option, none, some,
  List, [], ◌∷◌, Text, leb,
}
use rungrid.Wire.{
  Method, Status, unavailable, deadline_exceeded, Lease, Request, Response, Reply, answered,
  rpc_error,
}

pub record Link : Type 0 where
  pub answer : ℕ → Method → Request → ℕ → Reply
  pub takes : ℕ → ℕ → ℕ
  pub oversleeps : ℕ → ℕ

-- The attributes of `RPC` that a call reads.
pub record Rpc : Type 0 where
  pub worker_id : Text
  pub session_id : Text

-- The answer with the deadline that `call` adds to it.
pub record Answer : Type 0 where
  pub response : Response
  pub local_deadline : Option ℕ

-- How a call ends: it returns, or `grpc.RpcError` or `KeyError` leaves it.
pub data Outcome : Type 0 where
  returned : Answer → Outcome
  refused : Status → Outcome
  missing_key : Outcome

-- One round: the request as sent, its transport timeout, and the sleep after it.
pub record Round : Type 0 where
  pub request : Request
  pub timeout : ℕ
  pub slept : Option ℕ

pub record Run : Type 0 where
  pub rounds : List Round
  pub outcome : Outcome
  pub finished : ℕ

abbrev pub first_delay : ℕ
first_delay = 100

abbrev pub max_delay : ℕ
max_delay = 1000

abbrev pub or_text : Option Text → Text → Text
or_text (some (c ∷ s)) d = c ∷ s
or_text _ d = d

abbrev pub lease_text : (Lease → Text) → Option Lease → Text
lease_text f none = []
lease_text f (some lease) = f lease

-- `pb.Request(...)`; `fresh` is the text of a new `uuid4`.
unfoldable pub build_request : Rpc → Option Lease → ℕ → Option Text → Text → Text → Request
build_request rpc lease wait_seconds request_id payload_json fresh = record {
  request_id = or_text request_id fresh;
  worker_id = rpc.worker_id;
  session_id = rpc.session_id;
  payload_json = payload_json;
  attempt_id = lease_text (λ l. l.attempt_id) lease;
  lease_token = lease_text (λ l. l.lease_token) lease;
  wait_seconds = wait_seconds;
}

abbrev pub retriable : Status → Bool
retriable unavailable = true
retriable deadline_exceeded = true
retriable _ = false

-- The timeout of one round.
unfoldable pub round_timeout : ℕ → ℕ → ℕ → ℕ
round_timeout wait_seconds end now = max 10 (min (5000 + 1000 * wait_seconds) (end - now))

-- `started + ttl - 0.5`, where a missing `server_time` is a `KeyError`.
unfoldable pub stamps : ℕ → Response → Option ℕ → Option ℕ → Outcome
stamps started r none _ = returned (record { response = r; local_deadline = none })
stamps started r (some expires) none = missing_key
stamps started r (some expires) (some server) =
    returned (record { response = r; local_deadline = some (started + expires - (server + 500)) })

unfoldable pub stamp : ℕ → Response → Outcome
unfolding stamps
stamp started r = stamps started r r.lease_expires_at r.server_time

abbrev pub push : Round → Run → Run
push r run = record run { rounds = r ∷ run.rounds }

abbrev pub sent : Round → Option Run → Option Run
sent r none = none
sent r (some run) = some (push r run)

abbrev pub final_run : Request → ℕ → ℕ → Outcome → Run
final_run req limit after o = record {
  rounds = record { request = req; timeout = limit; slept = none } ∷ [];
  outcome = o;
  finished = after;
}

abbrev pub stopped : Request → ℕ → ℕ → Outcome → Option Run
stopped req limit after o = some (final_run req limit after o)

module _ (link : Link) (method : Method) (req : Request) (started end : ℕ) where
  -- `while True`, on fuel: `none` means that the fuel ran out.
  unfoldable pub retry : ℕ → ℕ → ℕ → ℕ → Option Run
  unfolding round_timeout
  retry zero i delay now = none
  retry (suc fuel) i delay now =
      let limit = round_timeout req.wait_seconds end now in
      let after = now + link.takes i limit in
      let next =
        sent (record { request = req; timeout = limit; slept = some delay })
          (retry fuel (suc i) (min (delay * 2) max_delay) (after + delay + link.oversleeps i)) in
      elim (link.answer i method req limit) [
        | answered r ↦ stopped req limit after (stamp started r)
        | rpc_error code ↦ elim (not (retriable code) || leb end (after + delay)) [
          | true ↦ stopped req limit after (refused code)
          | false ↦ next
        ]
      ]

-- `RPC.call` at local time `started`.
unfoldable pub call :
    Link → Rpc → Method → Option Lease → ℕ → ℕ → Option Text → Text → Text → ℕ → Option Run
unfolding retry build_request
call link rpc method lease timeout wait_seconds request_id payload_json fresh started =
    retry link method (build_request rpc lease wait_seconds request_id payload_json fresh) started
      (started + timeout) (suc (timeout / 100)) 0 first_delay started
