-- ===== src/Wire.antt =====
-- What travels between a worker and the control plane: the methods of the service
-- (sdk/python/rungrid/rungrid_pb2_grpc.py), the request message, and the replies that
-- worker/python/rungrid_worker/rpc.py tells apart. Times are in milliseconds. Last, the states of jobs.
use rungrid.Common.{ℕ, Option, Text, Bool, ◌||◌, codes, text_eq}

pub data Method : Type 0 where
  register_worker lease_job start_attempt heartbeat : Method
  report_progress complete_attempt fail_attempt release_worker : Method

-- `grpc.StatusCode`, as far as the workers name its members.
pub data Status : Type 0 where
  unavailable deadline_exceeded failed_precondition not_found : Status
  other_status : ℕ → Status

-- The metadata that `Artifacts.upload` returns.
pub record Entry : Type 0 where
  pub object_key : Text
  pub size_bytes : ℕ
  pub checksum : Text
  pub kind : Text

-- What a worker keeps of a lease.
pub record Lease : Type 0 where
  pub job_id : Text
  pub attempt_id : Text
  pub lease_token : Text
  pub artifact_prefix : Text
  pub local_deadline : ℕ
  pub checkpoint : Option Entry

-- The protocol message; `payload_json` is the encoded payload.
pub record Request : Type 0 where
  pub request_id : Text
  pub worker_id : Text
  pub session_id : Text
  pub payload_json : Text
  pub attempt_id : Text
  pub lease_token : Text
  pub wait_seconds : ℕ

-- The decoded `response.payload_json`: the two time stamps, if present, and all else.
pub record Response : Type 0 where
  pub lease_expires_at : Option ℕ
  pub server_time : Option ℕ
  pub body : Text

pub data Reply : Type 0 where
  answered : Response → Reply
  rpc_error : Status → Reply

-- The states in which a job ends, as the scripts that wait for jobs test them.
abbrev pub is_terminal : Text → Bool
is_terminal state =
    text_eq state (codes "SUCCEEDED")
    || (text_eq state (codes "FAILED") || text_eq state (codes "CANCELLED"))
