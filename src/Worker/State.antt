-- ===== src/Worker/State.antt =====
-- The state that the threads of `Worker.execute` share, and the world around them.
use rungrid.Common.{ℕ, Bool, true, false, not, ◌&&◌, Option, List, Text, ltb, ◌==◌}
use rungrid.Wire.{Method, Status, Entry}

-- `process.returncode`: `minus n` is -n, the signal `n`.
pub data ReturnCode : Type 0 where
  plus minus : ℕ → ReturnCode

abbrev pub succeeded : ReturnCode → Bool
succeeded (plus n) = n == 0
succeeded (minus n) = false

-- `process`: `None`, running, or waited for.
pub data Process : Type 0 where
  absent running : Process
  ended : ReturnCode → Process

-- Where the renewing thread stands: in `done.wait`, in its heartbeat call, or over.
pub data Renewer : Type 0 where
  waiting calling stopped : Renewer

abbrev pub is_absent : Process → Bool
is_absent absent = true
is_absent _ = false

abbrev pub is_running : Process → Bool
is_running running = true
is_running _ = false

pub record File : Type 0 where
  pub name : Text
  pub content : List ℕ

-- The payloads of the calls that `execute` makes.
pub data Payload : Type 0 where
  empty : Payload
  logs : List Text → Payload
  artifacts : List Entry → Payload
  exit : ReturnCode → Text → Payload

-- One call of the main thread, with whether it came back without `grpc.RpcError`.
pub record Call : Type 0 where
  pub method : Method
  pub payload : Payload
  pub accepted : Bool

-- `calls` has the newest call first, `checkpoints` the oldest file first, and `queue` the oldest
-- line first. `waits` counts the times that the main thread has let the others run.
pub record Machine : Type 0 where
  pub now : ℕ
  pub deadline : ℕ
  pub done : Bool
  pub lost : Bool
  pub renewer : Renewer
  pub process : Process
  pub queue : List Text
  pub log : List ℕ
  pub checkpoints : List File
  pub outputs : List File
  pub uploaded : List Text
  pub upload_failures : ℕ
  pub calls : List Call
  pub waits : ℕ

-- `alive()`
abbrev pub alive : Machine → Bool
alive m = not m.lost && ltb m.now m.deadline

-- How the renewing thread's heartbeat ends: with a new deadline, with `grpc.RpcError`, or with
-- another exception, which ends the thread.
pub data Beat : Type 0 where
  renewed : ℕ → Beat
  beat_error : Status → Beat
  beat_crash : Beat

-- What happens while the main thread waits: time passes, the renewing thread's wait of half a second
-- is over, its heartbeat comes back, the reader gets a line, the command writes a file.
pub data Event : Type 0 where
  pass : ℕ → Event
  wake : Event
  beat : Beat → Event
  line : List ℕ → Event
  checkpoint_file output_file : File → Event

-- Why the main thread leaves its `try` block by an exception.
pub data Error : Type 0 where
  rpc_failure : Status → Error
  lease_lost_error storage_failure setup_failure restore_failure spawn_failure cleanup_failure :
      Error

-- What is not the worker's own doing, by the number of waits before it: the interleaving, the answers
-- to calls, the storage, the exit of the command, whether the directory is made, a checkpoint is
-- restored, the command is started, the reader outlives its first join, the reader is inside a read of
-- the command's output, and the directory can be removed, and fresh ids. `opened` is
-- what the reads of a file during its upload find. `decode` is a line as text, without
-- the white space at its end, `by_path` is `sorted` on paths, and `message` is `str(exc)`.
pub record World : Type 0 where
  pub meanwhile : ℕ → List Event
  pub reply : ℕ → Method → Payload → Option Status
  pub opened : ℕ → File → ℕ → List ℕ
  pub put : ℕ → Bool
  pub exit_code : ℕ → Option ReturnCode
  pub makes : ℕ → Bool
  pub restores : ℕ → Bool
  pub spawns : ℕ → Bool
  pub reader_alive : ℕ → Bool
  pub reading : ℕ → Bool
  pub removes : ℕ → Bool
  pub uuid : ℕ → Text
  pub decode : List ℕ → Text
  pub by_path : List File → List File
  pub message : Error → Text
