-- ===== src/Worker/Start.antt =====
-- `Worker.__init__`, `main` and its metrics endpoint in worker/python/rungrid_worker/main.py. The
-- environment's variables are given, and `int` of a text is a parameter.
use rungrid.Common.{
  ℕ, Bool, true, false, Option, none, some, List, [], ◌∷◌, ◌++◌, if◌then◌else◌, Text, codes,
  text_eq, str,
}

-- `os.environ.get(name, default)`
abbrev pub get_env : Option Text → Text → Text
get_env none d = d
get_env (some v) d = v

pub record Resources : Type 0 where
  pub cpu : ℕ
  pub memory_mb : ℕ
  pub gpu : ℕ

pub record Environment : Type 0 where
  pub worker_id : Option Text
  pub grpc_addr : Option Text
  pub cpu : Option Text
  pub memory_mb : Option Text
  pub gpu : Option Text

pub record Started : Type 0 where
  pub worker_id : Text
  pub session_id : Text
  pub address : Text
  pub resources : Resources
  pub upload_failures : ℕ

-- `f"{socket.gethostname()}-{uuid.uuid4()}"`
abbrev pub fresh_id : Text → Text → Text
fresh_id hostname uuid = hostname ++ b'-' ∷ uuid

module _ (int : Text → Option ℕ) where
  abbrev pub resources_of : Option ℕ → Option ℕ → Option ℕ → Option Resources
  resources_of (some c) (some m) (some g) = some (record { cpu = c; memory_mb = m; gpu = g })
  resources_of _ _ _ = none

  abbrev pub with_resources : Text → Text → Text → Option Resources → Option Started
  with_resources worker_id session_id address none = none
  with_resources worker_id session_id address (some r) = some (record {
    worker_id = worker_id;
    session_id = session_id;
    address = address;
    resources = r;
    upload_failures = 0;
  })

  -- `Worker()`; nothing where `int` raises. The two texts of `uuid4` are given.
  unfoldable pub start_worker : Environment → Text → Text → Text → Option Started
  start_worker env hostname uuid session =
      with_resources (get_env env.worker_id (fresh_id hostname uuid)) session
        (get_env env.grpc_addr (codes "localhost:9090"))
        (resources_of (int (get_env env.cpu (codes "2")))
          (int (get_env env.memory_mb (codes "4096"))) (int (get_env env.gpu (codes "0"))))

-- An answer of the metrics endpoint.
pub data HttpAnswer : Type 0 where
  send_error : ℕ → HttpAnswer
  send_text : ℕ → Text → Text → HttpAnswer

-- `Metrics.do_GET`
unfoldable pub do_get : Text → ℕ → HttpAnswer
unfolding text_eq str
do_get path upload_failures =
    if text_eq path (codes "/metrics")
    then send_text 200 (codes "text/plain; version=0.0.4") (
        codes
          "# TYPE rungrid_artifact_upload_failures_total counter\nrungrid_artifact_upload_failures_total "
        ++ (str upload_failures ++ codes "\n"))
    else send_error 404

-- The steps of `main` behind the start: the handlers, the server at the port that `int` gives, the worker's
-- loop and, whether or not that raised, the shutdown.
pub data MainStep : Type 0 where
  handle_signal : Text → MainStep
  serve_metrics : ℕ → MainStep
  run_worker shutdown_metrics raise_error : MainStep

abbrev pub when_raised : Bool → List MainStep
when_raised false = []
when_raised true = raise_error ∷ []

abbrev pub serve : Option ℕ → Bool → List MainStep
serve none raises = raise_error ∷ []
serve (some port) raises = serve_metrics port ∷ run_worker ∷ shutdown_metrics ∷ when_raised raises

-- `raises` says whether the worker's loop raises.
unfoldable pub main_steps : (Text → Option ℕ) → Option Text → Bool → List MainStep
main_steps int metrics_port raises =
    handle_signal (codes "SIGINT")
    ∷ handle_signal (codes "SIGTERM")
    ∷ serve (int (get_env metrics_port (codes "9101"))) raises
