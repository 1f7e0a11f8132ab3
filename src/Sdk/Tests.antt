-- ===== src/Sdk/Tests.antt =====
-- Checkpoints and requests at concrete inputs.
use rungrid.Common.{
  drop, Option, ℕ, ◌≡◌, refl, none, some, List, [], ◌∷◌, ◌++◌, Text, codes, take, arith, ends_with,
  true,
}
use rungrid.Sdk.Checkpoint.{Directory, checkpoint, do_ops, whole, target, Sees, checkpoint_atomic}
use rungrid.Sdk.Invoke.{
  Writes, Arguments, Json, Interpreter, no_colon, invoke, IsDocumented, function_command-invoke,
}
use rungrid.Sdk.Client.{function_command, post, cancel, list, action_of, request, request_apart}

abbrev nothing : Directory
nothing n = none

abbrev pieces : List (List ℕ)
pieces = codes "{" ∷ codes "}" ∷ []

checkpoint_atomic_example :
    Sees nothing
      (do_ops (take 4 (checkpoint (codes "u") pieces)) nothing)
      (codes "u.json")
      (target (codes "u"))
      (whole pieces)
unfolding ends_with
checkpoint_atomic_example = checkpoint_atomic (codes "u") (codes "u.json") pieces 4 nothing refl

cancel_runs :
    request (codes "http://h:1//") (cancel (codes "job") (some (codes "fixed"))) (codes "fresh")
    ≡ record {
      verb = post;
      url = codes "http://h:1/v1/jobs/job/cancel";
      body = none;
      request_id = codes "fixed";
    }
unfolding request
cancel_runs = refl

list_runs :
    (request (codes "http://h") (list 100 20) (codes "fresh")).url
    ≡ codes "http://h/v1/jobs?limit=100&offset=20"
unfolding request
list_runs = refl

request_apart_example :
    (codes "job" ≡ codes "job") × (action_of (cancel (codes "job") none) ≡ codes "/cancel")
unfolding request
request_apart_example =
    request_apart (codes "http://h") (codes "a") (codes "b") (cancel (codes "job") none)
      (cancel (codes "job") (some (codes "r"))) (codes "job") (codes "job") refl refl (omega arith)
      (omega arith) refl

-- A package with one function, whose arguments and results are texts.
abbrev bracketed : Json Text
bracketed = record { dumps = λ s. b'[' ∷ s; loads = λ t. some (drop 1 t) }

abbrev parse_five : List Text → Option Arguments
parse_five (f ∷ x ∷ a ∷ y ∷ k ∷ []) = some (record { function = f; args = a; kwargs = k })
parse_five _ = none

abbrev installed : Interpreter Text Text Text
installed = record {
  parse_args = parse_five;
  find_function = λ m n. some (λ a k. some (m ++ (n ++ (a ++ k))));
  args_json = bracketed;
  kwargs_json = bracketed;
  dump_result = some;
  writes = true;
}

installed-IsDocumented : IsDocumented installed
installed-IsDocumented = record {
  options = λ f a k _ _ _. refl;
  args_back = λ a. refl;
  kwargs_back = λ k. refl;
  args_bracket = λ a. omega arith;
  kwargs_brace = λ k. omega arith;
}

invoke_refuses :
    invoke installed
      (codes "work" ∷ codes "--args" ∷ codes "[]" ∷ codes "--kwargs" ∷ codes "{}" ∷ [])
    ≡ no_colon
unfolding invoke
invoke_refuses = refl

function_command-invoke_example :
    let command = function_command (codes "m:f") (codes "[1") (codes "[2") in
    (command ≡ codes "python" ∷ codes "-m" ∷ codes "rungrid.invoke" ∷ drop 3 command)
    × Writes (some (codes "mf12")) true (invoke installed (drop 3 command))
function_command-invoke_example =
    function_command-invoke installed (codes "m") (codes "f")
      (λ a k. some (codes "m" ++ (codes "f" ++ (a ++ k)))) (codes "1") (codes "2") (codes "mf12")
      installed-IsDocumented (omega arith) (omega arith) refl refl
