-- ===== src/Sdk/Invoke.antt =====
-- `main` of sdk/python/rungrid/invoke.py. The command line's parser and the texts of JSON are
-- parameters, with what argparse and json document of them.
use mathlib.Core.Path.{subst}
use rungrid.Common.{
  ℕ, ◌≡◌, ◌≢◌, refl, inl, inr, Bool, true, false, sym, Bool-cases, Option, none, some, List, [],
  ◌∷◌, ◌++◌, ◌==◌, if◌then◌else◌, Text, codes, Lacks, drop, arith,
}
use rungrid.Sdk.Client.{function_command}

-- `text.split(c, 1)` unpacked into two: nothing where it holds no `c`.
abbrev behind : ℕ → Option (Text × Text) → Option (Text × Text)
behind a none = none
behind a (some (s, t)) = some (a ∷ s, t)

unfoldable pub split_once : ℕ → Text → Option (Text × Text)
split_once c [] = none
split_once c (a ∷ s) = if a == c then some ([], s) else behind a (split_once c s)

-- The arguments that the parser gives.
pub record Arguments : Type 0 where
  pub function : Text
  pub args : Text
  pub kwargs : Text

-- A JSON codec of values of a type.
pub record Json (A : Type 0) : Type 0 where
  pub dumps : A → Text
  pub loads : Text → Option A

-- How `main` ends: in the parser's exit, in an exception, or with what it writes to `result.json`.
pub data Invoked : Type 0 where
  usage no_colon not_found bad_json failed unserializable unwritable : Invoked
  wrote : Text → Invoked

-- `find_function` imports the module and looks up the name: nothing where that raises. A function
-- that raises returns nothing. `dump_result` is `json.dumps` with `allow_nan=False`, nothing where that
-- raises, and `writes` says whether `output_dir` and the writing of the file return.
pub record Interpreter (A K R : Type 0) : Type 0 where
  pub parse_args : List Text → Option Arguments
  pub find_function : Text → Text → Option (A → K → Option R)
  pub args_json : Json A
  pub kwargs_json : Json K
  pub dump_result : R → Option Text
  pub writes : Bool

abbrev colon : ℕ
colon = b':'

module _ {A K R : Type 0} (i : Interpreter A K R) where
  abbrev pub write_text : Option Text → Invoked
  write_text none = unserializable
  write_text (some t) = if i.writes then wrote t else unwritable

  abbrev pub write_result : Option R → Invoked
  write_result none = failed
  write_result (some r) = write_text (i.dump_result r)

  abbrev pub apply : (A → K → Option R) → Option A → Option K → Invoked
  apply f none kwargs = bad_json
  apply f (some args) none = bad_json
  apply f (some args) (some kwargs) = write_result (f args kwargs)

  abbrev pub apply_found : Arguments → Option (A → K → Option R) → Invoked
  apply_found a none = not_found
  apply_found a (some f) = apply f (i.args_json.loads a.args) (i.kwargs_json.loads a.kwargs)

  abbrev pub invoke_function : Arguments → Option (Text × Text) → Invoked
  invoke_function a none = no_colon
  invoke_function a (some f) = apply_found a (i.find_function f.0 f.1)

  abbrev pub invoke_parsed : Option Arguments → Invoked
  invoke_parsed none = usage
  invoke_parsed (some a) = invoke_function a (split_once colon a.function)

  unfoldable pub invoke : List Text → Invoked
  unfolding split_once
  invoke argv = invoke_parsed (i.parse_args argv)

-- No option: argparse takes what begins with a dash for one.
abbrev pub NoDash : Text → Type 0
NoDash [] = Unit
NoDash (c ∷ s) = c ≢ b'-'

-- What argparse and json document.
pub record IsDocumented {A K R : Type 0} (i : Interpreter A K R) : Type 0 where
  pub options :
      (f a k : Text)
      → NoDash f
      → NoDash a
      → NoDash k
      → i.parse_args (f ∷ codes "--args" ∷ a ∷ codes "--kwargs" ∷ k ∷ [])
        ≡ some (record { function = f; args = a; kwargs = k })
  pub args_back : (a : A) → i.args_json.loads (i.args_json.dumps a) ≡ some a
  pub kwargs_back : (k : K) → i.kwargs_json.loads (i.kwargs_json.dumps k) ≡ some k
  -- An array begins with a bracket, and an object with a brace.
  pub args_bracket : (a : A) → NoDash (i.args_json.dumps a)
  pub kwargs_brace : (k : K) → NoDash (i.kwargs_json.dumps k)

split_once-append : (c : ℕ) (s t : Text) → Lacks c s → split_once c (s ++ c ∷ t) ≡ some (s, t)
unfolding split_once
split_once-append c [] t h = ground arith
split_once-append c (a ∷ s) t h = elim (Bool-cases (a == c)) [
  | inl same ↦ absurd (h.0 (ground arith))
  | inr other ↦ rw (other, split_once-append c s t h.1) refl
]

NoDash-append : (s t : Text) → NoDash s → NoDash t → NoDash (s ++ t)
NoDash-append [] t h k = k
NoDash-append (a ∷ s) t h k = h

-- What is to come of a result with or without a text, and of a file that can be written or not.
abbrev pub Writes : Option Text → Bool → Invoked → Type 0
Writes none writes o = o ≡ unserializable
Writes (some t) true o = o ≡ wrote t
Writes (some t) false o = o ≡ unwritable

write_text-Writes :
    {A K R : Type 0} (i : Interpreter A K R) (t : Option Text) (b : Bool)
    → i.writes ≡ b
    → Writes t b (write_text i t)
write_text-Writes i none b e = refl
write_text-Writes i (some t) true e = rw (e) refl
write_text-Writes i (some t) false e = rw (e) refl

-- The command that `submit_function` submits runs `rungrid.invoke` on a command line that calls the
-- function with the arguments given. Where the function returns, the text of its result in JSON without
-- NaN is written; a result without such a text, or a file that cannot be written, is an error.
pub function_command-invoke :
    {A K R : Type 0} (i : Interpreter A K R) (module_name name : Text) (f : A → K → Option R)
    (args : A) (kwargs : K) (r : R)
    → IsDocumented i
    → Lacks colon module_name
    → NoDash module_name
    → i.find_function module_name name ≡ some f
    → f args kwargs ≡ some r
    → let command =
        function_command
          (module_name ++ colon ∷ name)
          (i.args_json.dumps args)
          (i.kwargs_json.dumps kwargs) in
      (command ≡ codes "python" ∷ codes "-m" ∷ codes "rungrid.invoke" ∷ drop 3 command)
      × Writes (i.dump_result r) i.writes (invoke i (drop 3 command))
unfolding function_command invoke
function_command-invoke i module_name name f args kwargs r doc lacks dash found returns =
    let parsed =
      doc.options (module_name ++ colon ∷ name) (i.args_json.dumps args)
        (i.kwargs_json.dumps kwargs) (NoDash-append module_name (colon ∷ name) dash (omega arith))
        (doc.args_bracket args) (doc.kwargs_brace kwargs) in
    let argv = drop 3 (
      function_command (module_name ++ colon ∷ name) (i.args_json.dumps args)
        (i.kwargs_json.dumps kwargs)) in
    let runs : invoke i argv ≡ write_text i (i.dump_result r) = rw (parsed) (
      rw
        (
          split_once-append colon module_name name lacks,
          found,
          doc.args_back args,
          doc.kwargs_back kwargs,
          returns,
        )
        refl) in
    (
      refl,
      subst (Writes (i.dump_result r) i.writes) (sym runs)
          (write_text-Writes i (i.dump_result r) i.writes refl),
    )
