-- ===== src/Sdk/Client.antt =====
-- `Client` of sdk/python/rungrid/client.py: the HTTP requests that its methods send. The encoded
-- payload is a text, and `fresh` is the text of a new `uuid4`.
use mathlib.Core.List.{reverse, reverse-append, reverse-reverse}
use mathlib.Core.Option.{some-injective}
use rungrid.Common.{
  append_cancel, ℕ, ◌≡◌, ◌≢◌, refl, sym, ap, ◌∙◌, ◌⊎◌, inl, inr, Option, none, some, List, [], ◌∷◌,
  ◌++◌, append-nil, Text, codes, ◌==◌, str, Lacks, arith, if◌then◌else◌,
}
use rungrid.Rpc.{or_text}

pub data Verb : Type 0 where
  get post : Verb

pub record HttpRequest : Type 0 where
  pub verb : Verb
  pub url : Text
  pub body : Option Text
  pub request_id : Text

abbrev pub slash : ℕ
slash = b'/'

-- `url.rstrip("/")`: the slashes at the end, which are the first of the reversed text.
drop_slashes : Text → Text
drop_slashes [] = []
drop_slashes (c ∷ s) = if c == slash then drop_slashes s else c ∷ s

unfoldable pub rstrip : Text → Text
unfolding drop_slashes
rstrip s = reverse (drop_slashes (reverse s))

-- The methods, as the calls of `Client.request` that they make.
pub data Operation : Type 0 where
  submit batch : Text → Operation
  get_job : Text → Operation
  list : ℕ → ℕ → Operation
  cancel retry : Text → Option Text → Operation
  attempts artifacts : Text → Operation

abbrev pub verb_of : Operation → Verb
verb_of (submit _) = post
verb_of (batch _) = post
verb_of (cancel _ _) = post
verb_of (retry _ _) = post
verb_of _ = get

unfoldable pub path_of : Operation → Text
unfolding str
path_of (submit _) = codes "/v1/jobs"
path_of (batch _) = codes "/v1/jobs/batch"
path_of (get_job job) = codes "/v1/jobs/" ++ job
path_of (list limit offset) =
    codes "/v1/jobs?limit=" ++ (str limit ++ (codes "&offset=" ++ str offset))
path_of (cancel job _) = codes "/v1/jobs/" ++ (job ++ codes "/cancel")
path_of (retry job _) = codes "/v1/jobs/" ++ (job ++ codes "/retry")
path_of (attempts job) = codes "/v1/jobs/" ++ (job ++ codes "/attempts?limit=1000")
path_of (artifacts job) = codes "/v1/jobs/" ++ (job ++ codes "/artifacts?limit=1000")

abbrev pub body_of : Operation → Option Text
body_of (submit definition) = some definition
body_of (batch definitions) = some definitions
body_of _ = none

abbrev pub id_of : Operation → Option Text
id_of (cancel _ request_id) = request_id
id_of (retry _ request_id) = request_id
id_of _ = none

-- `Client(url).request(...)` for each method.
unfoldable pub request : Text → Operation → Text → HttpRequest
unfolding rstrip path_of
request url op fresh = record {
  verb = verb_of op;
  url = rstrip url ++ path_of op;
  body = body_of op;
  request_id = or_text (id_of op) fresh;
}

-- The command of `submit_function`: `dumps` is `json.dumps`.
unfoldable pub function_command : Text → Text → Text → List Text
function_command function args kwargs =
    codes "python"
    ∷ codes "-m"
    ∷ codes "rungrid.invoke"
    ∷ function
    ∷ codes "--args"
    ∷ args
    ∷ codes "--kwargs"
    ∷ kwargs
    ∷ []

-- The job that an operation is about.
abbrev pub job_of : Operation → Option Text
job_of (get_job job) = some job
job_of (cancel job _) = some job
job_of (retry job _) = some job
job_of (attempts job) = some job
job_of (artifacts job) = some job
job_of _ = none

-- The path behind the job's id.
abbrev pub action_of : Operation → Text
action_of (cancel job _) = codes "/cancel"
action_of (retry job _) = codes "/retry"
action_of (attempts job) = codes "/attempts?limit=1000"
action_of (artifacts job) = codes "/artifacts?limit=1000"
action_of _ = []

drop_slashes_head : (s t : Text) → drop_slashes s ≢ slash ∷ t
unfolding drop_slashes
drop_slashes_head [] t e = cc
drop_slashes_head (c ∷ s) t e = ground (arith, drop_slashes_head s t)

-- Whatever the URL that a client is made with, the base that it keeps does not end with a slash.
pub rstrip_bare : (url p : Text) → rstrip url ≢ p ++ slash ∷ []
unfolding rstrip
rstrip_bare url p e = drop_slashes_head (reverse url) (reverse p) (
    sym (reverse-reverse (drop_slashes (reverse url)))
    ∙ (ap reverse e ∙ reverse-append p (slash ∷ [])))

-- Empty, or begun by the separator.
abbrev Opens : ℕ → Text → Type 0
Opens c [] = Unit
Opens c (a ∷ s) = a ≡ c

cut_open :
    (c : ℕ) (s t u v : Text)
    → Lacks c s
    → Lacks c t
    → Opens c u
    → Opens c v
    → s ++ u ≡ t ++ v
    → (s ≡ t) × (u ≡ v)
cut_open c [] [] u v h k p q e = (refl, e)
cut_open c [] (b ∷ t) [] v h k p q e = cc
cut_open c [] (b ∷ t) (a ∷ u) v h k p q e = absurd (k.0 (cc))
cut_open c (a ∷ s) [] u [] h k p q e = cc
cut_open c (a ∷ s) [] u (b ∷ v) h k p q e = absurd (h.0 (cc))
cut_open c (a ∷ s) (b ∷ t) u v h k p q e =
    let tails : s ++ u ≡ t ++ v = cc in
    let rest = cut_open c s t u v h.1 k.1 p q tails in (cc, rest.1)

action-Opens : (o : Operation) → Opens slash (action_of o)
action-Opens (cancel job _) = refl
action-Opens (retry job _) = refl
action-Opens (attempts job) = refl
action-Opens (artifacts job) = refl
action-Opens (submit _) = tt
action-Opens (batch _) = tt
action-Opens (get_job _) = tt
action-Opens (list _ _) = tt

path_of_job :
    (o : Operation) (job : Text)
    → job_of o ≡ some job
    → path_of o ≡ codes "/v1/jobs/" ++ (job ++ action_of o)
unfolding path_of
path_of_job (cancel j _) job e =
    ap (λ t. codes "/v1/jobs/" ++ (t ++ codes "/cancel")) (some-injective j job e)
path_of_job (retry j _) job e =
    ap (λ t. codes "/v1/jobs/" ++ (t ++ codes "/retry")) (some-injective j job e)
path_of_job (attempts j) job e =
    ap (λ t. codes "/v1/jobs/" ++ (t ++ codes "/attempts?limit=1000")) (some-injective j job e)
path_of_job (artifacts j) job e =
    ap (λ t. codes "/v1/jobs/" ++ (t ++ codes "/artifacts?limit=1000")) (some-injective j job e)
path_of_job (get_job j) job e =
    let same : j ≡ job = some-injective j job e in
    ap (λ t. codes "/v1/jobs/" ++ t) (same ∙ sym (append-nil job))
path_of_job (submit _) job e = cc
path_of_job (batch _) job e = cc
path_of_job (list _ _) job e = cc

-- Two methods that are about jobs, whose ids hold no slash, send their requests to one URL only if
-- they are about the same job and the same action on it.
pub request_apart :
    (url fresh fresh' : Text) (o o' : Operation) (job job' : Text)
    → job_of o ≡ some job
    → job_of o' ≡ some job'
    → Lacks slash job
    → Lacks slash job'
    → (request url o fresh).url ≡ (request url o' fresh').url
    → (job ≡ job') × (action_of o ≡ action_of o')
unfolding request
request_apart url fresh fresh' o o' job job' e e' h h' same =
    let paths = append_cancel (rstrip url) (path_of o) (path_of o') same in
    let routes =
      append_cancel (codes "/v1/jobs/") (job ++ action_of o) (job' ++ action_of o')
        (sym (path_of_job o job e) ∙ (paths ∙ path_of_job o' job' e')) in
    cut_open slash job job' (action_of o) (action_of o') h h' (action-Opens o) (action-Opens o')
      routes

-- `cancel` and `retry` keep the request id that they are given, if it is not empty, and every
-- other request has the fresh one.
pub request_keeps_id :
    (url fresh : Text) (o : Operation)
    → ((c : ℕ) × (s : Text) × (id_of o ≡ some (c ∷ s)) × ((request url o fresh).request_id ≡ c ∷ s))
      ⊎ ((request url o fresh).request_id ≡ fresh)
unfolding request
request_keeps_id url fresh o = keeps (id_of o)
  where
    keeps :
        (r : Option Text)
        → ((c : ℕ) × (s : Text) × (r ≡ some (c ∷ s)) × (or_text r fresh ≡ c ∷ s))
          ⊎ (or_text r fresh ≡ fresh)
    keeps (some (c ∷ s)) = inl (c, s, refl, refl)
    keeps (some []) = inr refl
    keeps none = inr refl
