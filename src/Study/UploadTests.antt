-- ===== src/Study/UploadTests.antt =====
-- The aggregation of examples/heterosplit/aggregate.py over what a worker has uploaded: a job whose
-- first attempt has failed after its metrics, and whose second has left four files.
use rungrid.Common.{
  ℕ, ◌≡◌, ◌≢◌, refl, ap, true, false, text_eq, inl, inr, none, List, [], ◌∷◌, ◌++◌, map, Text,
  codes, arith,
}
use rungrid.Wire.{Lease}
use rungrid.Artifacts.Key.{object_key}
use rungrid.Artifacts.Tests.{plain}
use rungrid.Study.Aggregate.{StudyJob, last_of, collected, aggregate}
use rungrid.Study.Published.{Published, artifact_of, Publishes, aggregate-Publishes}

abbrev lease_of : Text → Lease
lease_of attempt = record {
  job_id = codes "j1";
  attempt_id = attempt;
  lease_token = codes "t";
  artifact_prefix = codes "/study/";
  local_deadline = 1000;
  checkpoint = none;
}

abbrev published : Text → Text → Text → List ℕ → Published
published attempt kind name content = record {
  lease = lease_of attempt;
  kind = kind;
  uuid = codes "u";
  name = name;
  content = content;
}

abbrev metrics : Published
metrics = published (codes "a2") (codes "output") (codes "metrics.json") (codes "{}")

abbrev earlier : List Published
earlier =
    published (codes "a1") (codes "output") (codes "metrics.json") (codes "[]")
    ∷ published (codes "a2") (codes "checkpoint") (codes "f00d.json") (codes "1")
    ∷ []

abbrev later : List Published
later =
    published (codes "a2") (codes "output") (codes "split-manifest.json") (codes "2")
    ∷ published (codes "a2") (codes "log") (codes "execution.log") (codes "3")
    ∷ []

abbrev job : StudyJob
job = record {
  state = codes "SUCCEEDED";
  attempts = codes "a1" ∷ codes "a2" ∷ [];
  artifacts =
      map (artifact_of plain) earlier ++ artifact_of plain metrics ∷ map (artifact_of plain) later;
}

abbrev get_object : Text → List ℕ
get_object key = codes "{}"

first_apart : codes "a1" ≢ codes "a2"
unfolding text_eq
first_apart e = let bad : true ≡ false = ap (text_eq (codes "a1")) e in cc

job-Publishes : Publishes plain get_object job (codes "{}")
unfolding last_of object_key
job-Publishes = record {
  state = refl;
  metrics = metrics;
  attempt = refl;
  named = (tt, tt, tt);
  name = refl;
  before = earlier;
  after = later;
  others = (
    (inl first_apart, (inr ((tt, tt, tt), inl (codes "f00", b'd', refl, omega arith)), tt)),
    (
      inr ((tt, tt, tt), inl (codes "split-manifes", b't', refl, omega arith)),
      (inr ((tt, tt, tt), inr (codes "execution", refl)), tt),
    ),
  );
  artifacts = refl;
  row_is = refl;
  stored = refl;
}

aggregate-Publishes_example : aggregate get_object (λ c. c) (job ∷ []) ≡ collected (codes "{}" ∷ [])
aggregate-Publishes_example =
    aggregate-Publishes plain get_object ((job, codes "{}") ∷ []) (job-Publishes, tt)
