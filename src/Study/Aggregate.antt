-- ===== src/Study/Aggregate.antt =====
-- examples/heterosplit/aggregate.py: how it collects the metrics of the
-- study's finished jobs.
-- What the client and the object store answer is given, and SHA-256 is the parameter `sha256`.
use mathlib.Core.Path.{subst}
use rungrid.Common.{
  ℕ, ◌≡◌, refl, Bool, false, not, ◌&&◌, ◌||◌, inl, inr, Bool-cases, Option, none, some, List, [],
  ◌∷◌, if◌then◌else◌, Text, codes, text_eq, text_eq_sound, ends_with, arith,
}

pub record Artifact : Type 0 where
  pub attempt_id : Text
  pub object_key : Text
  pub checksum : Text

-- A job of the study, in the state that it is in at last, with its attempts' ids and its artifacts.
pub record StudyJob : Type 0 where
  pub state : Text
  pub attempts : List Text
  pub artifacts : List Artifact

pub data AggregateError : Type 0 where
  not_all_succeeded no_attempt not_one_metrics checksum_mismatch : AggregateError

pub data Collected (A : Type 0) : Type 0 where
  raised : AggregateError → Collected A
  collected : A → Collected A

-- `attempts[-1]`
unfoldable pub last_of : List Text → Option Text
last_of [] = none
last_of (a ∷ []) = some a
last_of (a ∷ b ∷ more) = last_of (b ∷ more)

abbrev pub is_metrics : Text → Artifact → Bool
is_metrics attempt a =
    text_eq a.attempt_id attempt && ends_with a.object_key (codes "-metrics.json")

-- The two comprehensions of the loop.
unfoldable pub metrics_of : Text → List Artifact → List Artifact
unfolding text_eq ends_with
metrics_of attempt [] = []
metrics_of attempt (a ∷ more) =
    let rest = metrics_of attempt more in if is_metrics attempt a then a ∷ rest else rest

unfoldable pub any_failed : List StudyJob → Bool
unfolding text_eq
any_failed [] = false
any_failed (j ∷ js) = not (text_eq j.state (codes "SUCCEEDED")) || any_failed js

module _ (get_object : Text → List ℕ) (sha256 : List ℕ → Text) where
  abbrev pub add : List ℕ → Collected (List (List ℕ)) → Collected (List (List ℕ))
  add row (raised e) = raised e
  add row (collected rows) = collected (row ∷ rows)

  abbrev pub take_metrics : List Artifact → Collected (List (List ℕ)) → Collected (List (List ℕ))
  take_metrics (a ∷ []) rest =
      if text_eq (sha256 (get_object a.object_key)) a.checksum
      then add (get_object a.object_key) rest
      else raised checksum_mismatch
  take_metrics _ rest = raised not_one_metrics

  abbrev pub from_attempt :
      List Artifact → Option Text → Collected (List (List ℕ)) → Collected (List (List ℕ))
  from_attempt artifacts none rest = raised no_attempt
  from_attempt artifacts (some attempt) rest = take_metrics (metrics_of attempt artifacts) rest

  unfoldable pub collect : List StudyJob → Collected (List (List ℕ))
  unfolding metrics_of last_of
  collect [] = collected []
  collect (j ∷ js) = from_attempt j.artifacts (last_of j.attempts) (collect js)

  unfoldable pub aggregate : List StudyJob → Collected (List (List ℕ))
  unfolding collect any_failed
  aggregate jobs = if any_failed jobs then raised not_all_succeeded else collect jobs

  -- The row is the content of the job's only metrics artifact of its last attempt, and has the
  -- checksum that the artifact was reported with.
  pub record IsRowOf (row : List ℕ) (job : StudyJob) : Type 0 where
    pub succeeded : job.state ≡ codes "SUCCEEDED"
    pub attempt : Text
    pub last : last_of job.attempts ≡ some attempt
    pub artifact : Artifact
    pub only : metrics_of attempt job.artifacts ≡ artifact ∷ []
    pub content : row ≡ get_object artifact.object_key
    pub checked : sha256 row ≡ artifact.checksum

  -- Each job has its row, in order.
  abbrev pub Rows : List (List ℕ) → List StudyJob → Type 0
  Rows [] [] = Unit
  Rows [] (j ∷ js) = ⊥
  Rows (r ∷ rs) [] = ⊥
  Rows (r ∷ rs) (j ∷ js) = IsRowOf r j × Rows rs js

  collect-Rows :
      (jobs : List StudyJob) (rows : List (List ℕ))
      → any_failed jobs ≡ false
      → collect jobs ≡ collected rows
      → Rows rows jobs
  unfolding collect any_failed
  collect-Rows [] [] f e = tt
  collect-Rows [] (r ∷ rows) f e = cc
  collect-Rows (j ∷ js) rows f e =
      row (λ rs. collect-Rows js rs (ground arith)) (last_of j.attempts) refl (collect js) refl e
    where
      row :
          ((rs : List (List ℕ)) → collect js ≡ collected rs → Rows rs js)
          → (a : Option Text) → last_of j.attempts ≡ a
          → (rest : Collected (List (List ℕ))) → collect js ≡ rest
          → from_attempt j.artifacts a rest ≡ collected rows
          → Rows rows (j ∷ js)
      row after none p rest q g = cc
      row after (some a) p rest q g = from_metrics (metrics_of a j.artifacts) refl rest q g
        where
          from_metrics :
              (ms : List Artifact)
              → metrics_of a j.artifacts ≡ ms
              → (rest : Collected (List (List ℕ))) → collect js ≡ rest
              → take_metrics ms rest ≡ collected rows
              → Rows rows (j ∷ js)
          from_metrics [] u rest q g = cc
          from_metrics (m ∷ n ∷ ms) u rest q g = cc
          from_metrics (m ∷ []) u (raised x) q g =
              elim (Bool-cases (text_eq (sha256 (get_object m.object_key)) m.checksum)) [
                | inl same ↦
                    let bad : ◌≡◌ {A = Collected (List (List ℕ))} (raised x) (collected rows) =
                      rw (same) at g in
                    cc
                | inr other ↦
                    let bad : ◌≡◌ {A = Collected (List (List ℕ))} (raised checksum_mismatch)
                        (collected rows) =
                      rw (other) at g in
                    cc
              ]
          from_metrics (m ∷ []) u (collected rs) q g =
              elim (Bool-cases (text_eq (sha256 (get_object m.object_key)) m.checksum)) [
                | inl same ↦
                    let good : ◌≡◌ {A = Collected (List (List ℕ))}
                        (collected (get_object m.object_key ∷ rs)) (collected rows) =
                      rw (same) at g in
                    let rows_are : get_object m.object_key ∷ rs ≡ rows = cc in
                    subst (λ l. Rows l (j ∷ js)) rows_are
                      (
                        record {
                          succeeded = text_eq_sound j.state (codes "SUCCEEDED") (ground arith);
                          attempt = a;
                          last = p;
                          artifact = m;
                          only = u;
                          content = refl;
                          checked =
                              text_eq_sound (sha256 (get_object m.object_key)) m.checksum same;
                        },
                        after rs q,
                      )
                | inr other ↦
                    let bad : ◌≡◌ {A = Collected (List (List ℕ))} (raised checksum_mismatch)
                        (collected rows) =
                      rw (other) at g in
                    cc
              ]

  -- When the collection returns, every job has succeeded, and there is one row for each job, in order:
  -- the content of the only metrics artifact of the job's last attempt, whose checksum it has.
  pub aggregate-Rows :
      (jobs : List StudyJob) (rows : List (List ℕ))
      → aggregate jobs ≡ collected rows
      → Rows rows jobs
  unfolding aggregate
  aggregate-Rows jobs rows e = elim (Bool-cases (any_failed jobs)) [
    | inl failed ↦
        let bad : ◌≡◌ {A = Collected (List (List ℕ))} (raised not_all_succeeded) (collected rows) =
          rw (failed) at e in
        cc
    | inr fine ↦ collect-Rows jobs rows fine (rw (fine) at e)
  ]
