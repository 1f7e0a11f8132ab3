-- ===== src/Study/Published.antt =====
-- From the worker's uploads (worker/python/rungrid_worker/artifacts.py) to the rows of
-- examples/heterosplit/aggregate.py: which artifact is the metrics of a job.
use mathlib.Core.List.{reverse, reverse-append}
use rungrid.Common.{
  ℕ, ◌≡◌, ◌≢◌, refl, sym, ap, ◌∙◌, true, false, ◌⊎◌, inl, inr, Bool-cases, some, List, [], ◌∷◌,
  ◌++◌, append-nil, append_assoc, map, Text, codes, text_eq, text_eq_refl, text_eq_sound, ends_with,
  ends_with_sound, All, arith,
}
use rungrid.Wire.{Lease}
use rungrid.Artifacts.Digest.{Hash, digest, digest-eq-hash}
use rungrid.Artifacts.Key.{
  NotEmpty, slash, key_head, strip, object_key, object_key-eq, object_key_suffix,
}
use rungrid.Artifacts.Upload.{entry_at, entry_of}
use rungrid.Study.Aggregate.{
  Artifact, StudyJob, collected, last_of, is_metrics, metrics_of, any_failed, collect, aggregate,
}

-- A file that the worker uploads for a lease, and that does not change during the upload.
pub record Published : Type 0 where
  pub lease : Lease
  pub kind : Text
  pub uuid : Text
  pub name : Text
  pub content : List ℕ

-- The artifact, as the control plane lists the reported entry.
abbrev pub artifact_of : Hash → Published → Artifact
artifact_of hash u =
    let entry = entry_of hash u.lease u.kind u.content u.uuid u.name in
    record {
      attempt_id = u.lease.attempt_id;
      object_key = entry.object_key;
      checksum = entry.checksum;
    }

abbrev pub Named : Published → Type 0
Named u = NotEmpty u.lease.job_id × NotEmpty u.lease.attempt_id × NotEmpty u.kind

-- A file that is no metrics: `execution.log`, `split-manifest.json` or a checkpoint, whose name before
-- `.json` is a `uuid4`.
abbrev pub Quiet : Text → Type 0
Quiet name =
    ((v : Text) × (c : ℕ) × (name ≡ v ++ c ∷ codes ".json") × (c ≢ b's'))
    ⊎ ((v : Text) × (name ≡ v ++ codes ".log"))

-- A file of another attempt, or one that is no metrics.
abbrev pub IsOther : Text → Published → Type 0
IsOther a u = (u.lease.attempt_id ≢ a) ⊎ (Named u × Quiet u.name)

reverse_same : (s t u v : Text) → s ++ t ≡ u ++ v → reverse t ++ reverse s ≡ reverse v ++ reverse u
reverse_same s t u v e = sym (reverse-append s t) ∙ (ap reverse e ∙ reverse-append u v)

json_apart :
    (s : Text) (c : ℕ)
    → c ≢ b's'
    → ends_with (s ++ c ∷ codes ".json") (codes "-metrics.json") ≡ false
json_apart s c ne = elim (Bool-cases (ends_with (s ++ c ∷ codes ".json") (codes "-metrics.json"))) [
  | inr no_match ↦ no_match
  | inl match ↦
      let (p, e) = ends_with_sound (s ++ c ∷ codes ".json") (codes "-metrics.json") match in
      let flipped : (b'n' ∷ b'o' ∷ b's' ∷ b'j' ∷ b'.' ∷ c ∷ []) ++ reverse s
          ≡ codes "nosj.scirtem-" ++ reverse p =
        reverse_same s (c ∷ codes ".json") p (codes "-metrics.json") e in
      let same : c ≡ b's' = cc in absurd (ne same)
]

log_apart : (s : Text) → ends_with (s ++ codes ".log") (codes "-metrics.json") ≡ false
log_apart s = elim (Bool-cases (ends_with (s ++ codes ".log") (codes "-metrics.json"))) [
  | inr no_match ↦ no_match
  | inl match ↦
      let (p, e) = ends_with_sound (s ++ codes ".log") (codes "-metrics.json") match in
      let flipped : codes "gol." ++ reverse s ≡ codes "nosj.scirtem-" ++ reverse p =
        reverse_same s (codes ".log") p (codes "-metrics.json") e in
      let same : ◌≡◌ {A = ℕ} (b'g') (b'n') = cc in absurd (omega (arith, same))
]

-- What stands before the file's name in its key.
abbrev scope : Published → Text
scope u =
    ((key_head (strip u.lease.artifact_prefix) u.lease.job_id ++ slash ∷ u.lease.attempt_id)
      ++ slash ∷ u.kind)
    ++ slash ∷ (u.uuid ++ codes "-")

key_scope : (u : Published) → Named u → object_key u.lease u.kind u.uuid u.name ≡ scope u ++ u.name
key_scope u n = object_key-eq u.lease u.kind u.uuid u.name n.0 n.1 n.2 ∙ simp append_assoc

Quiet-apart :
    (u : Published)
    → Named u
    → Quiet u.name
    → ends_with (object_key u.lease u.kind u.uuid u.name) (codes "-metrics.json") ≡ false
Quiet-apart u n (inl (v, c, e, ne)) =
    rw (key_scope u n, e)
      (rw (← append_assoc (scope u) v (c ∷ codes ".json")) (json_apart (scope u ++ v) c ne))
Quiet-apart u n (inr (v, e)) =
    rw (key_scope u n, e)
      (rw (← append_assoc (scope u) v (codes ".log")) (log_apart (scope u ++ v)))

module _ (hash : Hash) where
  other_skipped :
      (a : Text) (u : Published) → IsOther a u → is_metrics a (artifact_of hash u) ≡ false
  unfolding entry_at
  other_skipped a u (inl ne) = elim (Bool-cases (text_eq u.lease.attempt_id a)) [
    | inl same ↦ absurd (ne (text_eq_sound u.lease.attempt_id a same))
    | inr other ↦ rw (other) refl
  ]
  other_skipped a u (inr (n, q)) = ground (arith, Quiet-apart u n q)

  others_skipped :
      (a : Text) (us : List Published) (rest : List Artifact)
      → All (IsOther a) us
      → metrics_of a (map (artifact_of hash) us ++ rest) ≡ metrics_of a rest
  unfolding metrics_of
  others_skipped a [] rest h = refl
  others_skipped a (u ∷ us) rest h = rw (other_skipped a u h.0) (others_skipped a us rest h.1)

  -- A job of which one file of the last attempt is the metrics, and is stored under its key.
  pub record Publishes (get_object : Text → List ℕ) (job : StudyJob) (row : List ℕ) : Type 0 where
    pub state : job.state ≡ codes "SUCCEEDED"
    pub metrics : Published
    pub attempt : last_of job.attempts ≡ some metrics.lease.attempt_id
    pub named : Named metrics
    pub name : metrics.name ≡ codes "metrics.json"
    pub before : List Published
    pub after : List Published
    pub others :
        All (IsOther metrics.lease.attempt_id) before × All (IsOther metrics.lease.attempt_id) after
    pub artifacts :
        job.artifacts
        ≡ map (artifact_of hash) before ++ artifact_of hash metrics ∷ map (artifact_of hash) after
    pub row_is : row ≡ metrics.content
    pub stored : get_object (object_key metrics.lease metrics.kind metrics.uuid metrics.name) ≡ row

  -- The hash of the whole content.
  abbrev pub sha256 : List ℕ → Text
  sha256 bytes = hash.hexdigest (hash.update hash.init bytes)

  module _ (get_object : Text → List ℕ) where
    Publishes-metrics :
        (job : StudyJob) (row : List ℕ) (p : Publishes get_object job row)
        → metrics_of p.metrics.lease.attempt_id job.artifacts ≡ artifact_of hash p.metrics ∷ []
    unfolding metrics_of entry_at
    Publishes-metrics job row p =
        let a = p.metrics.lease.attempt_id in
        let m = p.metrics in
        let suffix : ends_with (object_key m.lease m.kind m.uuid m.name) (codes "-metrics.json")
            ≡ true =
          ap (λ n. ends_with (object_key m.lease m.kind m.uuid m.name) (b'-' ∷ n)) (sym p.name)
          ∙ object_key_suffix m.lease m.kind m.uuid m.name p.named.0 p.named.1 p.named.2 in
        let nothing_after : metrics_of a (map (artifact_of hash) p.after) ≡ [] =
          ap (metrics_of a) (sym (append-nil (map (artifact_of hash) p.after)))
          ∙ others_skipped a p.after [] p.others.1 in
        rw (p.artifacts) (
          others_skipped a p.before (artifact_of hash m ∷ map (artifact_of hash) p.after) p.others.0
          ∙ rw (text_eq_refl a, suffix, nothing_after) refl)

    abbrev AllPublish : List (StudyJob × List ℕ) → Type 0
    AllPublish = All (λ x. Publishes get_object x.0 x.1)

    none_failed :
        (xs : List (StudyJob × List ℕ)) → AllPublish xs → any_failed (map (λ x. x.0) xs) ≡ false
    unfolding any_failed
    none_failed [] h = refl
    none_failed (x ∷ xs) h = rw (h.0.state) (none_failed xs h.1)

    collect-Publishes :
        (xs : List (StudyJob × List ℕ))
        → AllPublish xs
        → collect get_object sha256 (map (λ x. x.0) xs) ≡ collected (map (λ x. x.1) xs)
    unfolding collect entry_at
    collect-Publishes [] h = refl
    collect-Publishes (x ∷ xs) h =
        let p = h.0 in
        let m = p.metrics in
        let whole : digest hash m.content ≡ sha256 x.1 =
          digest-eq-hash hash m.content ∙ ap sha256 (sym p.row_is) in
        rw
          (
            p.attempt,
            Publishes-metrics x.0 x.1 p,
            p.stored,
            collect-Publishes xs h.1,
            whole,
            text_eq_refl (sha256 x.1),
          )
          refl

    -- If every job has succeeded, and its artifacts are the worker's uploads of unchanging files, of which one of the last
    -- attempt is named `metrics.json` and the others are of other attempts, or logs, split manifests
    -- and checkpoints, then the aggregation returns the content of each job's `metrics.json`.
    pub aggregate-Publishes :
        (xs : List (StudyJob × List ℕ))
        → AllPublish xs
        → aggregate get_object sha256 (map (λ x. x.0) xs) ≡ collected (map (λ x. x.1) xs)
    unfolding aggregate
    aggregate-Publishes xs h = rw (none_failed xs h) (collect-Publishes xs h)
