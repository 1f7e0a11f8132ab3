-- ===== src/Benchmarks/Rows.antt =====
-- `database_samples` of benchmarks/run.py: the rows of one run of the benchmark. `like` is the
-- database's operator LIKE.
use rungrid.Common.{
  has_code, append_cancel, append_assoc, str, Lacks-append, starts_with, starts_with-append,
  starts_with_sound, Lacks, ℕ, ◌≡◌, refl, sym, ap, ◌∙◌, Bool, true, false, ◌&&◌, inl, inr,
  Bool-cases, Option, none, some, List, [], ◌∷◌, ◌++◌, map, length, if◌then◌else◌, Text, codes,
  text_eq, text_eq_refl, text_eq_sound, All, arith,
}
use rungrid.Benchmarks.Await.{Sample}
use rungrid.Benchmarks.Batches.{job_key}

-- `all(c in cs for c in s)`
unfoldable pub all_in : Text → Text → Bool
unfolding has_code
all_in cs [] = true
all_in cs (c ∷ s) = has_code c cs && all_in cs s

abbrev pub id_codes : Text
id_codes = codes "abcdef0123456789-"

-- A row of the database, with the idempotency key of its job.
pub record Keyed : Type 0 where
  pub key : Text
  pub sample : Sample

abbrev pub before_number : Text → Text
before_number run_id = codes "bench-" ++ (run_id ++ codes "-")

-- As PostgreSQL documents LIKE, for a pattern with `%` at its end and no other special character.
abbrev pub IsLike : (Text → Text → Bool) → Type 0
IsLike like =
    (s p : Text)
    → Lacks b'%' p
    → Lacks b'_' p
    → Lacks b'\\' p
    → like s (p ++ codes "%") ≡ starts_with s p

module _ (like : Text → Text → Bool) where
  -- The condition of the query.
  unfoldable pub selected : Text → List Keyed → List Sample
  selected run_id [] = []
  selected run_id (r ∷ rs) =
      let rest = selected run_id rs in
      if like r.key (before_number run_id ++ codes "%") then r.sample ∷ rest else rest

  -- Nothing where the assertion fails.
  unfoldable pub database_samples : Text → List Keyed → Option (List Sample)
  unfolding all_in selected
  database_samples run_id rows =
      if all_in id_codes run_id then some (selected run_id rows) else none

prefix_same : (s t u v : Text) → length s ≡ length t → s ++ u ≡ t ++ v → s ≡ t
prefix_same [] [] u v n e = refl
prefix_same [] (c ∷ t) u v n e = absurd (omega (arith, n))
prefix_same (c ∷ s) [] u v n e = absurd (omega (arith, n))
prefix_same (c ∷ s) (d ∷ t) u v n e = let rest = prefix_same s t u v (omega (arith, n)) (cc) in cc

-- A text that begins as the keys of a run do.
begins_same :
    (run_id r t : Text)
    → length r ≡ length run_id
    → starts_with (codes "bench-" ++ (r ++ (codes "-" ++ t))) (before_number run_id)
      ≡ text_eq r run_id
begins_same run_id r t n = elim (Bool-cases (text_eq r run_id)) [
  | inl same ↦
      let e : r ≡ run_id = text_eq_sound r run_id same in
      let joined : codes "bench-" ++ (r ++ (codes "-" ++ t)) ≡ before_number run_id ++ t =
        ap (λ q. codes "bench-" ++ (q ++ (codes "-" ++ t))) e
        ∙ ap (codes "bench-" ++◌) (sym (append_assoc run_id (codes "-") t)) in
      rw (joined, same) (starts_with-append (before_number run_id) t)
  | inr other ↦
      elim (Bool-cases
        (starts_with (codes "bench-" ++ (r ++ (codes "-" ++ t))) (before_number run_id))) [
          | inl begins ↦
              let (u, e) =
                starts_with_sound (codes "bench-" ++ (r ++ (codes "-" ++ t))) (before_number run_id)
                  begins in
              let same : r ≡ run_id =
                prefix_same r run_id (codes "-" ++ t) (codes "-" ++ u) n
                  (append_cancel (codes "bench-") _ _ e ∙ append_assoc run_id (codes "-") u) in
              let hit : text_eq r run_id ≡ true =
                ap (λ q. text_eq q run_id) same ∙ text_eq_refl run_id in
              absurd (ground (arith, hit, other))
          | inr different ↦ different ∙ sym other
        ]
]

job_key-begins :
    (run_id r : Text) (i : ℕ)
    → length r ≡ length run_id
    → starts_with (job_key r i) (before_number run_id) ≡ text_eq r run_id
unfolding job_key
job_key-begins run_id r i n = begins_same run_id r (str i) n

has_code-Lacks : (c : ℕ) (cs s : Text) → has_code c cs ≡ false → all_in cs s ≡ true → Lacks c s
unfolding has_code all_in
has_code-Lacks c cs [] h a = tt
has_code-Lacks c cs (d ∷ s) h a = (
  (λ e. let bad : has_code d cs ≡ false = ap (λ x. has_code x cs) e ∙ h in ground (arith, bad, a)),
  has_code-Lacks c cs s h (ground (arith, a)),
)

before-Lacks :
    (c : ℕ) (run_id : Text)
    → has_code c id_codes ≡ false
    → Lacks c (codes "bench-")
    → Lacks c (codes "-")
    → all_in id_codes run_id ≡ true
    → Lacks c (before_number run_id)
before-Lacks c run_id h b d a =
    Lacks-append c (codes "bench-") (run_id ++ codes "-") b
      (Lacks-append c run_id (codes "-") (has_code-Lacks c id_codes run_id h a) d)

-- Rows of jobs that benchmark runs submitted: the run, the job's number and the sample.
abbrev pub stored : Text × ℕ × Sample → Keyed
stored r = record { key = job_key r.0 r.1; sample = r.2 }

unfoldable pub own : Text → List (Text × ℕ × Sample) → List Sample
unfolding text_eq
own run_id [] = []
own run_id (r ∷ rs) = let rest = own run_id rs in if text_eq r.0 run_id then r.2 ∷ rest else rest

module _ (like : Text → Text → Bool) where
  selected-own :
      (run_id : Text) (rows : List (Text × ℕ × Sample))
      → IsLike like
      → all_in id_codes run_id ≡ true
      → All (λ r. length r.0 ≡ length run_id) rows
      → selected like run_id (map stored rows) ≡ own run_id rows
  unfolding selected own has_code
  selected-own run_id [] l a h = refl
  selected-own run_id (r ∷ rs) l a (n, h) =
      let finds : like (job_key r.0 r.1) (before_number run_id ++ codes "%") ≡ text_eq r.0 run_id =
        l (job_key r.0 r.1) (before_number run_id)
          (before-Lacks b'%' run_id refl (omega arith) (omega arith) a)
          (before-Lacks b'_' run_id refl (omega arith) (omega arith) a)
          (before-Lacks b'\\' run_id refl (omega arith) (omega arith) a)
        ∙ job_key-begins run_id r.0 r.1 n in
      rw (finds) (
        ap (λ rest. if text_eq r.0 run_id then r.2 ∷ rest else rest) (selected-own run_id rs l a h))

  -- Among the rows of benchmark runs with ids of one length, the query of a run whose id passes the
  -- assertion returns the rows of that run, in order and no others; with another id it is not made.
  pub database_samples-own :
      (run_id : Text) (rows : List (Text × ℕ × Sample))
      → IsLike like
      → All (λ r. length r.0 ≡ length run_id) rows
      → database_samples like run_id (map stored rows)
        ≡ (if all_in id_codes run_id then some (own run_id rows) else none)
  unfolding database_samples
  database_samples-own run_id rows l h = elim (Bool-cases (all_in id_codes run_id)) [
    | inl hex ↦ rw (hex) (ap {A = List Sample} (λ x. some x) (selected-own run_id rows l hex h))
    | inr other ↦ rw (other) refl
  ]
