-- ===== src/Artifacts/Effects.antt =====
-- What an upload does to the storage, to the failure counter and to the state around it.
use rungrid.Common.{
  ℕ, zero, suc, ◌+◌, ◌≤◌, ◌<◌, ◌≡◌, inl, inr, true, false, List, Text, ◌==◌, arith, Bool-cases,
  length,
}
use rungrid.Wire.{Lease, Entry}
use rungrid.Artifacts.Digest.{Hash}
use rungrid.Artifacts.Key.{object_key}
use rungrid.Artifacts.Upload.{
  Site, Upload, uploaded, lease_lost, storage_error, fell_through, tries, upload_delay, try_put,
  entry_at, upload, body_at, stat_at,
}

-- Two counters of a site's state: the tries of `put_object`, and the calls of `on_failure`.
pub record Counters {S : Type 0} (site : Site S) : Type 0 where
  pub puts : S → ℕ
  pub failures : S → ℕ
  pub put-puts : (k h : Text) (c : List ℕ) (s : S) → puts (site.put k c h s).1 ≡ suc (puts s)
  pub put-failures : (k h : Text) (c : List ℕ) (s : S) → failures (site.put k c h s).1 ≡ failures s
  pub on_failure-puts : (s : S) → puts (site.on_failure s) ≡ puts s
  pub on_failure-failures : (s : S) → failures (site.on_failure s) ≡ suc (failures s)
  pub sleep-puts : (t : ℕ) (s : S) → puts (site.sleep t s) ≡ puts s
  pub sleep-failures : (t : ℕ) (s : S) → failures (site.sleep t s) ≡ failures s

-- How the counters move from `p` and `f` to `p'` and `f'` in an upload with `left` tries: a failed
-- try counts as a failure, and a storage error leaves the upload only after the last try.
abbrev pub Accounts : ℕ → ℕ → ℕ → ℕ → ℕ → Upload → Type 0
Accounts left p f p' f' (uploaded e) = (p' + f ≡ suc (p + f')) × (p' ≤ p + left)
Accounts left p f p' f' lease_lost = (p' + f ≡ p + f') × (p' < p + left)
Accounts left p f p' f' storage_error = (p' ≡ p + left) × (f' ≡ f + left)
Accounts left p f p' f' fell_through = ⊥

Accounts-again :
    (u : Upload) (left p f p' f' : ℕ)
    → Accounts left (suc p) (suc f) p' f' u
    → Accounts (suc left) p f p' f' u
Accounts-again (uploaded e) left p f p' f' h = omega arith
Accounts-again lease_lost left p f p' f' h = omega arith
Accounts-again storage_error left p f p' f' h = omega arith
Accounts-again fell_through left p f p' f' h = h

module _ {S : Type 0} (site : Site S) (key : Text) (content : ℕ → List ℕ) (entry : ℕ → Entry) where
  open site use {alive, put, on_failure, sleep}

  -- The state after one failed try, its report, and the sleep.
  abbrev pub retried : ℕ → S → S
  retried attempt s =
      sleep (upload_delay attempt)
        (on_failure (put key (content (body_at attempt)) (entry attempt).checksum s).1)

  -- The four ways through a try, for any property of the result.
  pub try_put-cases :
      (Q : Upload × S → Type 0) (left attempt : ℕ) (s : S)
      → (alive s ≡ false → Q (lease_lost, s))
      → (alive s ≡ true
          → (put key (content (body_at attempt)) (entry attempt).checksum s).0 ≡ true
          → Q (
            uploaded (entry attempt),
            (put key (content (body_at attempt)) (entry attempt).checksum s).1,
          ))
      → (alive s ≡ true
          → (put key (content (body_at attempt)) (entry attempt).checksum s).0 ≡ false
          → attempt ≡ 4
          → Q (
            storage_error,
            on_failure (put key (content (body_at attempt)) (entry attempt).checksum s).1,
          ))
      → (alive s ≡ true
          → (put key (content (body_at attempt)) (entry attempt).checksum s).0 ≡ false
          → ¬ (attempt ≡ 4)
          → Q (try_put site key content entry left (suc attempt) (retried attempt s)))
      → Q (try_put site key content entry (suc left) attempt s)
  unfolding try_put
  try_put-cases Q left attempt s lost good last more = elim (Bool-cases (alive s)) [
    | inr a ↦ rw (a, try_put) (lost a)
    | inl a ↦
        rw (a, try_put)
          (elim (Bool-cases (put key (content (body_at attempt)) (entry attempt).checksum s).0) [
            | inl d ↦ rw (d) (good a d)
            | inr d ↦ rw (d) (elim (Bool-cases (attempt == 4)) [
              | inl e ↦ rw (e) (last a d (ground arith))
              | inr e ↦ rw (e) (more a d (ground arith))
            ])
          ])
  ]

  -- A property that the tries, the reports and the sleeps keep, where a try may be taken only while
  -- the lease is alive, holds after the upload.
  pub try_put-keeps :
      (P : S → Type 0)
      → ((n : ℕ) (s : S)
          → alive s ≡ true
          → P s
          → P (put key (content (body_at n)) (entry n).checksum s).1)
      → ((s : S) → P s → P (on_failure s))
      → ((t : ℕ) (s : S) → P s → P (sleep t s))
      → (left attempt : ℕ) (s : S) → P s
      → P (try_put site key content entry left attempt s).1
  unfolding try_put
  try_put-keeps P onput onfail onsleep zero attempt s h = h
  try_put-keeps P onput onfail onsleep (suc left) attempt s h =
      try_put-cases (λ r. P r.1) left attempt s (λ a. h) (λ a d. onput attempt s a h)
        (λ a d e. onfail _ (onput attempt s a h))
        (λ a d e.
          try_put-keeps P onput onfail onsleep left (suc attempt) (retried attempt s)
            (onsleep _ _ (onfail _ (onput attempt s a h))))

  module _ (counters : Counters site) where
    open counters use {puts, failures}

    retried-counters :
        (attempt : ℕ) (s : S)
        → (puts (retried attempt s) ≡ suc (puts s))
          × (failures (retried attempt s) ≡ suc (failures s))
    retried-counters attempt s = grind (
      arith, counters.put-puts, counters.put-failures, counters.on_failure-puts,
      counters.on_failure-failures, counters.sleep-puts, counters.sleep-failures,
    )

    try_put-Accounts :
        (left attempt : ℕ) (s : S)
        → left + attempt ≡ 5
        → attempt ≤ 4
        → let (u, s') = try_put site key content entry left attempt s in
          Accounts left (puts s) (failures s) (puts s') (failures s') u
    try_put-Accounts zero attempt s e le = absurd (omega arith)
    try_put-Accounts (suc left) attempt s e le =
        let s' = (put key (content (body_at attempt)) (entry attempt).checksum s).1 in
        let puts_suc =
          counters.put-puts key (entry attempt).checksum (content (body_at attempt)) s in
        let failures_same =
          counters.put-failures key (entry attempt).checksum (content (body_at attempt)) s in
        try_put-cases (λ r. Accounts (suc left) (puts s) (failures s) (puts r.1) (failures r.1) r.0)
          left attempt s (λ a. omega arith) (λ a d. omega (arith, puts_suc, failures_same))
          (λ a d q. omega (
            arith,
            puts_suc,
            failures_same,
            counters.on_failure-puts s',
            counters.on_failure-failures s',
          ))
          (λ a d q.
            let (more, less) = retried-counters attempt s in
            Accounts-again _ left (puts s) (failures s) _ _ (
              rw (← more, ← less)
                (try_put-Accounts left (suc attempt) (retried attempt s) (omega arith)
                  (omega arith))))

-- An upload tries five times at most and never falls out of its loop. Each failed try is counted
-- once by `on_failure`, an uploaded file has had one try that did not fail, a lost lease stops the
-- upload before the fifth try, and the storage's error is raised only after five failed tries.
pub upload-Accounts :
    {S : Type 0} (site : Site S) (counters : Counters site)
    → (hash : Hash) (lease : Lease) (kind : Text) (content : ℕ → List ℕ) (uuid name : Text) (s : S)
    → let (u, s') = upload site hash lease kind content uuid name s in
      Accounts tries
        (counters.puts s)
        (counters.failures s)
        (counters.puts s')
        (counters.failures s')
        u
unfolding upload
upload-Accounts site counters hash lease kind content uuid name s =
    try_put-Accounts site (object_key lease kind uuid name) content
      (λ attempt.
        entry_at hash lease kind (content 0) (length (content (stat_at attempt))) uuid name)
      counters tries 0 s (omega arith) (omega arith)
