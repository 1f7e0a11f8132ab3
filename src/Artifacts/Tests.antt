-- ===== src/Artifacts/Tests.antt =====
-- A bucket with a planned outage, and the tests and examples of the uploads.
use rungrid.Common.{
  ℕ, suc, ◌+◌, ◌≡◌, refl, Bool, true, false, Option, none, some, List, [], ◌∷◌, ◌++◌, append-nil,
  append_assoc, Text, codes, arith, ltb, text_eq, text_eq_refl, if◌then◌else◌,
}
use rungrid.Wire.{Lease, Entry}
use rungrid.Artifacts.Digest.{Hash, digest}
use rungrid.Artifacts.Key.{object_key, object_key_scoped, file_part}
use rungrid.Artifacts.Upload.{Site, uploaded, lease_lost, tries, upload}
use rungrid.Artifacts.Effects.{Counters, Accounts, upload-Accounts}
use rungrid.Artifacts.Restore.{restored, restore, Keeps, restore-upload}

-- The hash that keeps the whole content.
abbrev pub plain : Hash
plain = record {
  State = List ℕ;
  init = [];
  update = λ h a. h ++ a;
  hexdigest = λ h. h;
  update-nil = λ h. append-nil h;
  update-append = λ h a b. append_assoc h a b;
}

-- `outages` says of the coming tries whether they fail.
pub record Bucket : Type 0 where
  pub objects : List (Text × List ℕ)
  pub outages : List Bool
  pub now : ℕ
  pub puts : ℕ
  pub failures : ℕ

pub find : Text → List (Text × List ℕ) → Option (List ℕ)
unfolding text_eq
find k [] = none
find k ((j, c) ∷ os) = if text_eq j k then some c else find k os

abbrev put_object : Text → List ℕ → Bucket → List Bool → Bool × Bucket
put_object k c b (true ∷ more) = (false, record b { outages = more; puts = suc b.puts })
put_object k c b (false ∷ more) =
    (true, record b { objects = (k, c) ∷ b.objects; outages = more; puts = suc b.puts })
put_object k c b [] = (true, record b { objects = (k, c) ∷ b.objects; puts = suc b.puts })

abbrev pub bucket_site : Site Bucket
bucket_site = record {
  alive = λ b. ltb b.now 1000;
  put = λ k c h b. put_object k c b b.outages;
  on_failure = λ b. record b { failures = suc b.failures };
  sleep = λ t b. record b { now = b.now + t };
}

put_object-puts :
    (k : Text) (c : List ℕ) (b : Bucket) (o : List Bool) → (put_object k c b o).1.puts ≡ suc b.puts
put_object-puts k c b [] = refl
put_object-puts k c b (true ∷ o) = refl
put_object-puts k c b (false ∷ o) = refl

put_object-failures :
    (k : Text) (c : List ℕ) (b : Bucket) (o : List Bool)
    → (put_object k c b o).1.failures ≡ b.failures
put_object-failures k c b [] = refl
put_object-failures k c b (true ∷ o) = refl
put_object-failures k c b (false ∷ o) = refl

abbrev counted : Counters bucket_site
counted = record {
  puts = λ b. b.puts;
  failures = λ b. b.failures;
  put-puts = λ k h c b. put_object-puts k c b b.outages;
  put-failures = λ k h c b. put_object-failures k c b b.outages;
  on_failure-puts = λ b. refl;
  on_failure-failures = λ b. refl;
  sleep-puts = λ t b. refl;
  sleep-failures = λ t b. refl;
}

put_object-find :
    (k : Text) (c : List ℕ) (b : Bucket) (o : List Bool)
    → (put_object k c b o).0 ≡ true
    → find k (put_object k c b o).1.objects ≡ some c
unfolding find
put_object-find k c b [] h = rw (text_eq_refl k)
put_object-find k c b (false ∷ o) h = rw (text_eq_refl k)
put_object-find k c b (true ∷ o) h = cc

abbrev pub download : Bucket → Text → Option (List ℕ)
download b k = find k b.objects

pub bucket-Keeps : Keeps bucket_site download
bucket-Keeps k h c b = put_object-find k c b b.outages

abbrev pub lease : Lease
lease = record {
  job_id = codes "j1";
  attempt_id = codes "a1";
  lease_token = codes "t";
  artifact_prefix = codes "/demo/x/";
  local_deadline = 1000;
  checkpoint = none;
}

abbrev pub bucket : Bucket
bucket = record { objects = []; outages = true ∷ true ∷ []; now = 0; puts = 0; failures = 0 }

abbrev kind : Text
kind = codes "output"

abbrev name : Text
name = codes "metrics.json"

key_runs : object_key lease kind (codes "u1") name ≡ codes "demo/x/j1/a1/output/u1-metrics.json"
unfolding object_key
key_runs = refl

abbrev metrics : Entry
metrics = record {
  object_key = codes "demo/x/j1/a1/output/u1-metrics.json";
  size_bytes = 3;
  checksum = 7 ∷ 8 ∷ 9 ∷ [];
  kind = kind;
}

abbrev after : Bucket
after = record {
  objects = (codes "demo/x/j1/a1/output/u1-metrics.json", 7 ∷ 8 ∷ 9 ∷ []) ∷ [];
  outages = [];
  now = 600;
  puts = 3;
  failures = 2;
}

-- Two failed tries, then a sleep of 200 and of 400 ms behind the object.
upload_runs :
    upload bucket_site plain lease kind (λ i. 7 ∷ 8 ∷ 9 ∷ []) (codes "u1") name bucket
    ≡ (uploaded metrics, after)
unfolding upload object_key digest
upload_runs = refl

upload_late :
    (upload bucket_site plain lease kind
      (λ i. 7 ∷ 8 ∷ 9 ∷ [])
      (codes "u1")
      name
      (record bucket { now = 2000 })).0
    ≡ lease_lost
unfolding upload object_key digest
upload_late = refl

upload-Accounts_example :
    let (u, s') =
      upload bucket_site plain lease kind (λ i. 7 ∷ 8 ∷ 9 ∷ []) (codes "u1") name bucket in
    Accounts tries 0 0 s'.puts s'.failures u
upload-Accounts_example =
    upload-Accounts bucket_site counted plain lease kind (λ i. 7 ∷ 8 ∷ 9 ∷ []) (codes "u1") name
      bucket

restore-upload_example : restore download plain metrics after ≡ restored (7 ∷ 8 ∷ 9 ∷ [])
restore-upload_example =
    restore-upload bucket_site download plain lease kind (7 ∷ 8 ∷ 9 ∷ []) (codes "u1") name bucket
      after metrics bucket-Keeps upload_runs

object_key_scoped_example :
    (lease.attempt_id ≡ lease.attempt_id)
    × (kind ≡ kind)
    × (file_part (codes "u1") name ≡ file_part (codes "u1") name)
object_key_scoped_example =
    object_key_scoped lease lease kind kind (codes "u1") (codes "u1") name name tt tt
      (tt, omega arith) (tt, omega arith) (tt, omega arith) (tt, omega arith) (omega arith)
      (omega arith) refl
