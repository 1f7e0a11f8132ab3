-- ===== src/Artifacts/Upload.antt =====
-- `Artifacts.upload`: five tries with backoff, each only while the lease is alive.
use rungrid.Common.{ℕ, zero, suc, ◌+◌, ◌*◌, ◌^◌, min, Bool, true, false, List, Text, ◌==◌, length}
use rungrid.Wire.{Lease, Entry}
use rungrid.Artifacts.Digest.{Hash, digest}
use rungrid.Artifacts.Key.{object_key}

-- What the worker around an upload provides, on its state `S`: the test of the lease, one try of
-- `put_object` under a key (with whether it succeeded), `on_failure`, and `time.sleep`.
pub record Site (S : Type 0) : Type 0 where
  pub alive : S → Bool
  pub put : Text → List ℕ → Text → S → Bool × S
  pub on_failure : S → S
  pub sleep : ℕ → S → S

-- How an upload ends: it returns the entry, raises that the lease is lost, or raises the storage's
-- error. `fell_through` is the end of the `for` loop, which would return `None`.
pub data Upload : Type 0 where
  uploaded : Entry → Upload
  lease_lost storage_error fell_through : Upload

-- The sleep after failed try `attempt`, in milliseconds.
abbrev pub upload_delay : ℕ → ℕ
upload_delay attempt = min (200 * 2 ^ attempt) 2000

abbrev pub tries : ℕ
tries = 5

-- The reads of the file: `digest` opens it first, then each try opens it and, behind `put_object`, takes its
-- size.
abbrev pub body_at : ℕ → ℕ
body_at attempt = 2 * attempt + 1

abbrev pub stat_at : ℕ → ℕ
stat_at attempt = 2 * attempt + 2

module _ {S : Type 0} (site : Site S) (key : Text) (content : ℕ → List ℕ) (entry : ℕ → Entry) where
  open site use {alive, put, on_failure, sleep}

  -- `for attempt in range(5)`, by the tries that are left; a try that succeeds returns its entry.
  unfoldable pub try_put : ℕ → ℕ → S → Upload × S
  try_put zero attempt s = (fell_through, s)
  try_put (suc left) attempt s = elim (alive s) [
    | false ↦ (lease_lost, s)
    | true ↦
        let (done, s') = put key (content (body_at attempt)) (entry attempt).checksum s in
        let failed = on_failure s' in
        let again = try_put left (suc attempt) (sleep (upload_delay attempt) failed) in
        elim done [
          | true ↦ (uploaded (entry attempt), s')
          | false ↦ elim (attempt == 4) [ true ↦ (storage_error, failed) | false ↦ again ]
        ]
  ]

-- The metadata of an upload, of the content that was digested and the size that was found.
unfoldable pub entry_at : Hash → Lease → Text → List ℕ → ℕ → Text → Text → Entry
entry_at hash lease kind content size uuid name = record {
  object_key = object_key lease kind uuid name;
  size_bytes = size;
  checksum = digest hash content;
  kind = kind;
}

-- Of a file that does not change.
abbrev pub entry_of : Hash → Lease → Text → List ℕ → Text → Text → Entry
entry_of hash lease kind content uuid name =
    entry_at hash lease kind content (length content) uuid name

-- `upload` of a file with this name; `content` is what each read finds, the first one first, and `uuid` the
-- text of a new `uuid4`.
unfoldable pub upload :
    {S : Type 0} → Site S → Hash → Lease → Text → (ℕ → List ℕ) → Text → Text → S → Upload × S
unfolding entry_at try_put
upload site hash lease kind content uuid name s =
    try_put site (object_key lease kind uuid name) content
      (λ attempt.
        entry_at hash lease kind (content 0) (length (content (stat_at attempt))) uuid name)
      tries 0 s
