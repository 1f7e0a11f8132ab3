-- ===== src/Artifacts/Key.antt =====
-- The object key that `Artifacts.upload` builds.
use mathlib.Core.List.{reverse}
use rungrid.Common.{
  ℕ, ◌≡◌, sym, ◌∙◌, true, List, [], ◌∷◌, ◌++◌, append_assoc, Text, ◌==◌, if◌then◌else◌, join,
  ends_with, ends_with-append, Lacks, cut_last,
}
use rungrid.Wire.{Lease}

abbrev pub slash : ℕ
slash = b'/'

-- `lstrip("/")` and `strip("/")`
unfoldable pub lstrip : Text → Text
lstrip [] = []
lstrip (c ∷ s) = if c == slash then lstrip s else c ∷ s

unfoldable pub strip : Text → Text
unfolding lstrip
strip s = reverse (lstrip (reverse (lstrip s)))

-- `filter(None, parts)`
unfoldable pub filter_none : List Text → List Text
filter_none [] = []
filter_none ([] ∷ ts) = filter_none ts
filter_none ((c ∷ s) ∷ ts) = (c ∷ s) ∷ filter_none ts

-- `f"{uuid.uuid4()}-{path.name}"`
abbrev pub file_part : Text → Text → Text
file_part uuid name = uuid ++ b'-' ∷ name

unfoldable pub object_key : Lease → Text → Text → Text → Text
unfolding strip filter_none join
object_key lease kind uuid name = join (slash ∷ []) (
    filter_none (
      strip lease.artifact_prefix
      ∷ lease.job_id
      ∷ lease.attempt_id
      ∷ kind
      ∷ file_part uuid name
      ∷ []))

-- A part of a key that `filter` keeps and that holds no slash.
abbrev pub NotEmpty : Text → Type 0
NotEmpty [] = ⊥
NotEmpty (c ∷ s) = Unit

abbrev pub IsPart : Text → Type 0
IsPart s = NotEmpty s × Lacks slash s

-- What stands before the attempt in a key: the job, behind the prefix if there is one.
abbrev pub key_head : Text → Text → Text
key_head [] job = job
key_head (c ∷ p) job = (c ∷ p) ++ slash ∷ job

join_parts :
    (p j a k f : Text)
    → NotEmpty j
    → NotEmpty a
    → NotEmpty k
    → NotEmpty f
    → join (slash ∷ []) (filter_none (p ∷ j ∷ a ∷ k ∷ f ∷ []))
      ≡ ((key_head p j ++ slash ∷ a) ++ slash ∷ k) ++ slash ∷ f
unfolding join filter_none
join_parts [] (j ∷ js) (a ∷ as') (k ∷ ks) (f ∷ fs) _ _ _ _ = simp append_assoc
join_parts (p ∷ ps) (j ∷ js) (a ∷ as') (k ∷ ks) (f ∷ fs) _ _ _ _ = simp append_assoc
join_parts _ [] _ _ _ h _ _ _ = absurd h
join_parts _ _ [] _ _ _ h _ _ = absurd h
join_parts _ _ _ [] _ _ _ h _ = absurd h
join_parts _ _ _ _ [] _ _ _ h = absurd h

NotEmpty-file_part : (uuid name : Text) → NotEmpty (file_part uuid name)
NotEmpty-file_part [] name = tt
NotEmpty-file_part (c ∷ s) name = tt

pub object_key-eq :
    (l : Lease) (kind uuid name : Text)
    → NotEmpty l.job_id
    → NotEmpty l.attempt_id
    → NotEmpty kind
    → object_key l kind uuid name
      ≡ ((key_head (strip l.artifact_prefix) l.job_id ++ slash ∷ l.attempt_id) ++ slash ∷ kind)
        ++ slash ∷ file_part uuid name
unfolding object_key
object_key-eq l kind uuid name j a k =
    join_parts (strip l.artifact_prefix) l.job_id l.attempt_id kind (file_part uuid name) j a k
      (NotEmpty-file_part uuid name)

-- Keys are scoped by attempt: if the ids and kinds of two uploads are not empty and hold no slash,
-- and neither do their file names with the fresh ids in front, then equal keys mean the same
-- attempt, the same kind and the same file part.
pub object_key_scoped :
    (l l' : Lease) (kind kind' uuid uuid' name name' : Text)
    → NotEmpty l.job_id
    → NotEmpty l'.job_id
    → IsPart l.attempt_id
    → IsPart l'.attempt_id
    → IsPart kind
    → IsPart kind'
    → Lacks slash (file_part uuid name)
    → Lacks slash (file_part uuid' name')
    → object_key l kind uuid name ≡ object_key l' kind' uuid' name'
    → (l.attempt_id ≡ l'.attempt_id)
      × (kind ≡ kind')
      × (file_part uuid name ≡ file_part uuid' name')
object_key_scoped l l' kind kind' uuid uuid' name name' j j' a a' k k' f f' e =
    let whole =
      sym (object_key-eq l kind uuid name j a.0 k.0)
      ∙ (e ∙ object_key-eq l' kind' uuid' name' j' a'.0 k'.0) in
    let files = cut_last slash _ _ _ _ f f' whole in
    let kinds = cut_last slash _ _ _ _ k.1 k'.1 files.0 in
    ((cut_last slash _ _ _ _ a.1 a'.1 kinds.0).1, kinds.1, files.1)

-- The key of every upload of a file ends with a dash and the file's name, which is how the
-- aggregation finds `metrics.json`.
pub object_key_suffix :
    (l : Lease) (kind uuid name : Text)
    → NotEmpty l.job_id
    → NotEmpty l.attempt_id
    → NotEmpty kind
    → ends_with (object_key l kind uuid name) (b'-' ∷ name) ≡ true
object_key_suffix l kind uuid name j a k =
    let scope =
      (key_head (strip l.artifact_prefix) l.job_id ++ slash ∷ l.attempt_id) ++ slash ∷ kind in
    rw (object_key-eq l kind uuid name j a k) (
      rw (← append_assoc scope (slash ∷ uuid) (b'-' ∷ name))
        (ends_with-append (scope ++ slash ∷ uuid) (b'-' ∷ name)))
