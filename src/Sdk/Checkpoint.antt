-- ===== src/Sdk/Checkpoint.antt =====
-- `checkpoint` of sdk/python/rungrid/checkpoint.py, and what a worker that looks for `*.json` files can
-- see at any moment of it. A directory maps the names in it to contents; `replace` is one step, as
-- the operating system documents it.
use mathlib.Core.List.{reverse, reverse-append}
use rungrid.Common.{
  ℕ, zero, suc, ◌≡◌, ◌≢◌, refl, sym, ◌∙◌, ap, ◌⊎◌, inl, inr, true, false, Option, none, some, List,
  [], ◌∷◌, ◌++◌, append-nil, append_assoc, Text, codes, text_eq, text_eq_refl, text_eq_sound, take,
  ends_with, ends_with_sound, ends_with-append, if◌then◌else◌, Bool-cases,
}

abbrev pub Directory : Type 0
Directory = Text → Option (List ℕ)

-- The steps of the function on the file system.
pub data Op : Type 0 where
  create : Text → Op
  write : Text → List ℕ → Op
  sync : Text → Op
  replace : Text → Text → Op

unfoldable pub put : Text → Option (List ℕ) → Directory → Directory
unfolding text_eq
put n v d k = if text_eq n k then v else d k

abbrev pub extend : Option (List ℕ) → List ℕ → Option (List ℕ)
extend none bytes = none
extend (some old) bytes = some (old ++ bytes)

unfoldable pub do_op : Op → Directory → Directory
unfolding put
do_op (create n) d = put n (some []) d
do_op (write n bytes) d = put n (extend (d n) bytes) d
do_op (sync n) d = d
do_op (replace n k) d = put n none (put k (d n) d)

unfoldable pub do_ops : List Op → Directory → Directory
unfolding do_op
do_ops [] d = d
do_ops (o ∷ os) d = do_ops os (do_op o d)

-- `f"{uuid.uuid4()}.json"` and `with_suffix(".tmp")`
abbrev pub target : Text → Text
target uuid = uuid ++ codes ".json"

abbrev pub temporary : Text → Text
temporary uuid = uuid ++ codes ".tmp"

-- What `json.dump` writes, in the pieces that it writes, and what follows.
unfoldable pub write_all : Text → Text → List (List ℕ) → List Op
write_all tmp goal [] = sync tmp ∷ replace tmp goal ∷ []
write_all tmp goal (c ∷ cs) = write tmp c ∷ write_all tmp goal cs

unfoldable pub checkpoint : Text → List (List ℕ) → List Op
unfolding write_all
checkpoint uuid pieces = create (temporary uuid) ∷ write_all (temporary uuid) (target uuid) pieces

abbrev pub whole : List (List ℕ) → List ℕ
whole [] = []
whole (c ∷ cs) = c ++ whole cs

put_self : (n : Text) (v : Option (List ℕ)) (d : Directory) → put n v d n ≡ v
unfolding put
put_self n v d = rw (text_eq_refl n)

put_ne : (n k : Text) (v : Option (List ℕ)) (d : Directory) → n ≢ k → put n v d k ≡ d k
unfolding put
put_ne n k v d ne = elim (Bool-cases (text_eq n k)) [
  | inl same ↦ absurd (ne (text_eq_sound n k same))
  | inr other ↦ rw (other)
]

put_other :
    (n k : Text) (v : Option (List ℕ)) (d : Directory) → text_eq n k ≡ false → put n v d k ≡ d k
unfolding put
put_other n k v d other = rw (other)

-- A name is untouched, or is the goal with all that is written.
abbrev pub Sees : Directory → Directory → Text → Text → List ℕ → Type 0
Sees d d' k goal full = (d' k ≡ d k) ⊎ ((k ≡ goal) × (d' k ≡ some full))

module _ (tmp goal k : Text) (apart : tmp ≢ k) where
  put-replaced :
      (d : Directory) (full : List ℕ)
      → d tmp ≡ some full
      → Sees d (put tmp none (put goal (d tmp) d)) k goal full
  put-replaced d full e = elim (Bool-cases (text_eq goal k)) [
    | inl same ↦
        let hit : goal ≡ k = text_eq_sound goal k same in
        inr (
          sym hit,
          put_ne tmp k none (put goal (d tmp) d) apart ∙ (rw (← hit) (put_self goal (d tmp) d ∙ e)),
        )
    | inr other ↦
        inl (put_ne tmp k none (put goal (d tmp) d) apart ∙ put_other goal k (d tmp) d other)
  ]

  writes_seen :
      (pieces : List (List ℕ)) (j : ℕ) (d : Directory) (old : List ℕ)
      → d tmp ≡ some old
      → Sees d (do_ops (take j (write_all tmp goal pieces)) d) k goal (old ++ whole pieces)
  unfolding do_ops write_all
  writes_seen [] zero d old e = inl refl
  writes_seen [] (suc zero) d old e = inl refl
  writes_seen [] (suc (suc zero)) d old e =
      put-replaced d (old ++ []) (e ∙ ap some (sym (append-nil old)))
  writes_seen [] (suc (suc (suc j))) d old e =
      put-replaced d (old ++ []) (e ∙ ap some (sym (append-nil old)))
  writes_seen (c ∷ cs) zero d old e = inl refl
  writes_seen (c ∷ cs) (suc j) d old e =
      let v = extend (d tmp) c in
      let d' = put tmp v d in
      let wrote : d' tmp ≡ some (old ++ c) = put_self tmp v d ∙ ap (λ o. extend o c) e in
      elim (writes_seen cs j d' (old ++ c) wrote) [
        | inl same ↦ inl (same ∙ put_ne tmp k v d apart)
        | inr (hit, full) ↦ inr (hit, full ∙ ap some (append_assoc old c (whole cs)))
      ]

module _ (tmp goal : Text) (apart : tmp ≢ goal) where
  writes_done :
      (pieces : List (List ℕ)) (d : Directory) (old : List ℕ)
      → d tmp ≡ some old
      → let d' = do_ops (write_all tmp goal pieces) d in
        (d' goal ≡ some (old ++ whole pieces)) × (d' tmp ≡ none)
  unfolding do_ops write_all
  writes_done [] d old e = (
    put_ne tmp goal none (put goal (d tmp) d) apart
        ∙ (put_self goal (d tmp) d ∙ (e ∙ ap some (sym (append-nil old)))),
    put_self tmp none (put goal (d tmp) d),
  )
  writes_done (c ∷ cs) d old e =
      let v = extend (d tmp) c in
      let rest =
        writes_done cs (put tmp v d) (old ++ c) (put_self tmp v d ∙ ap (λ o. extend o c) e) in
      (rest.0 ∙ ap some (append_assoc old c (whole cs)), rest.1)

-- The temporary file is no checkpoint to the worker.
temporary-ne-json : (uuid k : Text) → ends_with k (codes ".json") ≡ true → temporary uuid ≢ k
temporary-ne-json uuid k h e =
    let (p, q) = ends_with_sound k (codes ".json") h in
    let flipped : reverse (codes ".tmp") ++ reverse uuid ≡ reverse (codes ".json") ++ reverse p =
      sym (reverse-append uuid (codes ".tmp"))
      ∙ (ap reverse (e ∙ q) ∙ reverse-append p (codes ".json")) in
    absurd (heads flipped)
  where
    heads :
        codes "pmt." ++ reverse uuid
          ≡ codes "nosj." ++ reverse (ends_with_sound k (codes ".json") h).0
        → ⊥
    heads x = cc

-- However far `checkpoint` has come when the command is killed, every `*.json` name in the directory
-- is as it was before, or is the new checkpoint with its whole content. The worker, which takes up
-- only such names, never meets a part of a checkpoint.
pub checkpoint_atomic :
    (uuid k : Text) (pieces : List (List ℕ)) (j : ℕ) (d : Directory)
    → ends_with k (codes ".json") ≡ true
    → Sees d (do_ops (take j (checkpoint uuid pieces)) d) k (target uuid) (whole pieces)
unfolding checkpoint do_ops
checkpoint_atomic uuid k pieces zero d h = inl refl
checkpoint_atomic uuid k pieces (suc j) d h =
    let tmp = temporary uuid in
    let apart = temporary-ne-json uuid k h in
    elim (writes_seen tmp (target uuid) k apart pieces j (put tmp (some []) d) []
      (put_self tmp (some []) d)) [
        | inl same ↦ inl (same ∙ put_ne tmp k (some []) d apart)
        | inr done ↦ inr done
      ]

-- When `checkpoint` returns, the new name holds all that was written, and the temporary file is gone.
pub checkpoint_done :
    (uuid : Text) (pieces : List (List ℕ)) (d : Directory)
    → let d' = do_ops (checkpoint uuid pieces) d in
      (d' (target uuid) ≡ some (whole pieces)) × (d' (temporary uuid) ≡ none)
unfolding checkpoint do_ops
checkpoint_done uuid pieces d =
    writes_done (temporary uuid) (target uuid)
      (temporary-ne-json uuid (target uuid) (ends_with-append uuid (codes ".json"))) pieces
      (put (temporary uuid) (some []) d) [] (put_self (temporary uuid) (some []) d)
