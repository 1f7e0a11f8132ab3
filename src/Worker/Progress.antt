-- ===== src/Worker/Progress.antt =====
-- What one `progress()` settles, and the batches that metadata is cut into.
use rungrid.Common.{
  ℕ, zero, suc, ◌≤◌, ◌<◌, ◌≡◌, refl, sym, ap, ◌∙◌, inl, inr, List, [], ◌∷◌, ◌++◌, map, append-nil,
  append_assoc, take, drop, length, length-drop, length-take-le, take-append-drop, All, codes, Text,
  arith, Option-cases, Bool-cases, ◌⊎◌, true, text_eq, text_eq_refl, text_eq_sound,
}
use mathlib.Core.Path.{subst}
use mathlib.Core.List.{map-append}
use rungrid.Wire.{Method, Entry, Lease, report_progress}
use rungrid.Artifacts.Digest.{Hash}
use rungrid.Artifacts.Upload.{Upload, uploaded, lease_lost, storage_error, fell_through}
use rungrid.Worker.State.{Machine, World, Call, Payload, logs, artifacts, File}
use rungrid.Worker.Threads.{wait, wait-Passive}
use rungrid.Worker.Monad.{
  M, Step, value, returned, raised, stuck, then_do, rpc, upload_file, upload_file-keeps,
  upload_step,
}
use rungrid.Worker.Execute.{
  contains, batches, batches_from, batch_size, new_files, upload_files, report_checkpoints, report,
  progress,
}

abbrev pub flatten {ℓ} : {A : Type ℓ} → List (List A) → List A
flatten [] = []
flatten (x ∷ xs) = x ++ flatten xs

abbrev pub IsBatch {ℓ} : {A : Type ℓ} → List A → Type 0
IsBatch b = (0 < length b) × (length b ≤ batch_size)

module _ {ℓ} {A : Type ℓ} where
  batches_from-flatten :
      (fuel : ℕ) (xs : List A)
      → length xs ≤ fuel
      → (flatten (batches_from fuel xs) ≡ xs) × All IsBatch (batches_from fuel xs)
  unfolding batches_from
  batches_from-flatten zero [] h = (refl, tt)
  batches_from-flatten zero (x ∷ xs) h = absurd (omega arith)
  batches_from-flatten (suc fuel) [] h = (refl, tt)
  batches_from-flatten (suc fuel) (x ∷ xs) h =
      let rest = batches_from-flatten fuel (drop 99 xs) (omega (arith, length-drop 99 xs)) in
      (
        ap (λ t. x ∷ (take 99 xs ++ t)) rest.0 ∙ ap (λ t. x ∷ t) (take-append-drop 99 xs),
        ((omega arith, omega (arith, length-take-le 99 xs)), rest.1),
      )

-- The slices of a list, in order, are the whole list again, and each of them holds at least one and
-- at most 100 items.
pub batches-flatten {ℓ} :
    {A : Type ℓ} (xs : List A) → (flatten (batches xs) ≡ xs) × All IsBatch (batches xs)
unfolding batches
batches-flatten xs = batches_from-flatten (length xs) xs (omega arith)

-- The lines that calls have reported, the first call's first.
abbrev lines_of : Payload → List Text
lines_of (logs ls) = ls
lines_of _ = []

abbrev pub logged : List Call → List Text
logged [] = []
logged (c ∷ cs) = logged cs ++ lines_of c.payload

abbrev pub IsIn : Text → List Text → Type 0
IsIn n [] = ⊥
IsIn n (k ∷ ks) = (n ≡ k) ⊎ IsIn n ks

-- The names, in order, without those that were seen.
abbrev pub IsNew : List Text → List Text → List Text → Type 0
IsNew seen [] ns = ns ≡ []
IsNew seen (n ∷ names) ns =
    (IsIn n seen × IsNew seen names ns)
    ⊎ ((IsIn n seen → ⊥) × ((rest : List Text) × (ns ≡ n ∷ rest) × IsNew seen names rest))

contains-IsIn : (n : Text) (ks : List Text) → contains n ks ≡ true → IsIn n ks
unfolding contains
contains-IsIn n [] h = cc
contains-IsIn n (k ∷ ks) h = elim (Bool-cases (text_eq n k)) [
  | inl same ↦ inl (text_eq_sound n k same)
  | inr other ↦ inr (contains-IsIn n ks (rw (other) at h))
]

IsIn-contains : (n : Text) (ks : List Text) → IsIn n ks → contains n ks ≡ true
unfolding contains
IsIn-contains n [] h = elim h [ ]
IsIn-contains n (k ∷ ks) (inl e) = rw (ap (text_eq n) (sym e) ∙ text_eq_refl n) refl
IsIn-contains n (k ∷ ks) (inr h) = ground (arith, IsIn-contains n ks h)

new_files-IsNew :
    (seen : List Text) (fs : List File)
    → IsNew seen (map (λ f. f.name) fs) (map (λ f. f.name) (new_files seen fs))
unfolding new_files
new_files-IsNew seen [] = refl
new_files-IsNew seen (f ∷ fs) = elim (Bool-cases (contains f.name seen)) [
  | inl old ↦ inl (contains-IsIn f.name seen old, rw (old) (new_files-IsNew seen fs))
  | inr new ↦ inr (
    (λ h. let old = IsIn-contains f.name seen h in cc),
    (map (λ g. g.name) (new_files seen fs), rw (new) refl, new_files-IsNew seen fs),
  )
]

-- Of a step that goes on.
abbrev Settles : {A : Type 0} → (A → Machine → Type 0) → Step A × Machine → Type 0
Settles Q (value a, m) = Q a m
Settles Q (_, m) = Unit

Settles-then :
    {A B : Type 0} (Q : A → Machine → Type 0) (R : B → Machine → Type 0) (r : Step A × Machine)
    → (f : A → M B) → Settles Q r
    → ((a : A) (m : Machine) → Q a m → Settles R (f a m))
    → Settles R (then_do r f)
Settles-then Q R (value a, m) f h k = k a m h
Settles-then Q R (returned, m) f h k = tt
Settles-then Q R (raised e, m) f h k = tt
Settles-then Q R (stuck, m) f h k = tt

-- The settled paths and the reported lines of a machine.
abbrev Books : List Text → List Text → Machine → Type 0
Books us ls m = (m.uploaded ≡ us) × (logged m.calls ≡ ls)

Books-wait : (w : World) (us ls : List Text) (m : Machine) → Books us ls m → Books us ls (wait w m)
Books-wait w us ls m h =
    let p = wait-Passive w m in (p.same_uploaded ∙ h.0, ap logged p.same_calls ∙ h.1)

rpc-Books :
    (w : World) (method : Method) (payload : Payload) (us ls : List Text) (m : Machine)
    → Books us ls m
    → Settles (λ u. Books us (ls ++ lines_of payload)) (rpc w method payload m)
unfolding rpc
rpc-Books w method payload us ls m h = elim (Option-cases (w.reply m.waits method payload)) [
  | inl e ↦
      let later = Books-wait w us ls m h in
      rw (e, rpc) (later.0, ap (λ t. t ++ lines_of payload) later.1)
  | inr (code, e) ↦ rw (e, rpc) tt
]

upload_step-Books :
    (us ls : List Text) (u : Upload) (m : Machine)
    → Books us ls m
    → Settles (λ e. Books us ls) (upload_step u, m)
upload_step-Books us ls (uploaded e) m h = h
upload_step-Books us ls lease_lost m h = tt
upload_step-Books us ls storage_error m h = tt
upload_step-Books us ls fell_through m h = tt

module _ (w : World) (hash : Hash) (lease : Lease) where
  upload_file-Books :
      (kind : Text) (f : File) (us ls : List Text) (m : Machine)
      → Books us ls m
      → Settles (λ e. Books us ls) (upload_file w hash lease kind f m)
  unfolding upload_file
  upload_file-Books kind f us ls m h =
      upload_step-Books us ls _ (upload_file w hash lease kind f m).1
        (upload_file-keeps w hash lease kind f (Books us ls) (Books-wait w us ls) (λ s q. q) m h)

  upload_files-Books :
      (kind : Text) (fs : List File) (us ls : List Text) (m : Machine)
      → Books us ls m
      → Settles
          (λ ps m'. (map (λ p. p.1) ps ≡ map (λ f. f.name) fs) × Books us ls m')
          (upload_files w hash lease kind fs m)
  unfolding upload_files
  upload_files-Books kind [] us ls m h = (refl, h)
  upload_files-Books kind (f ∷ fs) us ls m h =
      Settles-then (λ e. Books us ls) _ (upload_file w hash lease kind f m) _
        (upload_file-Books kind f us ls m h)
        (λ e m' h'.
          Settles-then (λ ps m''. (map (λ p. p.1) ps ≡ map (λ f. f.name) fs) × Books us ls m'') _
            (upload_files w hash lease kind fs m') _ (upload_files-Books kind fs us ls m' h')
            (λ ps m'' h''. (ap (λ t. f.name ∷ t) h''.0, h''.1)))

  abbrev paths : List (Entry × Text) → List Text
  paths ps = map (λ p. p.1) ps

  report_checkpoints-Books :
      (bs : List (List (Entry × Text))) (us vs ls : List Text) (m : Machine)
      → us ++ paths (flatten bs) ≡ vs
      → Books us ls m
      → Settles (λ u. Books vs ls) (report_checkpoints w hash lease bs m)
  unfolding report_checkpoints
  report_checkpoints-Books [] us vs ls m e h = (h.0 ∙ (sym (append-nil us) ∙ e), h.1)
  report_checkpoints-Books (b ∷ bs) us vs ls m e h =
      Settles-then (λ u. Books us (ls ++ [])) (λ u. Books vs ls) _ _
        (rpc-Books w report_progress (artifacts (map (λ p. p.0) b)) us ls m h)
        (λ u m' h'.
          report_checkpoints-Books bs (us ++ paths b) vs ls _
            (append_assoc us (paths b) (paths (flatten bs))
              ∙ (ap (λ t. us ++ t) (sym (map-append (λ p. p.1) b (flatten bs))) ∙ e))
            (ap (λ t. t ++ paths b) h'.0, h'.1 ∙ append-nil ls))

  report-Books :
      (batch : List Text) (es : List (Entry × Text)) (us vs ls : List Text) (m : Machine)
      → us ++ paths es ≡ vs
      → Books us ls m
      → Settles (λ u. Books vs (ls ++ batch)) (report w hash lease batch es m)
  unfolding report
  report-Books [] [] us vs ls m q h = (h.0 ∙ (sym (append-nil us) ∙ q), h.1 ∙ sym (append-nil ls))
  report-Books [] (e ∷ es) us vs ls m q h =
      Settles-then (λ u. Books us (ls ++ [])) (λ u. Books vs (ls ++ [])) _ _
        (rpc-Books w report_progress (logs []) us ls m h)
        (λ u m' h'.
          report_checkpoints-Books (batches (e ∷ es)) us vs (ls ++ []) m'
            (ap (λ t. us ++ paths t) (batches-flatten (e ∷ es)).0 ∙ q) h')
  report-Books (l ∷ batch) es us vs ls m q h =
      Settles-then (λ u. Books us (ls ++ l ∷ batch)) (λ u. Books vs (ls ++ l ∷ batch)) _ _
        (rpc-Books w report_progress (logs (l ∷ batch)) us ls m h)
        (λ u m' h'.
          report_checkpoints-Books (batches es) us vs (ls ++ l ∷ batch) m'
            (ap (λ t. us ++ paths t) (batches-flatten es).0 ∙ q) h')

  -- A `progress()` that goes through has settled exactly the checkpoints that were in the directory
  -- when it began and were not settled before, in their order, and has reported
  -- exactly the first 100 lines of the queue.
  pub progress_settles :
      (m m' : Machine)
      → progress w hash lease m ≡ (value tt, m')
      → (ns : List Text) × (m'.uploaded ≡ m.uploaded ++ ns)
        × IsNew m.uploaded (map (λ f. f.name) m.checkpoints) ns
        × (logged m'.calls ≡ logged m.calls ++ take batch_size m.queue)
  unfolding progress
  progress_settles m m' e =
      let fs = new_files m.uploaded m.checkpoints in
      let m₁ = record m { queue = drop batch_size m.queue } in
      let batch = take batch_size m.queue in
      let settled : Settles
          (λ u. Books (m.uploaded ++ map (λ f. f.name) fs) (logged m.calls ++ batch))
          (value tt, m') =
        subst (Settles (λ u. Books (m.uploaded ++ map (λ f. f.name) fs) (logged m.calls ++ batch)))
          e
          (Settles-then
            (λ ps m''. (paths ps ≡ map (λ f. f.name) fs) × Books m.uploaded (logged m.calls) m'') _
            (upload_files w hash lease (codes "checkpoint") fs m₁) (report w hash lease batch)
            (upload_files-Books (codes "checkpoint") fs m.uploaded (logged m.calls) m₁ (refl, refl))
            (λ ps m'' h.
              report-Books batch ps m.uploaded (m.uploaded ++ map (λ f. f.name) fs) (logged m.calls)
                m'' (ap (λ t. m.uploaded ++ t) h.0) h.1)) in
      (map (λ f. f.name) fs, settled.0, new_files-IsNew m.uploaded m.checkpoints, settled.1)
