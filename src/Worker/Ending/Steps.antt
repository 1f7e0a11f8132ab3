-- ===== src/Worker/Ending/Steps.antt =====
-- The steps of an attempt that end without fuel, and the properties of the machine that they keep.
use rungrid.Common.{
  length, ℕ, zero, suc, ◌+◌, ◌≤◌, ◌≡◌, inl, inr, List, [], ◌∷◌, take, drop, codes, Text, arith,
  Option-cases,
}
use rungrid.Wire.{Method, Entry, Lease, report_progress}
use rungrid.Artifacts.Digest.{Hash}
use rungrid.Artifacts.Key.{object_key}
use rungrid.Artifacts.Upload.{
  Site, Upload, uploaded, lease_lost, storage_error, fell_through, try_put, entry_at, stat_at,
}
use rungrid.Artifacts.Effects.{try_put-cases}
use rungrid.Worker.State.{Machine, World, Call, Payload, File}
use rungrid.Worker.Threads.{wait}
use rungrid.Worker.Monad.{
  M, Step, value, returned, raised, stuck, then_do, rpc, upload_file, upload_file-keeps,
  upload_step, worker_site,
}
use rungrid.Worker.Execute.{
  report_checkpoints, report_outputs, upload_files, report, progress, attempt, batches, batch_size,
  new_files,
}

-- A property of the machine that the steps of the main thread keep.
pub record Kept (w : World) (K : Machine → Type 0) : Type 0 where
  pub on_wait : (m : Machine) → K m → K (wait w m)
  pub on_failure : (m : Machine) → K m → K (record m { upload_failures = suc m.upload_failures })
  pub on_calls : (m : Machine) (cs : List Call) → K m → K (record m { calls = cs })
  pub on_uploaded : (m : Machine) (us : List Text) → K m → K (record m { uploaded = us })
  pub on_queue : (m : Machine) (q : List Text) → K m → K (record m { queue = q })

-- A step that is not stuck, and keeps the property if it goes on.
abbrev pub Goes : {A : Type 0} → (Machine → Type 0) → Step A × Machine → Type 0
Goes K (value a, m) = K m
Goes K (returned, m) = Unit
Goes K (raised e, m) = Unit
Goes K (stuck, m) = ⊥

pub Goes-then :
    {A B : Type 0} (K L : Machine → Type 0) (r : Step A × Machine) (f : A → M B)
    → Goes K r
    → ((a : A) (m : Machine) → K m → Goes L (f a m))
    → Goes L (then_do r f)
Goes-then K L (value a, m) f h k = k a m h
Goes-then K L (returned, m) f h k = tt
Goes-then K L (raised e, m) f h k = tt
Goes-then K L (stuck, m) f h k = absurd h

-- The loop of an upload does not fall through.
pub IsEnd : {S : Type 0} → Upload × S → Type 0
IsEnd (fell_through, s) = ⊥
IsEnd (_, s) = Unit

pub try_put-IsEnd :
    {S : Type 0} (site : Site S) (key : Text) (content : ℕ → List ℕ) (entry : ℕ → Entry)
    (left attempt : ℕ) (s : S)
    → left + attempt ≡ 5
    → attempt ≤ 4
    → IsEnd (try_put site key content entry left attempt s)
unfolding IsEnd
try_put-IsEnd site key content entry zero attempt s e le = absurd (omega arith)
try_put-IsEnd site key content entry (suc left) attempt s e le =
    try_put-cases site key content entry IsEnd left attempt s (λ a. tt) (λ a d. tt) (λ a d q. tt)
      (λ a d q.
        try_put-IsEnd site key content entry left (suc attempt) _ (omega arith) (omega arith))

module _ (w : World) (hash : Hash) (lease : Lease) (K : Machine → Type 0) (kept : Kept w K) where
  open kept use {on_wait, on_failure, on_calls, on_uploaded, on_queue}

  pub rpc-Goes :
      (method : Method) (payload : Payload) (m : Machine) → K m → Goes K (rpc w method payload m)
  unfolding rpc
  rpc-Goes method payload m h = elim (Option-cases (w.reply m.waits method payload)) [
    | inl e ↦ rw (e, rpc) (on_calls _ _ (on_wait m h))
    | inr (code, e) ↦ rw (e, rpc) tt
  ]

  pub upload_step-Goes :
      (u : Upload) (m : Machine) → IsEnd {S = Machine} (u, m) → K m → Goes K (upload_step u, m)
  unfolding IsEnd
  upload_step-Goes (uploaded e) m n h = h
  upload_step-Goes lease_lost m n h = tt
  upload_step-Goes storage_error m n h = tt
  upload_step-Goes fell_through m n h = n

  pub upload_file-Goes :
      (kind : Text) (f : File) (m : Machine) → K m → Goes K (upload_file w hash lease kind f m)
  unfolding upload_file
  upload_file-Goes kind f m h =
      upload_step-Goes _ (upload_file w hash lease kind f m).1
        (try_put-IsEnd (worker_site w) (object_key lease kind (w.uuid m.waits) f.name)
          (w.opened m.waits f)
          (λ n.
            entry_at hash lease kind (w.opened m.waits f 0)
              (length (w.opened m.waits f (stat_at n))) (w.uuid m.waits) f.name)
          5 0 m (omega arith) (omega arith))
        (upload_file-keeps w hash lease kind f K on_wait on_failure m h)

  pub upload_files-Goes :
      (kind : Text) (fs : List File) (m : Machine)
      → K m
      → Goes K (upload_files w hash lease kind fs m)
  unfolding upload_files
  upload_files-Goes kind [] m h = h
  upload_files-Goes kind (f ∷ fs) m h =
      Goes-then K K (upload_file w hash lease kind f m) _ (upload_file-Goes kind f m h) (λ e m' h'.
        Goes-then K K (upload_files w hash lease kind fs m') _ (upload_files-Goes kind fs m' h')
          (λ es m'' h''. h''))

  pub report_checkpoints-Goes :
      (bs : List (List (Entry × Text))) (m : Machine)
      → K m
      → Goes K (report_checkpoints w hash lease bs m)
  unfolding report_checkpoints
  report_checkpoints-Goes [] m h = h
  report_checkpoints-Goes (b ∷ bs) m h =
      Goes-then K K _ _ (rpc-Goes report_progress _ m h)
        (λ u m' h'. report_checkpoints-Goes bs _ (on_uploaded m' _ h'))

  pub report_outputs-Goes :
      (bs : List (List (Entry × Text))) (m : Machine)
      → K m
      → Goes K (report_outputs w hash lease bs m)
  unfolding report_outputs
  report_outputs-Goes [] m h = h
  report_outputs-Goes (b ∷ bs) m h =
      Goes-then K K _ _ (rpc-Goes report_progress _ m h) (λ u m' h'. report_outputs-Goes bs m' h')

  pub report-Goes :
      (batch : List Text) (es : List (Entry × Text)) (m : Machine)
      → K m
      → Goes K (report w hash lease batch es m)
  unfolding report
  report-Goes [] [] m h = h
  report-Goes [] (e ∷ es) m h =
      Goes-then K K _ _ (rpc-Goes report_progress _ m h)
        (λ u m' h'. report_checkpoints-Goes (batches (e ∷ es)) m' h')
  report-Goes (l ∷ ls) es m h =
      Goes-then K K _ _ (rpc-Goes report_progress _ m h)
        (λ u m' h'. report_checkpoints-Goes (batches es) m' h')

  pub progress-Goes : (m : Machine) → K m → Goes K (progress w hash lease m)
  unfolding progress
  progress-Goes m h =
      let m₁ = record m { queue = drop batch_size m.queue } in
      let fs = new_files m.uploaded m.checkpoints in
      Goes-then K K (upload_files w hash lease (codes "checkpoint") fs m₁)
        (report w hash lease (take batch_size m.queue))
        (upload_files-Goes (codes "checkpoint") fs m₁ (on_queue m _ h))
        (λ es m' h'. report-Goes (take batch_size m.queue) es m' h')
