-- ===== src/Worker/Protocol/Parts.antt =====
-- Uploads, progress reports and the watching of the command keep an attempt working.
use rungrid.Common.{
  ℕ, zero, suc, refl, inl, inr, List, [], ◌∷◌, Text, Bool-cases, Option-cases, codes, take, drop,
}
use rungrid.Wire.{report_progress, Entry, Lease}
use rungrid.Artifacts.Digest.{Hash}
use rungrid.Worker.State.{Machine, World, File, alive}
use rungrid.Worker.Threads.{wait, wait-Passive}
use rungrid.Worker.Monad.{upload_file}
use rungrid.Worker.Execute.{
  progress, report, report_checkpoints, report_outputs, upload_files, watch, poll, kill, new_files,
  batches, batch_size,
}
use rungrid.Worker.Protocol.Phase.{
  working, At, Ends, Ends-then, At-Passive, rpc-Ends, upload_file-Ends,
}

module _ (w : World) (hash : Hash) (lease : Lease) where
  pub upload_files-Ends :
      (kind : Text) (fs : List File) (m : Machine)
      → At working m
      → Ends working (upload_files w hash lease kind fs m)
  unfolding upload_files
  upload_files-Ends kind [] m h = h
  upload_files-Ends kind (f ∷ fs) m h =
      Ends-then working (upload_file w hash lease kind f m) _
        (upload_file-Ends w hash lease kind f m h)
        (λ e m' h'.
          Ends-then working (upload_files w hash lease kind fs m') _
            (upload_files-Ends kind fs m' h') (λ es m'' h''. h''))

  pub report_checkpoints-Ends :
      (bs : List (List (Entry × Text))) (m : Machine)
      → At working m
      → Ends working (report_checkpoints w hash lease bs m)
  unfolding report_checkpoints
  report_checkpoints-Ends [] m h = h
  report_checkpoints-Ends (b ∷ bs) m h =
      Ends-then working _ _ (rpc-Ends working w report_progress _ m refl refl h)
        (λ u m' h'. report_checkpoints-Ends bs _ h')

  pub report_outputs-Ends :
      (bs : List (List (Entry × Text))) (m : Machine)
      → At working m
      → Ends working (report_outputs w hash lease bs m)
  unfolding report_outputs
  report_outputs-Ends [] m h = h
  report_outputs-Ends (b ∷ bs) m h =
      Ends-then working _ _ (rpc-Ends working w report_progress _ m refl refl h)
        (λ u m' h'. report_outputs-Ends bs _ h')

  pub report-Ends :
      (batch : List Text) (es : List (Entry × Text)) (m : Machine)
      → At working m
      → Ends working (report w hash lease batch es m)
  unfolding report
  report-Ends [] [] m h = h
  report-Ends [] (e ∷ es) m h =
      Ends-then working _ _ (rpc-Ends working w report_progress _ m refl refl h)
        (λ u m' h'. report_checkpoints-Ends (batches (e ∷ es)) m' h')
  report-Ends (l ∷ ls) es m h =
      Ends-then working _ _ (rpc-Ends working w report_progress _ m refl refl h)
        (λ u m' h'. report_checkpoints-Ends (batches es) m' h')

  pub progress-Ends : (m : Machine) → At working m → Ends working (progress w hash lease m)
  unfolding progress
  progress-Ends m h =
      let m₁ = record m { queue = drop batch_size m.queue } in
      let fs = new_files m.uploaded m.checkpoints in
      Ends-then working (upload_files w hash lease (codes "checkpoint") fs m₁)
        (report w hash lease (take batch_size m.queue))
        (upload_files-Ends (codes "checkpoint") fs m₁ h)
        (λ es m' h'. report-Ends (take batch_size m.queue) es m' h')

  pub watch-Ends :
      (fuel : ℕ) (m : Machine) → At working m → Ends working (watch w hash lease fuel m)
  unfolding watch kill
  watch-Ends zero m h = h
  watch-Ends (suc fuel) m h = elim (Option-cases (poll (w.exit_code m.waits) m.process)) [
    | inr (code, e) ↦ rw (e, watch) h
    | inl e ↦
        rw (e, watch)
          (elim (Bool-cases (alive m)) [
            | inr a ↦ rw (a) h
            | inl a ↦ rw (a) (
                Ends-then working _ _
                  (Ends-then working (progress w hash lease m) _ (progress-Ends m h)
                    (λ u m' h'. At-Passive m' (wait w m') (wait-Passive w m') h'))
                  (λ u m' h'. watch-Ends fuel m' h'))
          ])
  ]
