-- ===== src/Worker/Ending/Closing.antt =====
-- The `finally` block of `Worker.execute`: the command's group is killed, its output is closed and the
-- renewing thread is told to stop.
use rungrid.Common.{
  ℕ, zero, suc, ◌+◌, ◌≤◌, ◌<◌, ◌≡◌, ◌≢◌, refl, ◌∙◌, inl, inr, Bool-cases, true, false, Option,
  arith,
}
use rungrid.Wire.{Lease}
use rungrid.Artifacts.Digest.{Hash}
use rungrid.Worker.State.{Machine, World, Process, absent, running, ended, ReturnCode, is_running}
use rungrid.Worker.Threads.{wait, wait-Passive, waits-wait, kill_group, Passive, Passive-trans}
use rungrid.Worker.Monad.{Step, value, returned, raised, stuck}
use rungrid.Worker.Execute.{kill, close_output, close_stdout, dismiss, clean_up}

pub is_running-kill_group :
    (c : Option ReturnCode) (p : Process) → is_running (kill_group c p) ≡ false
unfolding kill_group
is_running-kill_group c absent = refl
is_running-kill_group c running = refl
is_running-kill_group c (ended code) = refl

Passive-refl : (m : Machine) → Passive m m
Passive-refl m = ground arith

module _ (w : World) where
  close_output-Passive : (fuel : ℕ) (m : Machine) → Passive m (close_output w fuel m).1
  unfolding close_output
  close_output-Passive zero m = Passive-refl m
  close_output-Passive (suc fuel) m = elim (Bool-cases (w.reading m.waits)) [
    | inl busy ↦ rw (busy) (Passive-trans (wait-Passive w m) (close_output-Passive fuel (wait w m)))
    | inr free ↦ rw (free) (Passive-refl m)
  ]

  close_stdout-Passive :
      (fuel : ℕ) (p : Process) (m : Machine) → Passive m (close_stdout w fuel p m).1
  unfolding close_stdout
  close_stdout-Passive fuel absent m = Passive-refl m
  close_stdout-Passive fuel running m = close_output-Passive fuel m
  close_stdout-Passive fuel (ended code) m = close_output-Passive fuel m

  -- From the `n`-th wait on, the reader is not inside a read.
  abbrev pub FreesBy : ℕ → Type 0
  FreesBy n = (k : ℕ) → n ≤ k → w.reading k ≡ false

  module _ (n : ℕ) (frees : FreesBy n) where
    close_output-value :
        (fuel : ℕ) (m : Machine)
        → n < m.waits + fuel
        → 0 < fuel
        → (close_output w fuel m).0 ≡ value tt
    unfolding close_output
    close_output-value zero m lt pos = absurd (omega arith)
    close_output-value (suc zero) m lt pos = rw (frees m.waits (omega (arith, lt))) refl
    close_output-value (suc (suc fuel)) m lt pos = elim (Bool-cases (w.reading m.waits)) [
      | inl busy ↦ rw (busy) (
          close_output-value (suc fuel) (wait w m) (omega (arith, lt, waits-wait w m))
            (omega arith))
      | inr free ↦ rw (free) refl
    ]

    close_stdout-value :
        (fuel : ℕ) (p : Process) (m : Machine) → n < fuel → (close_stdout w fuel p m).0 ≡ value tt
    unfolding close_stdout
    close_stdout-value fuel absent m lt = refl
    close_stdout-value fuel running m lt = close_output-value fuel m (omega arith) (omega arith)
    close_stdout-value fuel (ended code) m lt =
        close_output-value fuel m (omega arith) (omega arith)

  module _ (hash : Hash) (lease : Lease) where
    dismiss-calls :
        (s : Step (Unit {0})) (r : Step (Unit {0}) × Machine)
        → (dismiss w hash lease s r).1.calls ≡ r.1.calls
    dismiss-calls s (value u, m) = (wait-Passive w (record m { done = true })).same_calls
    dismiss-calls s (returned, m) = refl
    dismiss-calls s (raised e, m) = refl
    dismiss-calls s (stuck, m) = refl

    dismissed-calls :
        (fuel : ℕ) (s : Step (Unit {0})) (m : Machine)
        → (dismiss w hash lease s (close_stdout w fuel (kill w m).process (kill w m))).1.calls
          ≡ m.calls
    unfolding kill
    dismissed-calls fuel s m =
        dismiss-calls s (close_stdout w fuel (kill w m).process (kill w m))
        ∙ (close_stdout-Passive fuel (kill w m).process (kill w m)).same_calls

    -- It makes no call.
    pub clean_up-calls :
        (fuel : ℕ) (s : Step (Unit {0})) (m : Machine)
        → (clean_up w hash lease fuel s m).1.calls ≡ m.calls
    unfolding clean_up
    clean_up-calls fuel (value u) m = dismissed-calls fuel (value u) m
    clean_up-calls fuel returned m = dismissed-calls fuel returned m
    clean_up-calls fuel (raised e) m = dismissed-calls fuel (raised e) m
    clean_up-calls fuel stuck m = refl

    -- The command is over, and the renewing thread is told to stop.
    abbrev pub Cleaned : Step (Unit {0}) → Step (Unit {0}) × Machine → Type 0
    Cleaned s r = (r.0 ≡ s) × (is_running r.1.process ≡ false) × (r.1.done ≡ true)

    dismiss-Cleaned :
        (s t : Step (Unit {0})) (m : Machine)
        → t ≡ value tt
        → is_running m.process ≡ false
        → Cleaned s (dismiss w hash lease s (t, m))
    dismiss-Cleaned s (value u) m e h =
        let p = wait-Passive w (record m { done = true }) in (refl, p.still_over h, p.same_done)
    dismiss-Cleaned s returned m e h = cc
    dismiss-Cleaned s (raised x) m e h = cc
    dismiss-Cleaned s stuck m e h = cc

    dismissed-Cleaned :
        (n fuel : ℕ)
        → FreesBy n
        → n < fuel
        → (s : Step (Unit {0})) (m : Machine)
        → Cleaned s (dismiss w hash lease s (close_stdout w fuel (kill w m).process (kill w m)))
    unfolding kill
    dismissed-Cleaned n fuel frees lt s m =
        let r = close_stdout w fuel (kill w m).process (kill w m) in
        dismiss-Cleaned s r.0 r.1 (close_stdout-value n frees fuel (kill w m).process (kill w m) lt)
          ((close_stdout-Passive fuel (kill w m).process (kill w m)).still_over
            (is_running-kill_group (w.exit_code m.waits) m.process))

    pub clean_up-Cleaned :
        (n fuel : ℕ)
        → FreesBy n
        → n < fuel
        → (s : Step (Unit {0})) (m : Machine) → s ≢ stuck
        → Cleaned s (clean_up w hash lease fuel s m)
    unfolding clean_up
    clean_up-Cleaned n fuel frees lt (value u) m ne = dismissed-Cleaned n fuel frees lt (value u) m
    clean_up-Cleaned n fuel frees lt returned m ne = dismissed-Cleaned n fuel frees lt returned m
    clean_up-Cleaned n fuel frees lt (raised e) m ne =
        dismissed-Cleaned n fuel frees lt (raised e) m
    clean_up-Cleaned n fuel frees lt stuck m ne = absurd (ne refl)
