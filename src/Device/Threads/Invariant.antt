-- ===== src/Device/Threads/Invariant.antt =====
-- What holds in every reachable state of the threads.
use onvifxx.Base.{◌≡◌, ◌≢◌, ◌↔◌, ◌⊎◌, Bool, true, false, arith}
use onvifxx.Device.Threads.{
  Main, running, joining, ended, aborted, done, System, init, Step, signal, signal_error,
  run_stopped, run_idle, join, checked, failed, hello_sent, hello_failed, go_on, leave,
  accept_failed, accepted, served, bye, release, Reach, start, later,
}

-- Past the join.
abbrev pub has_joined : Main → Bool
has_joined running = false
has_joined joining = false
has_joined _ = true

pub record IsSafe (s : System) : Type 0 where
  -- the handler was called once, and only it stops the loop
  pub stops : s.stopped ≡ true → s.halted ≡ true
  pub halts : s.halted ≡ true → s.armed ≡ false
  -- `work_` is kept until the thread is done
  pub works : (s.work ≡ false) ↔ (s.thread ≡ done)
  -- `ios_.run()` returns once it was stopped, or when nothing is left to wait for
  pub left : s.main ≢ running → (s.halted ≡ true) ⊎ ((s.armed ≡ false) × (s.work ≡ false))
  pub joined : has_joined s.main ≡ true → s.thread ≡ done
  pub ends : s.main ≡ ended → s.stopped ≡ true
  pub aborts : s.main ≡ aborted → s.stopped ≡ false

init-IsSafe : IsSafe init
init-IsSafe = ground arith

Step-IsSafe : {s t : System} → Step s t → IsSafe s → IsSafe t
Step-IsSafe (signal n among m a) i = ground arith
Step-IsSafe (signal_error m a) i = ground arith
Step-IsSafe (run_stopped m h) i = ground arith
Step-IsSafe (run_idle m a w) i = ground arith
Step-IsSafe (join m d) i = ground arith
Step-IsSafe (checked m b) i = ground arith
Step-IsSafe (failed m b) i = ground arith
Step-IsSafe (hello_sent h) i = ground arith
Step-IsSafe (hello_failed what h) i = ground arith
Step-IsSafe (go_on h n) i = ground arith
Step-IsSafe (leave h n) i = ground arith
Step-IsSafe (accept_failed h) i = ground arith
Step-IsSafe (accepted h) i = ground arith
Step-IsSafe (served calls r h) i = ground arith
Step-IsSafe (bye ends h) i = ground arith
Step-IsSafe (release h) i = ground arith

-- Every state that the threads reach is safe: only the handler stops the loop, and it is called once;
-- `work_` is kept until the thread of the service is done; `ios_.run()` returns only where it was stopped
-- or nothing is left to wait for; past the join the thread is done; the program returns 0 only where
-- `stopped_` is set, and fails its assertion only where it is not.
pub Reach-IsSafe : {s : System} → Reach s → IsSafe s
Reach-IsSafe start = init-IsSafe
Reach-IsSafe (later r st) = Step-IsSafe st (Reach-IsSafe r)
