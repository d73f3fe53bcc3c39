-- ===== src/Device/Threads.antt =====
-- The threads of the example (examples/ws-discovery/wsdd.cpp): the main thread in `exec`, with the
-- signal handler that its `ios_.run()` calls, and the thread of `runService`, interleaved.
pub mod Invariant
pub mod Ending
pub mod Runs
pub mod Calls
pub mod Told
pub mod Logged
use onvifxx.Base.{ℕ, ◌≡◌, Bool, true, false, List, [], ◌∷◌}
use mathlib.Core.List.{Memᴰ}
use onvifxx.Base.Chars.{Text}
use onvifxx.Base.Outcome.{Ended}
use onvifxx.Device.Main.{signal_handler, sighup}
use onvifxx.Device.Serving.{Served, Heard}
use onvifxx.Base.{some}

-- Where the main thread stands. `running` is inside `ios_.run()`; `ended` and `aborted` follow the
-- assertion.
pub data Main : Type 0 where
  running joining checking ended aborted : Main

-- Where `runService` stands: before `hello`, at the test of its loop, before `accept` and `serve`, before
-- `bye`, and before `work_.reset()`.
pub data Thread : Type 0 where
  starting testing accepting serving leaving releasing done : Thread

-- `halted` is `ios_.stopped()`; `armed`, that `signals_` waits; `work`, that `work_` is set.
pub record System : Type 0 where
  pub stopped : Bool
  pub halted : Bool
  pub armed : Bool
  pub work : Bool
  pub main : Main
  pub thread : Thread

-- The signals that `Wsdd()` adds to `signals_`: `SIGHUP`, `SIGINT`, `SIGQUIT`, `SIGTERM`, `SIGUSR1`
abbrev pub signal_set : List ℕ
signal_set = sighup ∷ 2 ∷ 3 ∷ 15 ∷ 10 ∷ []

-- Once both threads are there.
abbrev pub init : System
init = record {
  stopped = false;
  halted = false;
  armed = true;
  work = true;
  main = running;
  thread = starting;
}

-- `accept`, `serve`, `hello` and `bye` may end in any way, and `serve` may call the object of the service. The handler is called once: it does not wait
-- again.
pub data Step (s : System) : System → Type 0 where
  signal :
      (number : ℕ)
      → Memᴰ number signal_set
      → s.main ≡ running
      → s.armed ≡ true
      → Step s (record s {
        stopped = signal_handler (some number) s.stopped;
        halted = true;
        armed = false;
      })
  signal_error : s.main ≡ running → s.armed ≡ true → Step s (record s { armed = false })
  run_stopped : s.main ≡ running → s.halted ≡ true → Step s (record s { main = joining })
  run_idle :
      s.main ≡ running → s.armed ≡ false → s.work ≡ false → Step s (record s { main = joining })
  join : s.main ≡ joining → s.thread ≡ done → Step s (record s { main = checking })
  checked : s.main ≡ checking → s.stopped ≡ true → Step s (record s { main = ended })
  failed : s.main ≡ checking → s.stopped ≡ false → Step s (record s { main = aborted })
  hello_sent : s.thread ≡ starting → Step s (record s { thread = testing })
  hello_failed : Text → s.thread ≡ starting → Step s (record s { thread = releasing })
  go_on : s.thread ≡ testing → s.halted ≡ false → Step s (record s { thread = accepting })
  leave : s.thread ≡ testing → s.halted ≡ true → Step s (record s { thread = leaving })
  accept_failed : s.thread ≡ accepting → Step s (record s { thread = testing })
  accepted : s.thread ≡ accepting → Step s (record s { thread = serving })
  served : List Heard → Served → s.thread ≡ serving → Step s (record s { thread = testing })
  bye : Ended (Unit {0}) → s.thread ≡ leaving → Step s (record s { thread = releasing })
  release : s.thread ≡ releasing → Step s (record s { thread = done; work = false })

pub data Reach : System → Type 0 where
  start : Reach init
  later : {s t : System} → Reach s → Step s t → Reach t
