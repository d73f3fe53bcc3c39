-- ===== src/Tests/Threads.antt =====
-- Runs of the threads of the example.
use mathlib.Core.List.{Memᴰ}
use onvifxx.Base.{ℕ, ◌≤◌, ◌≡◌, ◌⊎◌, refl, true, false, some, List, [], ◌∷◌, ◌↔◌, Option, Bool}
use onvifxx.Base.Outcome.{ok, fault, assertion, returned, thrown}
use onvifxx.Device.Main.{exec, round_notes, signal_handler}
use onvifxx.Base.{◌++◌, none}
use onvifxx.Base.Chars.{codes}
use onvifxx.Device.Serving.{Action, failed_greeting, release, run_service}
use onvifxx.Device.Threads.{
  done, System, init, ended, aborted, Step, signal, hello_sent, leave, leaving, Reach, signal_set,
  start, later,
}
use onvifxx.Device.Threads.Ending.{HasEnded, Steps, threads_end}
use onvifxx.Device.Threads.Runs.{IsRun, Run}
use onvifxx.Device.Threads.Runs.Exec.{round_of}
use onvifxx.Device.Threads.Runs.Realised.{RunsTo, threads_refine}
use onvifxx.Device.Threads.Invariant.{IsSafe, Reach-IsSafe}

-- The thread has said hello when a signal arrives, and then leaves its loop.
abbrev stopped : System
stopped = record init { stopped = true; halted = true; armed = false; thread = leaving }

abbrev among : Memᴰ 15 signal_set
among = Memᴰ.tail (Memᴰ.tail (Memᴰ.tail (Memᴰ.head refl)))

stopped_reached : Reach stopped
unfolding signal_handler
stopped_reached =
    later (later (later start (hello_sent refl)) (signal 15 among refl refl)) (leave refl refl)

Reach-IsSafe_example : IsSafe stopped
Reach-IsSafe_example = Reach-IsSafe stopped_reached

-- The thread whose hello fails.
abbrev failing : List Action
failing = failed_greeting (codes "no network") ++ release

threads_refine_example :
    (IsRun failing ↔ RunsTo done failing)
    × ((s : System) (ss : List (Option ℕ)) (d : Bool)
        → Run s failing ss
        → (s.main ≡ ended → exec d none (round_of ss ∷ []) ≡ some (round_notes ss, ok 0))
          × (s.main ≡ aborted
              → exec d none (round_of ss ∷ []) ≡ some (round_notes ss, fault assertion)))
threads_refine_example = threads_refine failing

-- It is one of `runService`.
failing-IsRun : IsRun failing
unfolding run_service
failing-IsRun = (thrown (codes "no network"), returned tt, [], refl)

threads_end_example :
    (HasEnded stopped ⊎ ((t : System) × Step stopped t))
    × (true ≡ true
        → ((n : ℕ) (t : System)
            → Steps n stopped t
            → (n ≤ 8) × (t.main ≡ ended → true ≡ true) × (t.main ≡ aborted → true ≡ false))
          × ((n : ℕ) × (t : System) × Steps n stopped t × HasEnded t))
threads_end_example = threads_end stopped stopped_reached
