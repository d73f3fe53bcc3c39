-- ===== src/Tests/Logs.antt =====
-- Two threads of examples/ws-discovery that write to one `Log`.
use onvifxx.Base.{
  ℕ, ◌≤◌, ◌≡◌, refl, inl, map, true, false, Option, none, some, List, [], ◌∷◌, ◌++◌, length, arith,
}
use onvifxx.Base.Chars.{Text, codes, print_nat}
use mathlib.Core.List.{Memᴰ}
use onvifxx.Base.Outcome.{ok}
use onvifxx.Device.Log.{Log, debug, c_str, to_log}
use onvifxx.Device.Log.Lines.{Line, IsLine, line_feed, write_line}
use onvifxx.Device.Log.Shared.{
  Insertion, all_insertions, insertions, insert_all, Shuffle, bytes, messages,
}
use onvifxx.Device.Main.{exec, round_notes, handler_notes, all_handler_notes, signal_handler}
use onvifxx.Device.Main.Logged.{exec_logged}
use onvifxx.Device.Main.Runs.{retry, signalled}
use onvifxx.Device.Notes
use onvifxx.Device.Notes.{note_insertions, Note, all_note_insertions}
use onvifxx.Device.Serving.{Action, failed_greeting, release, told}
use onvifxx.Device.Threads.{
  System, init, ended, done, signal_set, Step, signal, hello_failed, run_stopped, join, checked,
}
use onvifxx.Device.Threads.Logged.{earlier_notes, run_logged}
use onvifxx.Device.Threads.Runs.{Run, begin, next, actions, signals, IsRun}
use onvifxx.Device.Log.Shared.Threads.{noted, plain, shared_lines}

-- A log that has sent nothing.
abbrev log : Log
log = record { ident = codes "wsdd"; facility = 24; priority = 7; buffer = []; sent = [] }

-- The line of the main thread, and that of the thread of the service.
abbrev stopped : Line
stopped = record { place = codes "wsdd.cpp:51 "; priority = none; text = codes "Service stopped" }

abbrev failed : Line
failed = record { place = codes "wsdd.cpp:170 "; priority = some 4; text = codes "failed" }

shared_lines_example :
    ((zs : List Insertion)
      → Shuffle (all_insertions (stopped ∷ [])) (all_insertions (failed ∷ [])) zs
      → let l' = insert_all zs log in
        (length l'.sent ≤ 2)
        × (l'.buffer ≡ [])
        × (messages l'.sent ≡ bytes zs)
        × Shuffle
            (bytes (all_insertions (stopped ∷ [])))
            (bytes (all_insertions (failed ∷ [])))
            (bytes zs))
    × ((p : ℕ) (place words place' words' : Text)
        → IsLine (noted p place words)
        → IsLine (plain place' words')
        → ((zs : List Insertion) × Shuffle
              (insertions (noted p place words))
              (insertions (plain place' words'))
              zs
            × ((insert_all zs log).sent
                ≡ (p, c_str (((place ++ place') ++ words) ++ line_feed ∷ []))
                  ∷ (debug, c_str (words' ++ line_feed ∷ []))
                  ∷ []))
          × ((zs : List Insertion) × Shuffle
                (insertions (noted p place words))
                (insertions (plain place' words'))
                zs
              × ((insert_all zs log).sent
                  ≡ (
                    p,
                    c_str (
                        ((place ++ words) ++ line_feed ∷ [])
                        ++ ((place' ++ words') ++ line_feed ∷ [])),
                  )
                    ∷ [])))
    × ((line : Line)
        → write_line line (to_log log) ≡ ok (to_log (insert_all (insertions line) log)))
shared_lines_example =
    shared_lines (stopped ∷ []) (failed ∷ []) log ((ground arith, ground arith), tt)
      ((ground arith, ground arith), tt) refl

-- The same place for each line.
abbrev place : ℕ → Text
place n = codes "wsdd.cpp "

abbrev whats : List Text
whats = codes "lost" ∷ []

exec_logged_example :
    (notes : List Note) × (exec true none (map retry whats ++ signalled 15 ∷ [])
      ≡ some (notes, ok 0))
    × (insert_all (all_note_insertions place notes) log ≡ record log {
      sent =
          (7, codes "wsdd.cpp Running service" ++ line_feed ∷ [])
          ∷ (4, codes "wsdd.cpp Something wrong - lostwsdd.cpp Running service" ++ line_feed ∷ [])
          ∷ (7, codes "wsdd.cpp A signal occurred 15" ++ line_feed ∷ [])
          ∷ (7, codes "wsdd.cpp Waiting for finish of service" ++ line_feed ∷ [])
          ∷ (7, codes "wsdd.cpp Service stopped" ++ line_feed ∷ [])
          ∷ [];
    })
unfolding print_nat c_str
exec_logged_example =
    exec_logged place (λ n. ground arith) true whats 15 [] log (ground arith, tt) (refl, refl)

-- A signal arrives, the hello of the thread fails, and both threads end.
abbrev acts : List Action
acts = failed_greeting (codes "no network") ++ release

abbrev ended_run : System
ended_run = record init {
  stopped = true;
  halted = true;
  armed = false;
  work = false;
  main = ended;
  thread = done;
}

abbrev among : Memᴰ 15 signal_set
among = Memᴰ.tail (Memᴰ.tail (Memᴰ.tail (Memᴰ.head refl)))

ends : Run ended_run acts (some 15 ∷ [])
unfolding actions signals signal_handler
ends =
    let called : Run _ [] (some 15 ∷ []) = next begin (signal 15 among refl refl) refl refl in
    let greeted : Run _ (failed_greeting (codes "no network")) (some 15 ∷ []) =
      next called (hello_failed (codes "no network") refl) refl refl in
    let released : Run _ acts (some 15 ∷ []) = next greeted (Step.release refl) refl refl in
    let halted : Run _ acts (some 15 ∷ []) = next released (run_stopped refl refl) refl refl in
    let joined : Run _ acts (some 15 ∷ []) = next halted (join refl refl) refl refl in
    next joined (checked refl refl) refl refl

run_logged_example :
    ((call : Option ℕ) × (some 15 ∷ [] ≡ call ∷ []))
    × IsRun acts
    × ((zs : List Insertion)
        → let mine = all_note_insertions place (round_notes (some 15 ∷ [])) in
          let others = all_note_insertions place (told acts) in
          Shuffle mine others zs
          → let l' = insert_all zs log in
            (length l'.sent ≤ 7)
            × (l'.buffer ≡ [])
            × (messages l'.sent ≡ bytes zs)
            × Shuffle (bytes mine) (bytes others) (bytes zs))
    × ((zs : List Insertion)
        → Shuffle
            (all_note_insertions place (earlier_notes (some 15 ∷ [])))
            (all_note_insertions place (told acts))
            zs
        → (insert_all
            (zs ++ note_insertions place (Notes.log 51 (codes "Service stopped")))
            log).sent
          ≡ (insert_all zs log).sent
            ++ ((insert_all zs log).priority, codes "wsdd.cpp Service stopped" ++ line_feed ∷ [])
              ∷ [])
unfolding all_handler_notes handler_notes told print_nat
run_logged_example =
    run_logged place ended_run acts (some 15 ∷ []) log ends (inl refl)
      (
        (ground arith, ground arith),
        (
          (ground arith, ground arith),
          ((ground arith, ground arith), ((ground arith, ground arith), tt)),
        ),
      )
      (
        (ground arith, ground arith),
        ((ground arith, ground arith), ((ground arith, ground arith), tt)),
      )
      refl
