-- ===== src/Tests/Example.antt =====
-- Runs of examples/ws-discovery.
use onvifxx.Base.{
  ℕ, ◌≡◌, ◌≢◌, ◌↔◌, refl, map, All, Bool, true, false, none, some, List, [], ◌∷◌, ◌++◌,
  if◌then◌else◌, arith,
}
use onvifxx.Base.Chars.{Text, codes}
use onvifxx.Base.Outcome.{ok, fault, assertion, wrong_cast, returned, thrown}
use onvifxx.Device.Log.{Log, c_str, standard, to_log}
use onvifxx.Device.Log.Lines.{Line, IsPlain, line_feed, message, whole, write_all, write_all-sent}
use onvifxx.Device.Main.{exec, Round, round_notes, handler_notes, all_handler_notes}
use onvifxx.Device.Main.Runs.{exec_signal, retry, signalled, retry_notes}
use onvifxx.Device.Notes
use onvifxx.Device.Notes.{log_at, error, warning}
use onvifxx.Device.Matching.{back, probe}
use onvifxx.Device.Matching.Answer.{WantsTypes, WantsScopes, probe_iff}
use onvifxx.Device.Serving.{
  Action, bye, tell, Turn, served, no_request, after_serve, requested, told, run_service, announced,
}
use onvifxx.Device.Serving.Turns.{all_turns, all_turn_actions, last_actions, run_service_lem}
use onvifxx.Device.Start.{first_log, main, main_ends, no_daemon, started}
use onvifxx.Device.Types.{strip}
use onvifxx.Device.Types.Local.{local_from, strip-local_from}
use onvifxx.Wsdd.Messages.{Probe}
use onvifxx.Tests.Data.{item}

abbrev types : Text
types = codes "tds:Device dn:NetworkVideoTransmitter"

strip-local_from_example : strip 38 types ≡ some (local_from [] types)
strip-local_from_example = strip-local_from types

stripped : local_from [] types ≡ codes "Device NetworkVideoTransmitter"
unfolding local_from
stripped = refl

-- A splitter that takes the whole text as one word.
abbrev split : Text → List Text
split t = t ∷ []

abbrev arg : Probe
arg = record { types = some types; scopes = none }

last : back (item ∷ []) ≡ some item
unfolding back
last = refl

probe_iff_example :
    (b : Bool) × (probe split arg (item ∷ []) ≡ ok (if b then item ∷ [] else []))
    × ((b ≡ true) ↔ (WantsTypes split arg.types item.types × WantsScopes split none none))
probe_iff_example = probe_iff split arg (item ∷ []) item last

-- `ios_.run()` throws once, and then returns at SIGHUP.
abbrev whats : List Text
whats = codes "lost" ∷ []

abbrev hangup : List Round
hangup = map retry whats ++ signalled 1 ∷ []

after_hangup :
    (exec true none hangup ≡ some (retry_notes whats ++ round_notes (some 1 ∷ []), fault assertion))
    × (exec true (some (codes "denied")) hangup
        ≡ some (log_at error 40 (codes "Could not daemonize - denied") ∷ [], ok 1))
after_hangup = exec_signal true whats 1 [] (codes "denied")

-- What the main thread writes meanwhile, and where.
hangup_notes :
    map {B = ℕ × Text} (λ n. (n.line, n.text)) (retry_notes whats ++ round_notes (some 1 ∷ []))
    ≡ (48, codes "Running service")
      ∷ (54, codes "Something wrong - lost")
      ∷ (48, codes "Running service")
      ∷ (188, codes "A signal occurred 1")
      ∷ (198, codes "Waiting for finish of service")
      ∷ (51, codes "Service stopped")
      ∷ []
unfolding all_handler_notes handler_notes
hangup_notes = refl

abbrev log : Log
log = record { ident = codes "wsdd"; facility = 24; priority = 7; buffer = []; sent = [] }

abbrev line : Line
line = record { place = codes "wsdd.cpp:15 "; priority = some 6; text = codes "start" }

abbrev plain : Line
plain = record { place = codes "wsdd.cpp:48 "; priority = none; text = codes "Running service" }

write_all-sent_example :
    (write_all (plain ∷ []) (to_log log)
      ≡ ok (
          to_log (record log {
            sent = (7, codes "wsdd.cpp:48 Running service" ++ line_feed ∷ []) ∷ [];
          })))
    × (All IsPlain (plain ∷ [])
        → (write_all (plain ∷ []) standard ≡ ok standard)
          × ((line : Line) (p : ℕ) (more : List Line)
              → line.priority ≡ some p
              → write_all (plain ∷ line ∷ more) standard ≡ fault wrong_cast))
unfolding c_str
write_all-sent_example =
    write_all-sent (plain ∷ []) log ((ground arith, ground arith), tt) (refl, refl)

-- A line of each kind.
both_lines : map message (plain ∷ line ∷ []) ≡ (7, whole plain) ∷ (6, whole line) ∷ []
unfolding c_str
both_lines = refl

-- A place in the source.
abbrev place : ℕ → Text
place n = codes "wsdd.cpp "

main_ends_example :
    (main place (codes "/usr/bin/wsdd" ∷ codes "-D" ∷ []) none hangup ≡ some ([], fault wrong_cast))
    × ([] ≢ codes "-D" ∷ []
        → (started place (codes "/usr/bin/wsdd" ∷ [])
            ≡ ok (true, to_log (first_log place (codes "wsdd"))))
          × ((first_log place (codes "wsdd")).ident ≡ codes "wsdd")
          × (main place (codes "/usr/bin/wsdd" ∷ []) none hangup
              ≡ some (retry_notes whats ++ round_notes (some 1 ∷ []), fault assertion))
          × (main place (codes "/usr/bin/wsdd" ∷ []) (some (codes "denied")) hangup
              ≡ some (no_daemon place (codes "denied"), ok 1)))
main_ends_example =
    main_ends place (codes "/usr/bin") (codes "wsdd") [] whats 1 [] (codes "denied") (ground arith)
      (ground arith)

-- A request that is served, an accept that fails, and the stop.
abbrev busy : Turn
busy = record { stopped = false; accept_fails = false; heard = bye item ∷ []; serves = served }

abbrev idle : Turn
idle = record { stopped = false; accept_fails = true; heard = []; serves = no_request }

abbrev end : Turn
end = record { stopped = true; accept_fails = false; heard = []; serves = no_request }

run_service_lem_example :
    (run_service (returned tt) (returned tt) (busy ∷ idle ∷ end ∷ [])
      ≡ some (
          tell (Notes.log 126 (codes "Sending hello"))
          ∷ Action.hello announced
          ∷ tell (Notes.log 146 (codes "Starting the service loop"))
          ∷ Action.bind
          ∷ (all_turn_actions (busy ∷ idle ∷ []) ++ last_actions (returned tt))))
    × (run_service (thrown (codes "no network")) (returned tt) (busy ∷ idle ∷ end ∷ [])
        ≡ some (
            tell (Notes.log 126 (codes "Sending hello"))
            ∷ Action.hello announced
            ∷ tell (log_at warning 176 (codes "no network"))
            ∷ tell (Notes.log 179 (codes "The service loop stopped"))
            ∷ Action.reset_work
            ∷ []))
run_service_lem_example =
    run_service_lem (busy ∷ idle ∷ []) end [] (returned tt) (codes "no network") (refl, (refl, tt))
      refl

turns :
    told (all_turns (busy ∷ idle ∷ []))
    ≡ Notes.log 151 (codes "Accept")
      ∷ Notes.log 157 (codes "Serve")
      ∷ Notes.log 71 (codes "bye(http://127.0.0.1/onvif/services, NetworkVideoTransmitter, )")
      ∷ Notes.log 168 (codes "Clear")
      ∷ Notes.log 151 (codes "Accept")
      ∷ log_at warning 153 (codes "Accept failed")
      ∷ []
unfolding all_turns requested after_serve told
turns = refl
