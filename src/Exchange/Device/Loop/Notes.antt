-- ===== src/Exchange/Device/Loop/Notes.antt =====
-- The turns of the loop that what arrives leads to, and the lines of the log.
use onvifxx.Base.{◌≡◌, refl, ap, ◌∙◌, true, false, List, [], ◌∷◌, ◌++◌, All}
use onvifxx.Base.Chars.{codes}
use onvifxx.Base.Outcome.{Ended, returned, thrown}
use onvifxx.Device.Notes.{Note, log, log_at, warning}
use onvifxx.Device.Reports.{hello_note}
use onvifxx.Device.Serving.{
  Heard, served, no_request, Turn, accept_note, requested, after_serve, greeting, parting, release,
  told,
}
use onvifxx.Device.Serving.Turns.{all_turns, IsRunning, told-append}
use onvifxx.Exchange.Device.Loop.{Arrival, no_socket, broken, message}
use onvifxx.Exchange.Process.{Announcement, hello, bye}
use onvifxx.Wsdd.Messages.RoundTrip.{seen}
use onvifxx.Wsdd.Proxy.{Message}
use onvifxx.Wsdd.Service.Dispatch.{seen_bye}

-- The messages among what arrives.
abbrev pub messages : List Arrival → List Message
messages [] = []
messages (message env m ∷ arrivals) = m ∷ messages arrivals
messages (no_socket ∷ arrivals) = messages arrivals
messages (broken ∷ arrivals) = messages arrivals

-- The call of the device that an announcement is, and what the call writes: a bye has no more than an
-- endpoint when it arrives.
abbrev pub heard_of : Announcement → Heard
heard_of (hello arg) = Heard.hello (seen arg)
heard_of (bye arg) = Heard.bye (seen_bye arg)

abbrev pub said_note : Announcement → Note
said_note (hello arg) = hello_note (seen arg)
said_note (bye arg) = log 71 (codes "bye(, , )")

-- The lines of the loop, for what arrives and what the messages say.
abbrev pub loop_notes : List Arrival → List Announcement → List Note
loop_notes (no_socket ∷ arrivals) said =
    accept_note ∷ log_at warning 153 (codes "Accept failed") ∷ loop_notes arrivals said
loop_notes (broken ∷ arrivals) said =
    accept_note ∷ log 157 (codes "Serve") ∷ log 164 (codes ".") ∷ loop_notes arrivals said
loop_notes (message env m ∷ arrivals) (a ∷ said) =
    accept_note
    ∷ log 157 (codes "Serve")
    ∷ said_note a
    ∷ log 168 (codes "Clear")
    ∷ loop_notes arrivals said
loop_notes _ _ = []

-- The turns that they are.
abbrev pub silent_turn : Turn
silent_turn = record { stopped = false; accept_fails = true; heard = []; serves = no_request }

abbrev pub broken_turn : Turn
broken_turn = record { stopped = false; accept_fails = false; heard = []; serves = no_request }

abbrev pub one_turn : Announcement → Turn
one_turn a = record {
  stopped = false;
  accept_fails = false;
  heard = heard_of a ∷ [];
  serves = served;
}

abbrev pub turns_of : List Arrival → List Announcement → List Turn
turns_of (no_socket ∷ arrivals) said = silent_turn ∷ turns_of arrivals said
turns_of (broken ∷ arrivals) said = broken_turn ∷ turns_of arrivals said
turns_of (message env m ∷ arrivals) (a ∷ said) = one_turn a ∷ turns_of arrivals said
turns_of _ _ = []

pub turns_of-IsRunning :
    (arrivals : List Arrival) (said : List Announcement) → All IsRunning (turns_of arrivals said)
turns_of-IsRunning [] said = tt
turns_of-IsRunning (no_socket ∷ arrivals) said = (refl, turns_of-IsRunning arrivals said)
turns_of-IsRunning (broken ∷ arrivals) said = (refl, turns_of-IsRunning arrivals said)
turns_of-IsRunning (message env m ∷ arrivals) [] = tt
turns_of-IsRunning (message env m ∷ arrivals) (a ∷ said) = (refl, turns_of-IsRunning arrivals said)

told-turns_of :
    (arrivals : List Arrival) (said : List Announcement)
    → told (all_turns (turns_of arrivals said)) ≡ loop_notes arrivals said
unfolding told all_turns requested after_serve
told-turns_of [] said = refl
told-turns_of (no_socket ∷ arrivals) said =
    ap (λ l. accept_note ∷ log_at warning 153 (codes "Accept failed") ∷ l)
      (told-turns_of arrivals said)
told-turns_of (broken ∷ arrivals) said =
    ap (λ l. accept_note ∷ log 157 (codes "Serve") ∷ log 164 (codes ".") ∷ l)
      (told-turns_of arrivals said)
told-turns_of (message env m ∷ arrivals) [] = refl
told-turns_of (message env m ∷ arrivals) (hello arg ∷ said) =
    ap
      (λ l.
        accept_note ∷ log 157 (codes "Serve") ∷ said_note (hello arg) ∷ log 168 (codes "Clear") ∷ l)
      (told-turns_of arrivals said)
told-turns_of (message env m ∷ arrivals) (bye arg ∷ said) =
    ap
      (λ l.
        accept_note ∷ log 157 (codes "Serve") ∷ said_note (bye arg) ∷ log 168 (codes "Clear") ∷ l)
      (told-turns_of arrivals said)

-- The lines behind the loop.
abbrev pub last_notes : Ended (Unit {0}) → List Note
last_notes (returned u) = log 179 (codes "The service loop stopped") ∷ []
last_notes (thrown what) = log_at warning 176 what ∷ log 179 (codes "The service loop stopped") ∷ []

told-parting : (ends : Ended (Unit {0})) → told (parting ends ++ release) ≡ last_notes ends
unfolding told
told-parting (returned u) = refl
told-parting (thrown what) = refl

pub told-run :
    (arrivals : List Arrival) (said : List Announcement) (ends : Ended (Unit {0}))
    → told (greeting ++ all_turns (turns_of arrivals said) ++ (parting ends ++ release))
      ≡ log 126 (codes "Sending hello")
        ∷ log 146 (codes "Starting the service loop")
        ∷ (loop_notes arrivals said ++ last_notes ends)
unfolding told
told-run arrivals said ends =
    let acts = all_turns (turns_of arrivals said) in
    told-append (greeting ++ acts) (parting ends ++ release)
    ∙ ap (λ l. l ++ told (parting ends ++ release)) (told-append greeting acts)
    ∙ ap (λ l. told greeting ++ l ++ told (parting ends ++ release)) (told-turns_of arrivals said)
    ∙ ap (λ l. told greeting ++ loop_notes arrivals said ++ l) (told-parting ends)
