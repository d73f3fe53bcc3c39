-- ===== src/Device/Serving.antt =====
-- `Wsdd::runService` (examples/ws-discovery/wsdd.cpp): a hello, the service loop, and a bye.
pub mod Turns
pub mod Client
use onvifxx.Base.{ℕ, Bool, true, false, Option, none, some, List, [], ◌∷◌, ◌++◌, map, if◌then◌else◌}
use onvifxx.Base.Chars.{Text, codes}
use onvifxx.Base.Outcome.{Ended, returned, thrown}
use onvifxx.Device.Notes.{Note, log, log_at, warning}
use onvifxx.Device.Reports.{hello_note, bye_note, probe_note}
use onvifxx.Wsdd.Messages.{Probe, ProbeMatch, EndpointReference, Scopes}

-- `scopes_`, as the constructor fills it
abbrev pub scope_list : List Text
scope_list =
    codes "onvif://www.onvif.org/type/NetworkVideoTransmitter"
    ∷ codes "onvif://www.onvif.org/type/video_encoder"
    ∷ codes "onvif://www.onvif.org/type/audio_encoder"
    ∷ codes "onvif://www.onvif.org/type/ptz"
    ∷ codes "onvif://www.onvif.org/name/OnvifxxExample"
    ∷ codes "onvif://www.onvif.org/location/Anywhere"
    ∷ codes "onvif://www.onvif.org/hardware/OnvifxxEngine"
    ∷ []

-- `boost::algorithm::join`
pub join : List Text → Text → Text
join [] separator = []
join (x ∷ []) separator = x
join (x ∷ xs) separator = x ++ separator ++ join xs separator

-- `probeMatches_.back()`
unfoldable pub announced : ProbeMatch
unfolding join
announced = record {
  endpoint = some (record {
    address = some (codes "urn:uuid:05f1b46c-f29a-46f7-9140-e4bc00c8cea6");
    port_type = none;
    service_name = none;
  });
  types = some (codes "NetworkVideoTransmitter");
  scopes = some (record { item = join scope_list (codes " "); match_by = none });
  xaddrs = some (codes "http://127.0.0.1/onvif/services");
  version = 1;
}

-- The calls of the object that the service makes while `serve` runs.
pub data Heard : Type 0 where
  hello bye : ProbeMatch → Heard
  probe : Probe → Heard

-- What they write.
abbrev pub heard_note : Heard → Note
heard_note (hello arg) = hello_note arg
heard_note (bye arg) = bye_note arg
heard_note (probe arg) = probe_note arg

-- What the thread does with the proxy, the service and `work_`, and what it writes to the log.
pub data Action : Type 0 where
  hello bye : ProbeMatch → Action
  bind accept describe destroy drop_service reset_work : Action
  serve : List Heard → Action
  tell : Note → Action

-- What `serve` returns: 0, -1, or another error, with the text of its `SoapException`.
pub data Served : Type 0 where
  served no_request : Served
  failed : Text → Served

-- A turn of the loop, if the loop has not been stopped: `accept` fails or not, and `serve` returns.
pub record Turn : Type 0 where
  pub stopped : Bool
  pub accept_fails : Bool
  pub heard : List Heard
  pub serves : Served

unfoldable pub after_serve : Served → List Action
after_serve served = tell (log 168 (codes "Clear")) ∷ destroy ∷ []
after_serve no_request = tell (log 164 (codes ".")) ∷ []
after_serve (failed what) =
    describe
    ∷ tell (log_at warning 161 (codes "Serve failed :" ++ what))
    ∷ tell (log 164 (codes "."))
    ∷ []

-- A call of `accept` that fails, and one that a request follows.
abbrev pub accept_note : Note
accept_note = log 151 (codes "Accept")

abbrev pub refused : List Action
refused = tell accept_note ∷ accept ∷ tell (log_at warning 153 (codes "Accept failed")) ∷ []

unfoldable pub requested : List Heard → Served → List Action
unfolding after_serve
requested calls serves =
    tell accept_note ∷ accept ∷ tell (log 157 (codes "Serve")) ∷ serve calls ∷ after_serve serves

-- The loop: `none` where the turns end and the loop does not.
unfoldable pub service_loop : List Turn → List Action → Option (List Action)
unfolding requested
service_loop [] acts = none
service_loop (t ∷ ts) acts =
    let again = service_loop ts (acts ++ refused) in
    let went_on = service_loop ts (acts ++ requested t.heard t.serves) in
    if t.stopped then some acts else if t.accept_fails then again else went_on

-- What comes before the loop, and behind it, by how `bye` of the proxy ends. What is thrown is caught,
-- and written.
abbrev pub greeting : List Action
greeting =
    tell (log 126 (codes "Sending hello"))
    ∷ hello announced
    ∷ tell (log 146 (codes "Starting the service loop"))
    ∷ bind
    ∷ []

abbrev pub caught : Ended (Unit {0}) → List Action
caught (returned u) = []
caught (thrown what) = tell (log_at warning 176 what) ∷ []

abbrev pub failed_greeting : Text → List Action
failed_greeting what =
    tell (log 126 (codes "Sending hello")) ∷ hello announced ∷ caught (thrown what)

abbrev pub parting : Ended (Unit {0}) → List Action
parting ends = drop_service ∷ bye announced ∷ caught ends

abbrev pub release : List Action
release = tell (log 179 (codes "The service loop stopped")) ∷ reset_work ∷ []

-- The function, by how `hello` and `bye` of the proxy end.
unfoldable pub run_service : Ended (Unit {0}) → Ended (Unit {0}) → List Turn → Option (List Action)
unfolding service_loop announced
run_service (thrown what) bye_ends turns = some (failed_greeting what ++ release)
run_service (returned u) bye_ends turns = elim (service_loop turns greeting) [
  | none ↦ none
  | some acts ↦ some (acts ++ (parting bye_ends ++ release))
]

-- What is written in the course of actions: their notes, and those of the calls of the object.
abbrev pub heard_notes : List Heard → List Note
heard_notes calls = map heard_note calls

unfoldable pub told : List Action → List Note
told [] = []
told (tell note ∷ acts) = note ∷ told acts
told (serve calls ∷ acts) = heard_notes calls ++ told acts
told (_ ∷ acts) = told acts
