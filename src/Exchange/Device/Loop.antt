-- ===== src/Exchange/Device/Loop.antt =====
-- The loop of the example device (examples/ws-discovery/wsdd.cpp) over its service
-- (wsdd/remotediscovery_service.cpp). `accept`, `serve` and `destroy` of the service are those of the
-- generated class and of gSOAP, which are a parameter here.
pub mod Notes
pub mod Turns
pub mod Logged
pub mod Probes
pub mod Answers
use onvifxx.Base.{◌≡◌, true, false, some, List, [], ◌∷◌}
use onvifxx.Base.Outcome.{ok, fault, Fault, Ended, returned}
use onvifxx.Device.Serving.{Heard, Served, served, no_request, failed}
use onvifxx.Device.Serving.Client.{Server}
use onvifxx.Exceptions.{Soap, soap_exception, what}
use onvifxx.Exchange.Receiving.{received}
use onvifxx.Wsdd.Gsoap.{Code, soap_ok, Runtime}
use onvifxx.Wsdd.Proxy.{Message}
use onvifxx.Wsdd.Service.{Service, World, Event, called_hello, called_bye, called_probe, dispatch}
use onvifxx.Wsdd.Service.Dispatch.{deliver}

-- What a turn of the loop meets: `accept` has no socket to give, whatever the reason; it gives one, and
-- nothing whole is read from it; or a message is read, whose call of `dispatch` is given the rest from
-- outside.
pub data Arrival : Type 0 where
  no_socket broken : Arrival
  message : World → Message → Arrival

-- The calls of the object among what a service does.
pub heard_in : List Event → List Heard
heard_in [] = []
heard_in (called_hello arg ∷ es) = Heard.hello arg ∷ heard_in es
heard_in (called_bye arg ∷ es) = Heard.bye arg ∷ heard_in es
heard_in (called_probe arg ∷ es) = Heard.probe arg ∷ heard_in es
heard_in (_ ∷ es) = heard_in es

-- The code of `dispatch` as the loop looks at it: 0, or what `SoapException(*service)` says.
abbrev pub served_of : Soap → Code → Served
served_of soap soap_ok = served
served_of soap _ = failed (what (soap_exception (some soap)))

-- The service that gets a message, with what happens from there on as its events.
abbrev pub at_message : Message → Service → Service
at_message m s = record (received m s) { events = [] }

-- What the loop relies on of `accept`, `serve` and `destroy`, where `held` is the service and `next` what
-- its calls will meet. `accept` fails where there is no socket. Otherwise `serve` returns -1 where
-- nothing whole is read; where a message is, it leaves the header in the service, calls `dispatch` once
-- and returns its code, or does not come through where `dispatch` does not. Each takes off what it has
-- met. `destroy` keeps the pointer to the object and the matches, which are members of the service.
pub record IsGsoap (rt : Runtime) {Peer : Type 0} (server : Server Peer) (held : Peer → Service)
    (next : Peer → List Arrival) : Type 0 where
  pub refuses :
      (p : Peer) (later : List Arrival)
      → next p ≡ no_socket ∷ later
      → ((server.accept p).0 ≡ true)
        × (next (server.accept p).1 ≡ later)
        × (held (server.accept p).1 ≡ held p)
  pub breaks :
      (p : Peer) (later : List Arrival)
      → next p ≡ broken ∷ later
      → ((server.accept p).0 ≡ false)
        × (r : Peer) × (server.serve (server.accept p).1 ≡ ok (([], no_request), r))
        × (next r ≡ later)
        × (held r ≡ held p)
  pub accepts :
      (p : Peer) (env : World) (m : Message) (later : List Arrival)
      → next p ≡ message env m ∷ later
      → (server.accept p).0 ≡ false
  pub serves :
      (p : Peer) (env : World) (m : Message) (later : List Arrival) (code : Code) (s : Service)
      → next p ≡ message env m ∷ later
      → dispatch env (deliver rt env m.body) (at_message m (held p)) ≡ ok (returned code, s)
      → (r : Peer) × (server.serve (server.accept p).1
          ≡ ok ((heard_in s.events, served_of env.soap code), r))
        × (next r ≡ later)
        × (held r ≡ s)
  pub stops :
      (p : Peer) (env : World) (m : Message) (later : List Arrival) (e : Fault)
      → next p ≡ message env m ∷ later
      → dispatch env (deliver rt env m.body) (at_message m (held p)) ≡ fault e
      → server.serve (server.accept p).1 ≡ fault e
  pub destroys :
      (p : Peer)
      → (next (server.destroy p) ≡ next p)
        × ((held (server.destroy p)).p ≡ (held p).p)
        × ((held (server.destroy p)).matches ≡ (held p).matches)
