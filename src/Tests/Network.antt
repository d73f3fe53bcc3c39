-- ===== src/Tests/Network.antt =====
-- Runs of proxies and services together.
use mathlib.Core.List.{Memᴰ}
use onvifxx.Base.{
  ℕ, ◌*◌, ◌+◌, ◌≡◌, refl, Option, true, false, none, some, List, [], ◌∷◌, ◌++◌, map, All, arith,
  ◌↔◌,
}
use onvifxx.Base.Chars.{Text, codes}
use onvifxx.Base.Int.{pos}
use onvifxx.Base.Outcome.{ok, returned, thrown}
use onvifxx.Device.Log.{Log, to_log}
use onvifxx.Device.Log.Lines
use onvifxx.Exceptions.{Soap}
use onvifxx.Exchange.Bound.{bind_heard}
use onvifxx.Exchange.Delivery.{ArrivesFrom, Says, announced, announcements_heard, heard_by}
use onvifxx.Exchange.Receiving.{receive_all}
use onvifxx.Exchange.Device.{device}
use onvifxx.Exchange.Device.Logged.{announcements_logged, reports, said_line}
use onvifxx.Exchange.Process.{Announcement, hello, bye, Call, Process, run}
use onvifxx.Exchange.Process.Numbers.{AreSent, body_of, run-AreSent}
use onvifxx.Wsdd.Gsoap.{soap_ok, other, Header}
use onvifxx.Wsdd.Matches.{empty_vector}
use onvifxx.Wsdd.Proxy
use onvifxx.Wsdd.Proxy.{Proxy, Body, Message, namespace_wsd}
use onvifxx.Wsdd.Service
use onvifxx.Wsdd.Service.{
  Service, Handler, Event, base_bind, io_udp, xml_ignorens, called_probe, closed_socket, copy,
  create, log, probe, probe_arg, response_header,
}
use onvifxx.Wsdd.Service.Run.{serve_all}
use onvifxx.Wsdd.Service.Unbound.{copy_unheard}
use onvifxx.Wsdd.Uuid.{first_seed}
use onvifxx.Tests.Data.{rt, clears, random, header, with_header, item}

abbrev soap : Soap
soap = record { errnum = pos 3; sprint_fault = λ size. codes "fault" }

-- A network at a time, on which sending succeeds.
abbrev pub at : ℕ → Proxy.World
at clock = record { random = random; clock = clock; sends = λ m. soap_ok; soap = soap }

-- Two proxies: the second says hello, then the first says hello and bye.
abbrev calls : List Call
calls =
    record { who = 1; env = at 100; what = hello item }
    ∷ record { who = 0; env = at 200; what = hello item }
    ∷ record { who = 0; env = at 300; what = bye item }
    ∷ []

-- Neither has sent anything.
abbrev process : Process
process = record {
  statics = record { instance_rv = none; sequence_rv = []; message_rv = 0; seed = first_seed };
  proxies = λ i. with_header none;
  sent = [];
}

process_messages :
    (w : Process) × (ms : List Message) × (run rt calls process ≡ ok w)
    × (w.sent ≡ [] ++ ms)
    × AreSent rt 100 0 calls ms
process_messages = run-AreSent rt header refl calls process

abbrev pub handler : Handler
handler = record {
  hello = λ arg. returned tt;
  bye = λ arg. thrown (codes "no bye");
  probe = λ arg. returned [];
}

abbrev pub env : Service.World
env = record {
  random = random;
  clock = 100;
  grow = λ n. 2 * n + 1;
  fails = λ done c. false;
  counts_length = false;
  output_error = other 3;
  soap = soap;
}

abbrev pub service : Handler → Service
service obj = record {
  wsa = with_header (some header);
  p = some obj;
  matches = empty_vector;
  send_timeout = 5;
  recv_timeout = 5;
  accept_timeout = 5;
  mode = [];
  socket = none;
  events = [];
}

announcements_heard_example :
    (w : Process) × (ms : List Message) × (run rt calls process ≡ ok w)
    × (w.sent ≡ [] ++ ms)
    × ((ds : List Message)
        → ArrivesFrom ms ds
        → (said : List Announcement) × All (λ a. Memᴰ a (announced calls)) said
          × Says rt ds said
          × (h : Option Header) × (receive_all rt env ds (service handler)
              ≡ ok (heard_by handler said h (service handler))))
    × (h : Option Header) × (receive_all rt env ms (service handler)
        ≡ ok (heard_by handler (announced calls) h (service handler)))
announcements_heard_example =
    announcements_heard rt clears header refl env handler calls process (service handler) refl

abbrev other_handler : Handler
other_handler = record handler { bye = λ arg. returned tt }

-- Bound to another object first, and then to the handler.
abbrev bound : Service
bound = record (service handler) {
  p = some handler;
  mode = io_udp ∷ xml_ignorens ∷ [];
  socket = some 5;
}

-- A hello without a header.
abbrev packet : Message
packet = record { body = body_of rt (hello item); header = none; sequence = rt.default_sequence }

bind_heard_example :
    ((n : ℕ) → (some 5 ≡ some n) ↔ ((some 5 ≡ some n) × (true ≡ true)))
    × ((h : Option Header) × (receive_all rt env (packet ∷ []) bound
          ≡ ok (heard_by handler (hello item ∷ []) h bound)))
    × ((Service.bind (λ port. some 5) (λ socket. true) handler 0 (service handler)).1 ≡ bound)
    × (bound.socket ≡ some 5)
    × (bound.mode ≡ io_udp ∷ xml_ignorens ∷ [])
    × ((base_bind (λ port. some 5) handler 0 (service handler)).1 ≡ record bound { mode = [] })
unfolding Service.bind base_bind
bind_heard_example =
    bind_heard rt clears env (λ port. some 5) (λ socket. true) other_handler handler 0
      (service handler) (packet ∷ []) (hello item ∷ []) (refl, tt)

-- Splits nothing.
abbrev pub whole : Text → List Text
whole t = t ∷ []

abbrev place : ℕ → Text
place n = codes "wsdd.cpp "

abbrev idle : Log
idle = record { ident = codes "wsdd"; facility = 24; priority = 7; buffer = []; sent = [] }

announcements_logged_example :
    (w : Process) × (ms : List Message) × (s : Service) × (es : List Event) × (run rt calls process
      ≡ ok w)
    × (w.sent ≡ [] ++ ms)
    × (receive_all rt env ms (service (device whole)) ≡ ok s)
    × (s.events ≡ [] ++ es)
    × (reports whole place es (to_log idle)
        ≡ ok (
            to_log (record idle {
              sent = map (λ a. Lines.message (said_line whole place a)) (announced calls);
            })))
announcements_logged_example =
    announcements_logged whole place rt clears header refl env calls process
      (service (device whole)) idle refl (refl, refl)
      (
        (ground arith, ground arith),
        ((ground arith, ground arith), ((ground arith, ground arith), tt)),
      )

-- Each hello with its addresses and types, and the bye with nothing.
logged :
    map (λ a. (said_line whole place a).text) (announced calls)
    ≡ codes "hello(http://127.0.0.1/onvif/services, NetworkVideoTransmitter, )"
      ∷ codes "hello(http://127.0.0.1/onvif/services, NetworkVideoTransmitter, )"
      ∷ codes "bye(, , )"
      ∷ []
logged = refl

abbrev said : Body
said = body_of rt (hello item)

-- The copy of a service that is bound to the handler.
copy_unheard_example :
    (some handler ≡ none
      → serve_all rt env (said ∷ said ∷ []) (service handler)
        ≡ ok (log (service handler) (closed_socket ∷ closed_socket ∷ [])))
    × (serve_all rt env (said ∷ said ∷ []) (copy rt (with_header none) (service handler))
        ≡ ok (
            log
              (copy rt (with_header none) (service handler))
              (closed_socket ∷ closed_socket ∷ [])))
copy_unheard_example = copy_unheard rt env (said ∷ said ∷ []) (with_header none) (service handler)
