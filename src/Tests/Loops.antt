-- ===== src/Tests/Loops.antt =====
-- The loop of the example device over what its service meets.
use mathlib.Core.List.{Memᴰ}
use onvifxx.Base.{
  ◌≡◌, refl, ap, ◌∙◌, true, false, Bool, none, some, List, [], ◌∷◌, ◌++◌, All, length, map,
}
use onvifxx.Base.Chars.{codes}
use onvifxx.Base.Outcome.{Outcome, ok, fault, uncaught, dangling, Ended, returned, thrown, ◌>>=◌}
use onvifxx.Device.Notes.{log, log_at, warning}
use onvifxx.Device.Serving.{Action, Heard, Served, no_request, Turn, run_service, told}
use onvifxx.Device.Serving.Client.{Server, turns}
use onvifxx.Exceptions.{Soap}
use onvifxx.Exchange.Delivery.{ArrivesFrom, Says, announced}
use onvifxx.Exchange.Device.{device}
use onvifxx.Exchange.Device.Loop.{
  Arrival, no_socket, broken, message, heard_in, served_of, at_message, IsGsoap,
}
use onvifxx.Exchange.Device.Loop.Answers.{loop_answers}
use onvifxx.Exchange.Device.Loop.Logged.{loop_logged}
use onvifxx.Exchange.Device.Loop.Notes.{
  messages, loop_notes, last_notes, silent_turn, broken_turn, one_turn,
}
use onvifxx.Exchange.Device.Loop.Probes.{
  Saying, says, asks, IsOther, IsReady, said_turns, question_turn, question-IsSaid,
}
use onvifxx.Exchange.Process.{Announcement, hello, bye, Call, Process, run}
use onvifxx.Exchange.Process.Numbers.{body_of}
use onvifxx.Wsdd.Gsoap.{Code}
use onvifxx.Wsdd.Lifetime
use onvifxx.Wsdd.Messages.{Probe}
use onvifxx.Wsdd.Proxy.{Message}
use onvifxx.Wsdd.Proxy.Announce.{question}
use onvifxx.Wsdd.Service.{Service, bind, create, dispatch}
use onvifxx.Wsdd.Service.Dispatch.{deliver}
use onvifxx.Wsdd.Uuid.{first_seed}
use onvifxx.Tests.Data.{rt, clears, header, with_header, item}
use onvifxx.Tests.Network.{at, env, whole}

abbrev calls : List Call
calls =
    record { who = 0; env = at 100; what = hello item }
    ∷ record { who = 0; env = at 200; what = bye item }
    ∷ []

abbrev process : Process
process = record {
  statics = record { instance_rv = none; sequence_rv = []; message_rv = 0; seed = first_seed };
  proxies = λ i. with_header none;
  sent = [];
}

-- A service that meets what stands in a list: `accept` and `serve` take off what they meet, and `destroy`
-- gives the header back.
abbrev Peer : Type 0
Peer = List Arrival × Service

accepts : Peer → Bool × Peer
accepts ([], s) = (true, ([], s))
accepts (no_socket ∷ later, s) = (true, (later, s))
accepts (a ∷ later, s) = (false, (a ∷ later, s))

ends_with : Soap → List Arrival → Ended Code × Service → Outcome ((List Heard × Served) × Peer)
ends_with soap later (thrown e, s) = fault uncaught
ends_with soap later (returned code, s) = ok ((heard_in s.events, served_of soap code), (later, s))

serves : Peer → Outcome ((List Heard × Served) × Peer)
unfolding ends_with
serves (message env m ∷ later, s) =
    dispatch env (deliver rt env m.body) (at_message m s) >>= ends_with env.soap later
serves (_ ∷ later, s) = ok (([], no_request), (later, s))
serves ([], s) = ok (([], no_request), ([], s))

frees : Peer → Peer
frees (arrivals, s) = (arrivals, record s { wsa = with_header none })

abbrev server : Server Peer
server = record { accept = accepts; serve = serves; destroy = frees }

abbrev held : Peer → Service
held p = p.1

abbrev next : Peer → List Arrival
next p = p.0

server-IsGsoap : IsGsoap rt server held next
unfolding accepts serves ends_with frees
server-IsGsoap = record {
  refuses = λ p later e. (
    ap (λ l. (accepts (l, p.1)).0) e,
    ap (λ l. (accepts (l, p.1)).1.0) e,
    ap (λ l. (accepts (l, p.1)).1.1) e,
  );
  breaks = λ p later e. (
    ap (λ l. (accepts (l, p.1)).0) e,
    (later, p.1),
    ap (λ l. serves (accepts (l, p.1)).1) e,
    refl,
    refl,
  );
  accepts = λ p env m later e. ap (λ l. (accepts (l, p.1)).0) e;
  serves = λ p env m later code s e done. (
    (later, s),
    ap (λ l. serves (accepts (l, p.1)).1) e ∙ ap (λ o. o >>= ends_with env.soap later) done,
    refl,
    refl,
  );
  stops = λ p env m later f e done.
      ap (λ l. serves (accepts (l, p.1)).1) e ∙ ap (λ o. o >>= ends_with env.soap later) done;
  destroys = λ p. (refl, refl, refl);
}

abbrev packet : Message
packet = record { body = body_of rt (hello item); header = none; sequence = rt.default_sequence }

noted :
    loop_notes (no_socket ∷ message env packet ∷ broken ∷ []) (hello item ∷ [])
    ≡ log 151 (codes "Accept")
      ∷ log_at warning 153 (codes "Accept failed")
      ∷ log 151 (codes "Accept")
      ∷ log 157 (codes "Serve")
      ∷ log 62 (codes "hello(http://127.0.0.1/onvif/services, NetworkVideoTransmitter, )")
      ∷ log 168 (codes "Clear")
      ∷ log 151 (codes "Accept")
      ∷ log 157 (codes "Serve")
      ∷ log 164 (codes ".")
      ∷ []
noted = refl

-- A probe that another process has sent.
abbrev asked : Probe
asked = record {
  types = none;
  scopes =
      some (record { item = codes "onvif://www.onvif.org/location/Anywhere"; match_by = none });
}

abbrev sent_probe : Message
sent_probe = question rt (at 100) asked header (with_header none)

-- A socket that has joined the group.
abbrev new : Service
new =
    (bind (λ port. some 5) (λ socket. true) (device whole) 0
      (Lifetime.service rt (with_header none))).1

abbrev come : List Arrival
come = no_socket ∷ message env packet ∷ broken ∷ message env sent_probe ∷ []

abbrev told_in : List Saying
told_in = says (hello item) ∷ asks asked ∷ []

loop_answers_example :
    (All (IsOther whole) told_in
      → (q : Peer) × (turns server (length come) (come, new) ≡ ok (said_turns come told_in, q))
        × (next q ≡ [])
        × IsReady whole (held q))
    × (¬ All (IsOther whole) told_in → turns server (length come) (come, new) ≡ fault dangling)
unfolding bind Lifetime.service create
loop_answers_example =
    loop_answers whole rt clears server held next server-IsGsoap come told_in (come, new) refl
      (record { bound = refl; fresh = refl })
      (refl, (question-IsSaid rt (at 100) asked header (with_header none), tt))

-- Each thing that comes is a turn, and the device is asked in the last.
turned :
    said_turns come told_in
    ≡ silent_turn ∷ one_turn (hello item) ∷ broken_turn ∷ question_turn env asked ∷ []
turned = refl

-- What the other process has sent arrives between others.
abbrev sent : List Message
sent = elim (run rt calls process) [ ok w ↦ w.sent | fault e ↦ [] ]

abbrev met : List Arrival
met = no_socket ∷ (map (message env) sent ++ broken ∷ [])

loop_logged_example :
    (w' : Process) × (ms : List Message) × (run rt calls process ≡ ok w')
    × (w'.sent ≡ [] ++ ms)
    × (ArrivesFrom ms (messages met)
        → (said : List Announcement) × All (λ a. Memᴰ a (announced calls)) said
          × Says rt (messages met) said
          × (ts : List Turn) × (q : Peer) × (turns server (length met) (met, new) ≡ ok (ts, q))
          × ((bye_ends : Ended (Unit {0})) (last : Turn) (later : List Turn)
              → last.stopped ≡ true
              → (acts : List Action) × (run_service (returned tt) bye_ends (ts ++ last ∷ later)
                  ≡ some acts)
                × (told acts
                    ≡ log 126 (codes "Sending hello")
                      ∷ log 146 (codes "Starting the service loop")
                      ∷ (loop_notes met said ++ last_notes bye_ends))))
unfolding bind
loop_logged_example =
    loop_logged whole rt clears server held next server-IsGsoap header refl calls process
      (λ port. some 5) (λ socket. true) (with_header none) 5 (met, new) refl refl
