-- ===== src/Exchange/Device/Loop/Logged.antt =====
-- What the device's thread writes for what arrives at its service.
use mathlib.Core.List.{Memᴰ}
use onvifxx.Base.{
  ℕ, ◌≡◌, refl, ap, ◌∙◌, map, true, Bool, Option, some, List, [], ◌∷◌, ◌++◌, All, length,
}
use onvifxx.Base.Chars.{Text, codes}
use onvifxx.Base.Outcome.{ok, Ended, returned}
use onvifxx.Device.Notes.{log}
use onvifxx.Device.Serving.{Action, Turn, greeting, parting, release, run_service, told}
use onvifxx.Device.Serving.Client.{Server, turns}
use onvifxx.Device.Serving.Turns.{all_turns, run_service_turns}
use onvifxx.Exchange.Delivery.{ArrivesFrom, Says, announced, arrived-announced}
use onvifxx.Exchange.Process.Numbers.{run-AreSent}
use onvifxx.Exchange.Device.{device}
use onvifxx.Exchange.Device.Loop.{Arrival, no_socket, broken, message, IsGsoap}
use onvifxx.Exchange.Process.{Announcement, Call, Process, run}
use onvifxx.Wsdd.Gsoap.{Header, Runtime, ClearsPointers}
use onvifxx.Wsdd.Lifetime
use onvifxx.Wsdd.Proxy.{Message}
use onvifxx.Wsdd.Service.{Service, bind, create}
use onvifxx.Wsdd.Service.Bind.{bind-bound}
use onvifxx.Wsdd.Wsa.{State}
use onvifxx.Exchange.Device.Loop.Notes.{
  messages, loop_notes, turns_of, turns_of-IsRunning, silent_turn, broken_turn, one_turn,
  last_notes, told-run,
}
use onvifxx.Exchange.Device.Loop.Probes.{says, AreSaid, IsOther, IsReady, said_turns}
use onvifxx.Exchange.Device.Loop.Answers.{loop_answers}

module _ (split : Text → List Text) (rt : Runtime) (clears : ClearsPointers rt) {Peer : Type 0}
    (server : Server Peer) (held : Peer → Service) (next : Peer → List Arrival)
    (gsoap : IsGsoap rt server held next) where
  Says-AreSaid :
      (arrivals : List Arrival) (said : List Announcement)
      → Says rt (messages arrivals) said
      → AreSaid rt arrivals (map says said)
  Says-AreSaid [] [] are = tt
  Says-AreSaid [] (a ∷ said) are = elim are [ ]
  Says-AreSaid (no_socket ∷ arrivals) said are = Says-AreSaid arrivals said are
  Says-AreSaid (broken ∷ arrivals) said are = Says-AreSaid arrivals said are
  Says-AreSaid (message env m ∷ arrivals) [] are = elim are [ ]
  Says-AreSaid (message env m ∷ arrivals) (a ∷ said) (first, rest) =
      (first, Says-AreSaid arrivals said rest)

  says-IsOther : (said : List Announcement) → All (IsOther split) (map says said)
  says-IsOther [] = tt
  says-IsOther (a ∷ said) = (tt, says-IsOther said)

  said_turns-turns_of :
      (arrivals : List Arrival) (said : List Announcement)
      → said_turns arrivals (map says said) ≡ turns_of arrivals said
  said_turns-turns_of [] said = refl
  said_turns-turns_of (no_socket ∷ arrivals) said =
      ap (λ l. silent_turn ∷ l) (said_turns-turns_of arrivals said)
  said_turns-turns_of (broken ∷ arrivals) said =
      ap (λ l. broken_turn ∷ l) (said_turns-turns_of arrivals said)
  said_turns-turns_of (message env m ∷ arrivals) [] = refl
  said_turns-turns_of (message env m ∷ arrivals) (a ∷ said) =
      ap (λ l. one_turn a ∷ l) (said_turns-turns_of arrivals said)

  -- The example device, whose service is new and bound to it with a socket that has joined the group, and
  -- any calls of the proxies of another process, over a network that may lose, repeat and reorder what
  -- they send. Whatever the calls of the service meet, one thing for each turn of the loop: each turn
  -- comes about, and each message says one of the announcements. If hello of the device returned and the
  -- loop is stopped then, the run of `runService` writes to the log, between its greeting and its end:
  -- where there is no socket that the accept failed; for a request that ends too early a dot; for a
  -- message what it says, as the device is called with it, and that the memory is cleared. This holds
  -- where there is memory for a header, `soap_default` clears pointers, and `accept`, `serve` and
  -- `destroy` do what the loop relies on.
  pub loop_logged :
      (fresh : Header)
      → rt.new_header ≡ some fresh
      → (cs : List Call) (w : Process) (binds : ℕ → Option ℕ) (joins : ℕ → Bool) (st : State)
        (socket : ℕ) (p : Peer)
      → (bind binds joins (device split) 0 (Lifetime.service rt st)).0 ≡ some socket
      → held p ≡ (bind binds joins (device split) 0 (Lifetime.service rt st)).1
      → (w' : Process) × (ms : List Message) × (run rt cs w ≡ ok w')
        × (w'.sent ≡ w.sent ++ ms)
        × (ArrivesFrom ms (messages (next p))
            → (said : List Announcement) × All (λ a. Memᴰ a (announced cs)) said
              × Says rt (messages (next p)) said
              × (ts : List Turn) × (q : Peer) × (turns server (length (next p)) p ≡ ok (ts, q))
              × ((bye_ends : Ended (Unit {0})) (last : Turn) (later : List Turn)
                  → last.stopped ≡ true
                  → (acts : List Action) × (run_service (returned tt) bye_ends (ts ++ last ∷ later)
                      ≡ some acts)
                    × (told acts
                        ≡ log 126 (codes "Sending hello")
                          ∷ log 146 (codes "Starting the service loop")
                          ∷ (loop_notes (next p) said ++ last_notes bye_ends))))
  unfolding Lifetime.service create
  loop_logged fresh memory cs w binds joins st socket p joined is =
      let new = Lifetime.service rt st in
      let s = (bind binds joins (device split) 0 new).1 in
      let set = (bind-bound binds joins (device split) 0 new).0 in
      let ready : IsReady split (held p) = record {
        bound = ap (λ (s : Service). s.p) (is ∙ set);
        fresh = ap (λ (s : Service). s.matches) (is ∙ set);
      } in
      let (w', ms, ran, more, sent) = run-AreSent rt fresh memory cs w in
      (
        w',
        ms,
        ran,
        more,
        λ from.
            let (said, among, are) = arrived-announced (messages (next p)) sent from in
            let (q, ended, _, _) =
              (loop_answers split rt clears server held next gsoap (next p) (map says said) p refl
                  ready (Says-AreSaid (next p) said are)).0
                (says-IsOther said) in
            (
              said,
              among,
              are,
              turns_of (next p) said,
              q,
              ended ∙ ap (λ ts. ok (ts, q)) (said_turns-turns_of (next p) said),
              λ bye_ends last later stop. (
                greeting ++ all_turns (turns_of (next p) said) ++ (parting bye_ends ++ release),
                (run_service_turns (turns_of (next p) said) last later bye_ends []
                    (turns_of-IsRunning (next p) said) stop).0,
                told-run (next p) said bye_ends,
              ),
            ),
      )
