-- ===== src/Exchange/Device/Loop/Answers.antt =====
-- The turns of the device's loop for what its service meets, probes included.
use onvifxx.Base.{suc, ◌≡◌, refl, ap, ◌∙◌, false, List, [], ◌∷◌, All, length, inl, inr}
use onvifxx.Base.Chars.{Text}
use onvifxx.Base.Outcome.{ok, fault, dangling, returned}
use onvifxx.Device.Serving.{Heard, Served, served, no_request, failed}
use onvifxx.Device.Serving.Client.{Server, turns, after}
use onvifxx.Exchange.Device.{wants?}
use onvifxx.Exchange.Device.Loop.{
  Arrival, no_socket, broken, message, heard_in, served_of, at_message, IsGsoap,
}
use onvifxx.Exchange.Device.Loop.Notes.{silent_turn, broken_turn, one_turn, heard_of}
use onvifxx.Exchange.Device.Loop.Probes.{
  Saying, says, asks, AreSaid, answered, question_turn, said_turns, IsOther, IsReady,
  question_served,
}
use onvifxx.Exchange.Device.Loop.Turns.{
  and_then, turn_refused, turn_served, turn_stopped, announcement_served,
}
use onvifxx.Wsdd.Gsoap.{Code, soap_ok, Runtime, ClearsPointers}
use onvifxx.Wsdd.Proxy.{Message}
use onvifxx.Wsdd.Service.{Service, World, dispatch}
use onvifxx.Wsdd.Service.Dispatch.{deliver}

module _ (split : Text → List Text) (rt : Runtime) (clears : ClearsPointers rt) {Peer : Type 0}
    (server : Server Peer) (held : Peer → Service) (next : Peer → List Arrival)
    (gsoap : IsGsoap rt server held next) where
  -- What a turn ends with: the rest is still to come, and the service is ready.
  abbrev GoesOn : List Arrival → Peer → Type 0
  GoesOn later p = (next p ≡ later) × IsReady split (held p)

  after-GoesOn :
      (result : Served) (later : List Arrival) (r : Peer)
      → GoesOn later r
      → GoesOn later (after server result r)
  unfolding after
  after-GoesOn served later r (rest, ready) =
      let (same, bound, fresh) = gsoap.destroys r in
      (same ∙ rest, record { bound = bound ∙ ready.bound; fresh = fresh ∙ ready.fresh })
  after-GoesOn no_request later r ready = ready
  after-GoesOn (failed text) later r ready = ready

  kept-IsReady : {s s' : Service} → s' ≡ s → IsReady split s → IsReady split s'
  kept-IsReady e ready = record {
    bound = ap (λ (s : Service). s.p) e ∙ ready.bound;
    fresh = ap (λ (s : Service). s.matches) e ∙ ready.fresh;
  }

  -- A message whose `dispatch` returns is a turn.
  message_turn :
      (env : World) (m : Message) (later : List Arrival) (p : Peer) (code : Code) (s : Service)
      (calls : List Heard) (result : Served)
      → next p ≡ message env m ∷ later
      → dispatch env (deliver rt env m.body) (at_message m (held p)) ≡ ok (returned code, s)
      → heard_in s.events ≡ calls
      → served_of env.soap code ≡ result
      → IsReady split s
      → (q : Peer) × (turns server (suc (length later)) p
          ≡ and_then server
              (record { stopped = false; accept_fails = false; heard = calls; serves = result })
              (turns server (length later) q))
        × GoesOn later q
  message_turn env m later p code s calls result comes done heard ends ready =
      let (r, one, rest, kept) = gsoap.serves p env m later code s comes done in
      (
        after server result r,
        turn_served server (length later) p r calls result (gsoap.accepts p env m later comes)
            (one ∙ (λ i. ok ((heard i, ends i), r))),
        after-GoesOn result later r (rest, kept-IsReady kept ready),
      )

  -- The loop of the example device over its service, which is bound to it and has kept no matches, and
  -- what its calls meet, each for one turn, in any order: no socket, a request that ends too early, an
  -- announcement, or a probe with a message id. If no probe asks for what the device has, each turn comes
  -- about: an announcement is the call of the device with what is seen of it, and a probe the call with
  -- just its types and scopes, behind which `serve` returns as writing the response ends; and the service
  -- is again bound and has kept no matches. If one asks for what the device has, the loop does not get
  -- through: a response is written from memory that is no longer alive. This holds where `soap_default`
  -- clears pointers, and `accept`, `serve` and `destroy` do what the loop relies on.
  pub loop_answers :
      (arrivals : List Arrival) (said : List Saying) (p : Peer)
      → next p ≡ arrivals
      → IsReady split (held p)
      → AreSaid rt arrivals said
      → (All (IsOther split) said
          → (q : Peer) × (turns server (length arrivals) p ≡ ok (said_turns arrivals said, q))
            × (next q ≡ [])
            × IsReady split (held q))
        × (¬ All (IsOther split) said → turns server (length arrivals) p ≡ fault dangling)
  unfolding turns
  loop_answers [] [] p comes ready are = (λ all. (p, refl, comes, ready), λ odd. absurd (odd tt))
  loop_answers [] (x ∷ said) p comes ready are = elim are [ ]
  loop_answers (no_socket ∷ arrivals) said p comes ready are =
      let (fails, rest, kept) = gsoap.refuses p arrivals comes in
      let turn = turn_refused server (length arrivals) p fails in
      let (goes, stops) =
        loop_answers arrivals said (server.accept p).1 rest (kept-IsReady kept ready) are in
      (
        λ all.
            let (q, more, rest, end) = goes all in
            (q, turn ∙ ap (and_then server silent_turn) more, rest, end),
        λ odd. turn ∙ ap (and_then server silent_turn) (stops odd),
      )
  loop_answers (broken ∷ arrivals) said p comes ready are =
      let (works, r, one, rest, kept) = gsoap.breaks p arrivals comes in
      let turn = turn_served server (length arrivals) p r [] no_request works one in
      let (goes_on, still) = after-GoesOn no_request arrivals r (rest, kept-IsReady kept ready) in
      let (goes, stops) = loop_answers arrivals said _ goes_on still are in
      (
        λ all.
            let (q, more, rest, end) = goes all in
            (q, turn ∙ ap (and_then server broken_turn) more, rest, end),
        λ odd. turn ∙ ap (and_then server broken_turn) (stops odd),
      )
  loop_answers (message env m ∷ arrivals) [] p comes ready are = elim are [ ]
  loop_answers (message env m ∷ arrivals) (says a ∷ said) p comes ready (first, others) =
      let (s, done, heard, bound, fresh) =
        announcement_served split rt clears env a m (held p) ready.bound first in
      let (r, turn, (rest, ready')) =
        message_turn env m arrivals p soap_ok s (heard_of a ∷ []) served comes done heard refl
          (record { bound = bound; fresh = fresh ∙ ready.fresh }) in
      let (goes, stops) = loop_answers arrivals said r rest ready' others in
      (
        λ all.
            let (q, more, rest, end) = goes all.1 in
            (q, turn ∙ ap (and_then server (one_turn a)) more, rest, end),
        λ odd. turn ∙ ap (and_then server (one_turn a)) (stops λ all. odd (tt, all)),
      )
  loop_answers (message env m ∷ arrivals) (asks arg ∷ said) p comes ready (first, others) =
      let (has, lacks) = question_served split rt clears env arg m (held p) ready first in
      elim (wants? split arg) [
        | inl wants ↦ (
          λ all. absurd (all.0 wants),
          λ odd.
              turn_stopped server (length arrivals) p dangling
                (gsoap.accepts p env m arrivals comes)
                (gsoap.stops p env m arrivals dangling comes (has wants)),
        )
        | inr unlike ↦
            let (code, s, done, ends, heard, ready0) = lacks unlike in
            let (r, turn, (rest, ready')) =
              message_turn env m arrivals p code s (Heard.probe arg ∷ []) (answered env) comes done
                heard ends ready0 in
            let (goes, stops) = loop_answers arrivals said r rest ready' others in
            (
              λ all.
                  let (q, more, rest, end) = goes all.1 in
                  (q, turn ∙ ap (and_then server (question_turn env arg)) more, rest, end),
              λ odd.
                  turn
                  ∙ ap (and_then server (question_turn env arg)) (stops λ all. odd (unlike, all)),
            )
      ]
