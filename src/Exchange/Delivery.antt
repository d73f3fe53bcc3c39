-- ===== src/Exchange/Delivery.antt =====
-- From the proxies of a process over a network to the object that a service is bound to.
use mathlib.Core.List.{Memᴰ}
use onvifxx.Base.{
  ℕ, ◌≡◌, refl, sym, ap, ◌∙◌, Option, some, List, [], ◌∷◌, ◌++◌, map, All, append_assoc, append-nil,
}
use onvifxx.Base.Outcome.{Outcome, ok, Ended, returned, thrown, ◌>>=◌}
use onvifxx.Wsdd.Gsoap.{Code, Header, Runtime, ClearsPointers}
use onvifxx.Wsdd.Messages.RoundTrip.{seen}
use onvifxx.Wsdd.Proxy.{Message}
use onvifxx.Wsdd.Service.{
  Service, Handler, Event, called_hello, called_bye, closed_socket, sender_fault, World, log,
  dispatch,
}
use onvifxx.Wsdd.Service.Dispatch.{deliver, seen_bye, handled, hello_bye_delivered}
use onvifxx.Exchange.Receiving.{received, receive_all}
use onvifxx.Exchange.Process.{Process, Announcement, hello, bye, Call, run}
use onvifxx.Exchange.Process.Numbers.{body_of, AreSent, none_sent, one_sent, run-AreSent}

-- How the service ends after a call of the handler.
abbrev pub end_of : Ended (Unit {0}) → Event
end_of (returned u) = closed_socket
end_of (thrown e) = sender_fault e

-- What a service that is bound to `obj` does at an announcement: it calls `obj` with what is seen of it.
abbrev pub heard : Handler → Announcement → List Event
heard obj (hello arg) = called_hello (seen arg) ∷ end_of (obj.hello (seen arg)) ∷ []
heard obj (bye arg) = called_bye (seen_bye arg) ∷ end_of (obj.bye (seen_bye arg)) ∷ []

abbrev pub heard_all : Handler → List Announcement → List Event
heard_all obj [] = []
heard_all obj (a ∷ said) = heard obj a ++ heard_all obj said

abbrev pub announced : List Call → List Announcement
announced = map (λ c. c.what)

module _ (rt : Runtime) (clears : ClearsPointers rt) (env : World) (obj : Handler) where
  handled-log :
      (r : Ended (Unit {0})) (event : Event) (s : Service)
      → (code : Ended Code) × (handled env r event s ≡ (code, log s (event ∷ end_of r ∷ [])))
  handled-log (returned u) event s = (_, refl)
  handled-log (thrown e) event s = (_, refl)

  one_heard :
      (a : Announcement) (s : Service)
      → s.p ≡ some obj
      → (code : Ended Code) × (dispatch env (deliver rt env (body_of rt a)) s
          ≡ ok (code, log s (heard obj a)))
  one_heard (hello arg) s bound =
      let (code, same) = handled-log (obj.hello (seen arg)) (called_hello (seen arg)) s in
      (code, (hello_bye_delivered rt env clears arg s obj bound).0 ∙ ap ok same)
  one_heard (bye arg) s bound =
      let (code, same) = handled-log (obj.bye (seen_bye arg)) (called_bye (seen_bye arg)) s in
      (code, (hello_bye_delivered rt env clears arg s obj bound).1 ∙ ap ok same)

-- Each message says what stands at its place.
abbrev pub Says : Runtime → List Message → List Announcement → Type 0
Says rt [] [] = Unit
Says rt (d ∷ ds) (a ∷ said) = (d.body ≡ body_of rt a) × Says rt ds said
Says rt _ _ = ⊥

-- A service that has heard announcements, and has the header of the last message.
abbrev pub heard_by : Handler → List Announcement → Option Header → Service → Service
heard_by obj said h s = log (record s { wsa = record (s.wsa) { header = h } }) (heard_all obj said)

pub messages_heard :
    (rt : Runtime) (clears : ClearsPointers rt) (env : World) (obj : Handler) (ds : List Message)
    (said : List Announcement) (s : Service)
    → s.p ≡ some obj
    → Says rt ds said
    → (h : Option Header) × (receive_all rt env ds s ≡ ok (heard_by obj said h s))
unfolding receive_all
messages_heard rt clears env obj [] [] s bound says =
    (s.wsa.header, ap (λ l. ok (record s { events = l })) (sym (append-nil s.events)))
messages_heard rt clears env obj [] (a ∷ said) s bound says = elim says [ ]
messages_heard rt clears env obj (d ∷ ds) [] s bound says = elim says [ ]
messages_heard rt clears env obj (d ∷ ds) (a ∷ said) s bound (says, rest) =
    let (code, one) = one_heard rt clears env obj a (received d s) bound in
    let (h, more) =
      messages_heard rt clears env obj ds said (log (received d s) (heard obj a)) bound rest in
    let later = (λ (o : Outcome (Ended Code × Service)). o >>= λ r. receive_all rt env ds r.1) in
    (
      h,
      ap (λ body. later (dispatch env (deliver rt env body) (received d s))) says
          ∙ ap later one
          ∙ more
          ∙ ap (λ l. ok (record s { wsa = record (s.wsa) { header = h }; events = l }))
              (append_assoc s.events (heard obj a) (heard_all obj said)),
    )

-- A message that was sent says what one of the calls announces.
sent-announced :
    {rt : Runtime} {i n : ℕ} {cs : List Call} {ms : List Message} (m : Message)
    → AreSent rt i n cs ms
    → Memᴰ m ms
    → (a : Announcement) × Memᴰ a (announced cs) × (m.body ≡ body_of rt a)
sent-announced m none_sent at = elim at [ ]
sent-announced m (one_sent c m' body _ rest) (Memᴰ.head e) =
    (c.what, Memᴰ.head refl, ap (λ m. m.body) e ∙ body)
sent-announced m (one_sent c m' body _ rest) (Memᴰ.tail at) =
    let (a, among, same) = sent-announced m rest at in (a, Memᴰ.tail among, same)

-- All messages of a network that loses none come from the calls in order.
sent-Says :
    {rt : Runtime} {i n : ℕ} {cs : List Call} {ms : List Message}
    → AreSent rt i n cs ms
    → Says rt ms (announced cs)
sent-Says none_sent = tt
sent-Says (one_sent c m body _ rest) = (body, sent-Says rest)

-- What arrives of them, each as often as the network likes and in any order.
abbrev pub ArrivesFrom : List Message → List Message → Type 0
ArrivesFrom ms = All (λ m. Memᴰ m ms)

pub arrived-announced :
    {rt : Runtime} {i n : ℕ} {cs : List Call} {ms : List Message} (ds : List Message)
    → AreSent rt i n cs ms
    → ArrivesFrom ms ds
    → (said : List Announcement) × All (λ a. Memᴰ a (announced cs)) said × Says rt ds said
arrived-announced [] sent from = ([], tt, tt)
arrived-announced (d ∷ ds) sent (first, rest) =
    let (a, among, same) = sent-announced d sent first in
    let (said, all, says) = arrived-announced ds sent rest in (a ∷ said, (among, all), (same, says))

-- Any calls of the proxies of a process, and any service that is bound to `obj`: the calls return, and
-- whatever arrives of the messages that were sent, lost, repeated or out of order, the service gets
-- through it. Its events are those of hearing some of the announcements, one for each message that
-- arrived and what that message says, and nothing else of it changes but the header that it received
-- last. If every message arrives once and in order, the service hears every announcement once and in
-- order. This holds where there is memory for a header and `soap_default` clears pointers.
pub announcements_heard :
    (rt : Runtime) (clears : ClearsPointers rt) (fresh : Header)
    → rt.new_header ≡ some fresh
    → (env : World) (obj : Handler) (cs : List Call) (w : Process) (s : Service) → s.p ≡ some obj
    → (w' : Process) × (ms : List Message) × (run rt cs w ≡ ok w')
      × (w'.sent ≡ w.sent ++ ms)
      × ((ds : List Message)
          → ArrivesFrom ms ds
          → (said : List Announcement) × All (λ a. Memᴰ a (announced cs)) said
            × Says rt ds said
            × (h : Option Header) × (receive_all rt env ds s ≡ ok (heard_by obj said h s)))
      × (h : Option Header) × (receive_all rt env ms s ≡ ok (heard_by obj (announced cs) h s))
announcements_heard rt clears fresh memory env obj cs w s bound =
    let (w', ms, ran, more, sent) = run-AreSent rt fresh memory cs w in
    let (h, all) = messages_heard rt clears env obj ms (announced cs) s bound (sent-Says sent) in
    (
      w',
      ms,
      ran,
      more,
      λ ds from.
          let (said, among, says) = arrived-announced ds sent from in
          let (h, some_) = messages_heard rt clears env obj ds said s bound says in
          (said, among, says, h, some_),
      h,
      all,
    )
