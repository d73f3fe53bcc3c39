-- ===== src/Exchange/Device/Announced.antt =====
-- What the device of examples/ws-discovery/wsdd.cpp announces in a run of `runService`, and what is heard
-- of it.
use mathlib.Core.Option.{some-injective}
use onvifxx.Base.{
  ◌≡◌, refl, sym, ap, ◌∙◌, Bool-cases, inl, inr, Option, none, some, List, [], ◌∷◌, ◌++◌,
  append-nil, arith,
}
use onvifxx.Base.Outcome.{ok, Ended, returned, thrown}
use onvifxx.Device.Serving
use onvifxx.Device.Serving.{
  Action, Heard, Served, Turn, after_serve, requested, refused, greeting, failed_greeting, parting,
  service_loop, run_service,
}
use onvifxx.Exchange.Delivery.{announced, heard_by, announcements_heard}
use onvifxx.Exchange.Process.{Announcement, hello, bye, Call, Process, announce, run, with_statics}
use onvifxx.Exchange.Process.Numbers.{announce_sent}
use onvifxx.Exchange.Receiving.{receive_all}
use onvifxx.Wsdd.Gsoap.{Header, Runtime, ClearsPointers}
use onvifxx.Wsdd.Messages.RoundTrip.{seen}
use onvifxx.Wsdd.Proxy
use onvifxx.Wsdd.Proxy.{Proxy, Message}
use onvifxx.Wsdd.Service
use onvifxx.Wsdd.Service.{Service, Handler}

-- The announcements among the actions of the thread.
unfoldable pub said_in : List Action → List Announcement
said_in [] = []
said_in (Action.hello arg ∷ acts) = hello arg ∷ said_in acts
said_in (Action.bye arg ∷ acts) = bye arg ∷ said_in acts
said_in (_ ∷ acts) = said_in acts

said_in-append : (xs ys : List Action) → said_in (xs ++ ys) ≡ said_in xs ++ said_in ys
unfolding said_in
said_in-append [] ys = refl
said_in-append (Action.hello a ∷ xs) ys = ap (λ l. hello a ∷ l) (said_in-append xs ys)
said_in-append (Action.bye a ∷ xs) ys = ap (λ l. bye a ∷ l) (said_in-append xs ys)
said_in-append (Action.tell n ∷ xs) ys = said_in-append xs ys
said_in-append (Action.serve calls ∷ xs) ys = said_in-append xs ys
said_in-append (Action.bind ∷ xs) ys = said_in-append xs ys
said_in-append (Action.accept ∷ xs) ys = said_in-append xs ys
said_in-append (Action.describe ∷ xs) ys = said_in-append xs ys
said_in-append (Action.destroy ∷ xs) ys = said_in-append xs ys
said_in-append (Action.drop_service ∷ xs) ys = said_in-append xs ys
said_in-append (Action.reset_work ∷ xs) ys = said_in-append xs ys

requested_silent : (calls : List Heard) (r : Served) → said_in (requested calls r) ≡ []
unfolding said_in requested after_serve
requested_silent calls Served.served = refl
requested_silent calls Served.no_request = refl
requested_silent calls (Served.failed what) = refl

-- More without an announcement.
silent : (before more : List Action) → said_in more ≡ [] → said_in (before ++ more) ≡ said_in before
silent before more e =
    said_in-append before more ∙ ap (λ l. said_in before ++ l) e ∙ append-nil (said_in before)

loop_silent :
    (ts : List Turn) (before out : List Action)
    → service_loop ts before ≡ some out
    → said_in out ≡ said_in before
unfolding service_loop said_in
loop_silent [] before out q = cc
loop_silent (t ∷ ts) before out q = elim (Bool-cases t.stopped) [
  | inl end ↦ ground (arith, q, end)
  | inr more ↦ elim (Bool-cases t.accept_fails) [
    | inl fails ↦
        loop_silent ts (before ++ refused) out (ground (arith, q, more, fails))
        ∙ silent before refused refl
    | inr accepts ↦
        loop_silent ts (before ++ requested t.heard t.serves) out (ground (arith, q, more, accepts))
        ∙ silent before (requested t.heard t.serves) (requested_silent t.heard t.serves)
  ]
]

-- A run whose loop has ended.
behind_loop :
    (ends : Ended (Unit {0})) (ts : List Turn) (o : Option (List Action)) (acts : List Action)
    → service_loop ts greeting ≡ o
    → (elim o as (λ _. Option (List Action)) [
      | none ↦ none
      | some before ↦ some (before ++ (parting ends ++ Serving.release))
    ])
      ≡ some acts
    → said_in acts ≡ hello Serving.announced ∷ bye Serving.announced ∷ []
unfolding said_in
behind_loop ends ts none acts looped q = cc
behind_loop (returned u) ts (some before) acts looped q =
    ap said_in (sym (some-injective _ _ q))
    ∙ said_in-append before _
    ∙ ap (λ l. l ++ bye Serving.announced ∷ []) (loop_silent ts greeting before looped)
behind_loop (thrown e) ts (some before) acts looped q =
    ap said_in (sym (some-injective _ _ q))
    ∙ said_in-append before _
    ∙ ap (λ l. l ++ bye Serving.announced ∷ []) (loop_silent ts greeting before looped)

-- The calls of the device's proxies: its `proxy_` is a new one for the bye.
module _ (at_hello at_bye : Proxy.World) where
  abbrev pub first : Call
  first = record { who = 0; env = at_hello; what = hello Serving.announced }

  abbrev pub calls_of : Ended (Unit {0}) → List Call
  calls_of (returned u) =
      first ∷ record { who = 1; env = at_bye; what = bye Serving.announced } ∷ []
  calls_of (thrown e) = first ∷ []

  run_service-announced :
      (ended bye_ends : Ended (Unit {0})) (ts : List Turn) (acts : List Action)
      → run_service ended bye_ends ts ≡ some acts
      → said_in acts ≡ announced (calls_of ended)
  unfolding run_service said_in
  run_service-announced (thrown what) bye_ends ts acts q = ap said_in (sym (some-injective _ _ q))
  run_service-announced (returned u) bye_ends ts acts q =
      behind_loop bye_ends ts (service_loop ts greeting) acts refl q

  -- The example device in a whole run of `runService`, from its proxies over a network that loses
  -- nothing to a service that is bound to `obj`. The hello of its first proxy ends in a way that is its
  -- own. However the run goes on from there, the thread announces itself as these calls do: if hello
  -- returned, with a hello and, from a second proxy, a bye; if it threw, with a hello alone. If what was
  -- sent arrives, the service calls `obj` with just those, in order: for the hello with the very match
  -- that the device has, for the bye with the endpoint of it. This holds where there is memory for a
  -- header and `soap_default` clears pointers.
  pub device_heard :
      (rt : Runtime) (clears : ClearsPointers rt) (fresh : Header)
      → rt.new_header ≡ some fresh
      → (env : Service.World) (obj : Handler) (w : Process) (s : Service) → s.p ≡ some obj
      → let p : Proxy = record { wsa = with_statics w.statics (w.proxies 0); sent = w.sent } in
        (ended : Ended (Unit {0})) × (p' : Proxy) × (announce rt first p ≡ ok (ended, p'))
        × ((bye_ends : Ended (Unit {0})) (ts : List Turn) (acts : List Action)
            → run_service ended bye_ends ts ≡ some acts
            → said_in acts ≡ announced (calls_of ended))
        × (w' : Process) × (ms : List Message) × (run rt (calls_of ended) w ≡ ok w')
        × (w'.sent ≡ w.sent ++ ms)
        × ((h : Option Header) × (receive_all rt env ms s
              ≡ ok (heard_by obj (announced (calls_of ended)) h s)))
        × (seen Serving.announced ≡ Serving.announced)
  unfolding announce Serving.announced
  device_heard rt clears fresh memory env obj w s bound =
      let p : Proxy = record { wsa = with_statics w.statics (w.proxies 0); sent = w.sent } in
      let (ended, m, st, said, _, _) = announce_sent rt fresh memory at_hello first.what p in
      let (w', ms, ran, more, _, h, heard) =
        announcements_heard rt clears fresh memory env obj (calls_of ended) w s bound in
      (
        ended,
        _,
        said,
        λ bye_ends ts acts q. run_service-announced ended bye_ends ts acts q,
        w',
        ms,
        ran,
        more,
        (h, heard),
        refl,
      )
